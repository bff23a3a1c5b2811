-- ===== src/Reconcile/Refusals.antt =====
-- When reconciling calls no service, and how far it goes otherwise.
use Prim.Native.String.{◌++◌ as ◌<>◌}
use stack_forge.Base.{
  String, ◌≡◌, ◌≢◌, ◌⊎◌, refl, Bool-cases, Option, none, some, Option-cases, arith, eq_iff, ◌==◌,
  inl, inr, List, [], ◌∷◌, Result-cases,
}
use stack_forge.Cloudflare.{Client, Outcome-cases, upsert_record}
use stack_forge.Backends.{Backend, write_route, job_status}
use stack_forge.Registry.{Domain}
use stack_forge.Reconcile.{
  Clients, Outside, Reconciled, dns_record, ensured, zone_of, ensure_dns, write_metadata, check_job,
  domain_with_clients,
}

pretending-ne-nil :
    ◌≢◌ {A = String}
      "external clients are not configured; refusing to pretend reconciliation succeeded" ""
pretending-ne-nil = ground (
  arith,
  eq_iff "external clients are not configured; refusing to pretend reconciliation succeeded" "",
)

refusing-ne-nil : ◌≢◌ {A = String} "ownership is not verified; refusing to apply routing" ""
refusing-ne-nil = ground (arith, eq_iff "ownership is not verified; refusing to apply routing" "")

missing-ne-nil : ◌≢◌ {A = String} "Cloudflare client is not configured" ""
missing-ne-nil = ground (arith, eq_iff "Cloudflare client is not configured" "")

abbrev pub ensured_text : Domain → String
ensured_text d = "ensured DNS " <> (d.dns_record_type <> (" " <> d.domain))

-- How far a reconciliation with a Cloudflare client came, by its actions and its error.
pub data Stage (d : Domain) (consul nomad : Option Backend) : List String → String → Type 0 where
  nothing_done : (e : String) → Stage d consul nomad [] e
  dns_ensured : (e : String) → Stage d consul nomad (ensured_text d ∷ []) e
  route_written :
      (c : Backend) (e : String)
      → consul ≡ some c
      → Stage d consul nomad (ensured_text d ∷ "wrote Consul route metadata" ∷ []) e
  job_checked :
      (c n : Backend)
      → consul ≡ some c
      → nomad ≡ some n
      → Stage d consul nomad
          (ensured_text d ∷ "wrote Consul route metadata" ∷ "checked Nomad job state" ∷ [])
          ""

module _ {B J S : Type 0} (out : Outside B J S) (d : Domain) where
  abbrev StageOf : Clients → Reconciled → Type 0
  StageOf clients r = Stage d clients.consul clients.nomad r.actions r.error

  check_job-Stage :
      (consul nomad : Option Backend) (c : Backend) (s : S)
      → consul ≡ some c
      → (let r =
            (check_job out d (ensured_text d ∷ "wrote Consul route metadata" ∷ []) nomad s).1 in
          Stage d consul nomad r.actions r.error)
  unfolding check_job
  check_job-Stage consul none c s given = route_written c _ given
  check_job-Stage consul (some n) c s given =
      elim (Result-cases (job_status out.nomad_http n out.decode_job d.target_service_name s).1) [
        | inl (e, bad) ↦ rw (check_job, bad) (route_written c e given)
        | inr (j, good) ↦ rw (check_job, good) (job_checked c n given refl)
      ]

  write_metadata-Stage :
      (clients : Clients) (s : S)
      → StageOf clients (write_metadata out d (ensured_text d ∷ []) clients s).1
  unfolding write_metadata
  write_metadata-Stage clients s = elim (Option-cases clients.consul) [
    | inl missing ↦ rw (write_metadata, missing) (dns_ensured _)
    | inr (c, given) ↦
        let written =
          write_route out.consul_http c out.encode_route d.domain
            (record {
              domain = d.domain;
              service = d.target_service_name;
              port = d.target_service_port;
            })
            s in
        elim (Result-cases written.1) [
          | inl (e, bad) ↦ rw (write_metadata, given, bad) (dns_ensured e)
          | inr (u, good) ↦
              rw (write_metadata, given, good)
                (check_job-Stage (some c) clients.nomad c written.0 refl)
        ]
  ]

  ensure_dns-Stage :
      (c : Client) (clients : Clients) (s : S) → StageOf clients (ensure_dns out d c clients s).1
  unfolding ensure_dns ensured
  ensure_dns-Stage c clients s = elim (Outcome-cases (zone_of out d c s).1) [
    | inr (e, lost) ↦ rw (ensure_dns, lost) (nothing_done _)
    | inl (z, found) ↦
        elim (Outcome-cases (upsert_record out.dns c z (dns_record d) (zone_of out d c s).0).1) [
          | inr (e, bad) ↦ rw (ensure_dns, found, bad) (nothing_done _)
          | inl (u, good) ↦ rw (ensure_dns, found, good) (write_metadata-Stage clients _)
        ]
  ]

  -- Nothing is called or done, with an error, or the domain is verified, Cloudflare is configured,
  -- and the result tells how far it came.
  abbrev pub IsStaged : Option Clients → S → S × Reconciled → Type 0
  IsStaged clients s o =
      ((o.0 ≡ s) × (o.1.actions ≡ []) × (o.1.error ≢ ""))
      ⊎ ((d.ownership_status ≡ "verified")
          × (cs : Clients) × (c : Client) × (clients ≡ some cs)
          × (cs.cloudflare ≡ some c)
          × Stage d cs.consul cs.nomad o.1.actions o.1.error)

  -- `DomainWithClients` calls no service, does nothing and returns an error, unless the domain is
  -- verified and a Cloudflare client is given. Then its actions are a first part of the three, DNS,
  -- route and job, in that order: the route only with a Consul client, and the job only with Consul
  -- and Nomad clients and without an error.
  pub domain_with_clients-IsStaged :
      (clients : Option Clients) (s : S) → IsStaged clients s (domain_with_clients out d clients s)
  unfolding domain_with_clients
  domain_with_clients-IsStaged clients s = elim (Bool-cases (d.ownership_status == "verified")) [
    | inr e ↦ inl (rw (e, domain_with_clients) (refl, refl, refusing-ne-nil))
    | inl e ↦ elim (Option-cases clients) [
      | inl missing ↦ inl (rw (domain_with_clients, e, missing) (refl, refl, pretending-ne-nil))
      | inr (cs, given) ↦ elim (Option-cases cs.cloudflare) [
        | inl none_given ↦
            inl (rw (domain_with_clients, e, given, none_given) (refl, refl, missing-ne-nil))
        | inr (c, there) ↦ inr (
          (eq_iff d.ownership_status "verified").0 e,
          cs,
          c,
          given,
          there,
          rw (domain_with_clients, e, given, there) (ensure_dns-Stage c cs s),
        )
      ]
    ]
  ]
