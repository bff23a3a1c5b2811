-- ===== src/Reconcile.antt =====
-- Reconciling a domain, internal/controlplane/reconcile/reconcile.go.
pub mod Refusals
use Prim.Native.String.{◌++◌ as ◌<>◌}
use stack_forge.Base.{
  ℕ, String, Bool, not, Option, none, some, List, [], ◌∷◌, ◌++◌, if◌then◌else◌, ◌==◌, Result, ok,
  err,
}
use stack_forge.Cloudflare.{
  Client, Record, Service, Outcome, done, failed, failure_text, no_response, upsert_record,
  lookup_zone,
}
use stack_forge.Backends.{Backend, HttpService, RouteMetadata, unreachable, write_route, job_status}
use stack_forge.Registry.{Domain}

-- `Result`; the empty error is success.
pub record Reconciled : Type 0 where
  pub domain_id : String
  pub actions : List String
  pub error : String

pub record Clients : Type 0 where
  pub cloudflare : Option Client
  pub consul : Option Backend
  pub nomad : Option Backend

-- The services behind the clients, over one state of the world outside.
pub record Outside (B J S : Type 0) : Type 0 where
  pub dns : Service S
  pub consul_http : HttpService B S
  pub nomad_http : HttpService B S
  pub encode_route : RouteMetadata → Result B
  pub decode_job : B → Result J

-- The record that a domain asks for.
abbrev pub dns_record : Domain → Record
dns_record d = record {
  id = "";
  kind = d.dns_record_type;
  name = d.domain;
  content = d.dns_record_value;
  proxied = d.proxied;
}

module _ {B J S : Type 0} (out : Outside B J S) (d : Domain) where
  abbrev stopped : List String → String → Reconciled
  stopped actions e = record { domain_id = d.id; actions = actions; error = e }

  ensured : String
  ensured = "ensured DNS " <> (d.dns_record_type <> (" " <> d.domain))

  -- From the check of the Nomad job on.
  unfoldable pub check_job : List String → Option Backend → S → S × Reconciled
  check_job actions none s = (s, stopped actions "Nomad client is not configured")
  check_job actions (some c) s =
      let (s', r) = job_status out.nomad_http c out.decode_job d.target_service_name s in
      elim r [
        | err e ↦ (s', stopped actions e)
        | ok _ ↦ (s', stopped (actions ++ ("checked Nomad job state" ∷ [])) "")
      ]

  -- From the route metadata on.
  unfoldable pub write_metadata : List String → Clients → S → S × Reconciled
  write_metadata actions clients s = elim clients.consul [
    | none ↦ (s, stopped actions "Consul client is not configured")
    | some c ↦
        let (s', r) =
          write_route out.consul_http c out.encode_route d.domain
            (record {
              domain = d.domain;
              service = d.target_service_name;
              port = d.target_service_port;
            })
            s in
        elim r [
          | err e ↦ (s', stopped actions e)
          | ok _ ↦ check_job (actions ++ ("wrote Consul route metadata" ∷ [])) clients.nomad s'
        ]
  ]

  -- The zone of the domain.
  unfoldable pub zone_of : Client → S → S × Outcome String
  zone_of c s =
      if d.provider_zone_id == ""
      then lookup_zone out.dns c d.root_domain s
      else (s, done d.provider_zone_id)

  -- From the DNS record on.
  unfoldable pub ensure_dns : Client → Clients → S → S × Reconciled
  unfolding ensured
  ensure_dns c clients s =
      let (s', zone) = zone_of c s in
      elim zone [
        | failed e ↦ (s', stopped [] (failure_text e))
        | done z ↦
            let (s'', o) = upsert_record out.dns c z (dns_record d) s' in
            elim o [
              | failed e ↦ (s'', stopped [] (failure_text e))
              | done _ ↦ write_metadata (ensured ∷ []) clients s''
            ]
      ]

  -- `DomainWithClients`
  unfoldable pub domain_with_clients : Option Clients → S → S × Reconciled
  domain_with_clients clients s =
      if not (d.ownership_status == "verified")
      then (s, stopped [] "ownership is not verified; refusing to apply routing")
      else elim clients [
        | none ↦ (
          s,
          stopped []
              "external clients are not configured; refusing to pretend reconciliation succeeded",
        )
        | some cs ↦ elim cs.cloudflare [
          | none ↦ (s, stopped [] "Cloudflare client is not configured")
          | some c ↦ ensure_dns c cs s
        ]
      ]

-- Services that no client calls.
abbrev nowhere : Outside (Unit {0}) (Unit {0}) (Unit {0})
nowhere = record {
  dns = λ r s. (s, no_response "");
  consul_http = λ r s. (s, unreachable "");
  nomad_http = λ r s. (s, unreachable "");
  encode_route = λ m. ok tt;
  decode_job = λ b. ok tt;
}

-- `Domain`, which calls `DomainWithClients` without clients
unfoldable pub domain : Domain → Reconciled
domain d = (domain_with_clients nowhere d none tt).1
