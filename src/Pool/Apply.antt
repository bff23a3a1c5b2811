-- ===== src/Pool/Apply.antt =====
-- Applying DNS records, `ApplyDNS` and `ApplyAll` of domainpool.go.
pub mod Results
use Prim.Native.String.{◌++◌ as ◌<>◌}
use stack_forge.Base.{
  ℕ, zero, suc, ◌+◌, String, Bool, true, false, not, ◌&&◌, Option, none, some, List, [], ◌∷◌, ◌++◌,
  set, if◌then◌else◌, ◌==◌, Result, ok, err,
}
use stack_forge.Host.{Host, Codec}
use stack_forge.Cloudflare.{
  Client, Record, Service, Outcome, done, failed, failure_text, list_records,
}
use stack_forge.Pool.{Entry, Store, World, save, find, load}
use stack_forge.Pool.Audit.{audit}
use stack_forge.Pool.Retry.{
  ApplyOptions, failure_message, lookup_zone_with_retry, upsert_record_with_retry,
}

-- What `ApplyDNS` returns: an entry, and an error's text or none.
pub record Applied : Type 0 where
  pub entry : Entry
  pub error : Option String

abbrev pub empty_entry : Entry
empty_entry = record {
  id = "";
  domain = "";
  root_domain = "";
  zone_id = "";
  provider = "";
  provider_record_id = "";
  status = "";
  dns_status = "";
  verification_status = "";
  target_type = "";
  target_value = "";
  record_type = "";
  proxied = false;
  created_at = 0;
  updated_at = 0;
  last_error = "";
}

-- The identifier of the listed record that `ApplyDNS` looks for, or the one that the entry has.
unfoldable pub record_id_of : Entry → Outcome (List Record) → String
record_id_of e (failed m) = e.provider_record_id
record_id_of e (done []) = e.provider_record_id
record_id_of e (done (r ∷ rs)) =
    let rest = record_id_of e (done rs) in
    if r.kind == e.record_type && r.name == e.domain then r.id else rest

abbrev pub record_of : Entry → Record
record_of e = record {
  id = "";
  kind = e.record_type;
  name = e.domain;
  content = e.target_value;
  proxied = e.proxied;
}

-- `ApplyAllResult`. The call as a whole returns an error if `errors` is not empty.
pub record ApplyAllResult : Type 0 where
  pub applied : List Entry
  pub failures : List Entry
  pub errors : List String
  pub dry_run : Bool

-- `client == nil`: the variable that holds the token.
abbrev pub token_name : ApplyOptions → String
token_name opts = if opts.token_env == "" then "CLOUDFLARE_API_TOKEN" else opts.token_env

module _ {S : Type 0} (codec : Codec Store) (host : Host codec.Bytes) (service : Service S) where
  abbrev pub W : Type 0
  W = World codec.Bytes S

  -- An error path: the entry is stored, a fault of that is ignored, and the error is audited.
  unfoldable pub give_up :
      ApplyOptions → Store → ℕ → Entry → Entry → String → String → W → W × Applied
  give_up opts s i before e message logged w =
      let (w', _) = save codec host opts.path (record { entries = set s.entries i e }) w in
      (
        audit host opts.audit_path "domain_pool.apply_dns" before e logged w',
        record { entry = e; error = some message },
      )

  -- The end of `ApplyDNS`, once the record is in place.
  unfoldable pub finish : ApplyOptions → Client → Store → ℕ → Entry → Entry → W → W × Applied
  finish opts c s i before e w =
      let (remote, listed) = list_records service c e.zone_id e.domain w.remote in
      let e' = record e {
        provider_record_id = record_id_of e listed;
        dns_status = "applied";
        status = "active";
        last_error = "";
        updated_at = host.now;
      } in
      let (w', saved) =
        save codec host opts.path (record { entries = set s.entries i e' })
          (record w { remote = remote }) in
      elim saved [
        | err m ↦ (w', record { entry = empty_entry; error = some m })
        | ok _ ↦ (
          audit host opts.audit_path "domain_pool.apply_dns" before e' "" w',
          record { entry = e'; error = none },
        )
      ]

  -- From the upsert on, with the zone known.
  unfoldable pub apply_in_zone : ApplyOptions → Client → Store → ℕ → Entry → Entry → W → W × Applied
  apply_in_zone opts c s i before e w =
      let r = upsert_record_with_retry service opts c e.zone_id (record_of e) w.remote in
      let w' = record w { remote = r.state } in
      elim r.outcome [
        | failed m ↦
            give_up opts s i before
              (record e {
                dns_status = "failed";
                status = "failed";
                last_error = failure_message m;
              })
              (failure_message m) (failure_text m) w'
        | done _ ↦ finish opts c s i before e w'
      ]

  -- From the lookup of the zone on, with a client.
  unfoldable pub apply_with_client : ApplyOptions → Client → Store → ℕ → Entry → W → W × Applied
  apply_with_client opts c s i e w =
      if not (e.zone_id == "")
      then apply_in_zone opts c s i e e w
      else let r = lookup_zone_with_retry service opts c e.root_domain w.remote in
        let w' = record w { remote = r.state } in
        elim r.outcome [
          | failed m ↦
              give_up opts s i e (record e { last_error = failure_message m }) (failure_message m)
                (failure_text m) w'
          | done zone ↦ apply_in_zone opts c s i e (record e { zone_id = zone }) w'
        ]

  -- A dry run: the audit line is all that it leaves.
  unfoldable pub plan_only : ApplyOptions → Entry → W → W × Applied
  plan_only opts e w =
      let e' = record e { last_error = "" } in
      (
        audit host opts.audit_path "domain_pool.apply_dns.dry_run" e e' "" w,
        record { entry = e'; error = none },
      )

  -- `ApplyDNS`
  unfoldable pub apply_dns : ApplyOptions → String → W → W × Applied
  apply_dns opts text w = elim (find codec host opts.path text w) [
    | err m ↦ (w, record { entry = empty_entry; error = some m })
    | ok (e, i, s) ↦ if opts.dry_run then plan_only opts e w else elim opts.client [
      | some c ↦ apply_with_client opts c s i e w
      | none ↦
          let name = token_name opts in
          let token = host.getenv name in
          let missing = name <> " is required for DNS apply" in
          if token == ""
          then give_up opts s i e (record e { last_error = missing }) missing missing w
          else apply_with_client opts (record { token = token; base_url = "" }) s i e w
    ]
  ]

  -- One round of the loop of `ApplyAll`.
  unfoldable pub apply_one : ApplyOptions → Entry → W × ApplyAllResult → W × ApplyAllResult
  apply_one opts e (w, r) =
      if e.status == "disabled"
      then (w, r)
      else let (w', a) = apply_dns opts e.domain w in
        elim a.error [
          | some m ↦ (
            w',
            record r {
              failures = r.failures ++ a.entry ∷ [];
              errors = r.errors ++ (e.domain <> (": " <> m)) ∷ [];
            },
          )
          | none ↦ (w', record r { applied = r.applied ++ a.entry ∷ [] })
        ]

  unfoldable pub apply_each : ApplyOptions → List Entry → W × ApplyAllResult → W × ApplyAllResult
  apply_each opts [] done_so_far = done_so_far
  apply_each opts (e ∷ es) done_so_far = apply_each opts es (apply_one opts e done_so_far)

  -- `ApplyAll`
  unfoldable pub apply_all : ApplyOptions → W → W × Result ApplyAllResult
  apply_all opts w = elim (load codec host opts.path w) [
    | err m ↦ (w, err m)
    | ok s ↦
        let nothing : ApplyAllResult = record {
          applied = [];
          failures = [];
          errors = [];
          dry_run = opts.dry_run;
        } in
        let (w', r) = apply_each opts s.entries (w, nothing) in (w', ok r)
  ]

-- Unfolds the operations of this module, for evaluation.
unfoldable pub applying : Unit {0}
unfolding save find load audit give_up finish record_id_of apply_in_zone apply_with_client plan_only
    apply_dns apply_one apply_each apply_all failure_message lookup_zone_with_retry
    upsert_record_with_retry
applying = tt
