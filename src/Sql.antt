-- ===== src/Sql.antt =====
-- The tables that the SQL registries of internal/controlplane/domain keep, and the statements that
-- both stores send. A statement may fail by a fault of the engine, which is looked up by the number
-- of statements sent before; a failed statement changes nothing. Times are whole seconds.
pub mod Sqlite
pub mod Postgres
pub mod Catalogue
pub mod Refinement
pub mod Repository
pub mod Stores
pub mod Histories
pub mod Tokens
use stack_forge.Base.{
  ℕ, ◌+◌, String, Bool, true, false, not, ◌&&◌, ◌||◌, Option, none, some, List, [], ◌∷◌, ◌++◌, map,
  any, length, eqb, leb, if◌then◌else◌, ◌==◌, Result, ok, err,
}
use stack_forge.Registry.{Domain, Verification}

-- A row of `domains`; a column that may be NULL is an option.
pub record Row : Type 0 where
  pub id : String
  pub tenant_id : String
  pub domain : String
  pub root_domain : String
  pub subdomain : String
  pub target_service_name : String
  pub target_service_port : ℕ
  pub environment : String
  pub provider : String
  pub provider_zone_id : Option String
  pub provider_record_id : Option String
  pub dns_record_type : String
  pub dns_record_value : Option String
  pub proxied : Bool
  pub ssl_enabled : Bool
  pub ownership_status : String
  pub routing_status : String
  pub deployment_status : String
  pub last_error : Option String
  pub created_at : ℕ
  pub updated_at : ℕ
  pub deleted_at : Option ℕ

-- A row of `domain_verifications`.
pub record Proof : Type 0 where
  pub id : String
  pub domain_id : String
  pub txt_name : String
  pub token_hash : String
  pub created_at : ℕ
  pub verified_at : Option ℕ

pub record Tables : Type 0 where
  pub domains : List Row
  pub verifications : List Proof
  -- how many random values were drawn, and how many statements were sent
  pub drawn : ℕ
  pub sent : ℕ

-- The database engine: the fault of the n-th statement, and the error of a violated constraint.
pub record Engine : Type 0 where
  pub fault : ℕ → Option String
  pub conflict : String

-- The tables that the schema creates.
abbrev pub empty_tables : Tables
empty_tables = record { domains = []; verifications = []; drawn = 0; sent = 0 }

-- `sql.NullString.String`
abbrev pub text_of : Option String → String
text_of none = ""
text_of (some s) = s

-- `scanDomain` and `scanSQLiteDomain`
unfoldable pub scan_domain : Row → Domain
scan_domain r = record {
  id = r.id;
  tenant_id = r.tenant_id;
  domain = r.domain;
  root_domain = r.root_domain;
  subdomain = r.subdomain;
  target_service_name = r.target_service_name;
  target_service_port = r.target_service_port;
  environment = r.environment;
  provider = r.provider;
  provider_zone_id = text_of r.provider_zone_id;
  provider_record_id = text_of r.provider_record_id;
  dns_record_type = r.dns_record_type;
  dns_record_value = text_of r.dns_record_value;
  proxied = r.proxied;
  ssl_enabled = r.ssl_enabled;
  ownership_status = r.ownership_status;
  routing_status = r.routing_status;
  deployment_status = r.deployment_status;
  last_error = text_of r.last_error;
  created_at = r.created_at;
  updated_at = r.updated_at;
  deleted_at = r.deleted_at;
}

-- The row of `INSERT INTO domains`, by what the store sends for a text that may be NULL and for
-- `deleted_at`.
unfoldable pub row_of : (String → Option String) → Option ℕ → Domain → Row
row_of nullable deleted_at d = record {
  id = d.id;
  tenant_id = d.tenant_id;
  domain = d.domain;
  root_domain = d.root_domain;
  subdomain = d.subdomain;
  target_service_name = d.target_service_name;
  target_service_port = d.target_service_port;
  environment = d.environment;
  provider = d.provider;
  provider_zone_id = nullable d.provider_zone_id;
  provider_record_id = nullable d.provider_record_id;
  dns_record_type = d.dns_record_type;
  dns_record_value = nullable d.dns_record_value;
  proxied = d.proxied;
  ssl_enabled = d.ssl_enabled;
  ownership_status = d.ownership_status;
  routing_status = d.routing_status;
  deployment_status = d.deployment_status;
  last_error = nullable d.last_error;
  created_at = d.created_at;
  updated_at = d.updated_at;
  deleted_at = deleted_at;
}

-- The row of `INSERT INTO domain_verifications`
unfoldable pub proof_of : String → Verification → Proof
proof_of id v = record {
  id = id;
  domain_id = v.domain_id;
  txt_name = v.txt_name;
  token_hash = v.token_hash;
  created_at = v.created_at;
  verified_at = none;
}

-- `deleted_at IS NULL`
abbrev pub is_live : Row → Bool
is_live r = elim r.deleted_at [ none ↦ true | some t ↦ false ]

-- `WHERE deleted_at IS NULL AND (id=? OR domain=?)`
abbrev pub is_match : String → Row → Bool
is_match key r = is_live r && (r.id == key || r.domain == key)

-- The unique index `domains_active_domain_unique`, and the primary key.
unfoldable pub violates : Row → List Row → Bool
violates new rows =
    any (λ r. r.id == new.id) rows
    || (is_live new && any (λ r. is_live r && r.domain == new.domain) rows)

unfoldable pub first_match : String → List Row → Option Row
first_match key [] = none
first_match key (r ∷ rows) = if is_match key r then some r else first_match key rows

-- `SET deleted_at=?, routing_status='disabled', updated_at=?`
unfoldable pub retire : ℕ → String → Row → Row
retire now key r =
    if is_match key r
    then record r { deleted_at = some now; routing_status = "disabled"; updated_at = now }
    else r

-- `SET ownership_status='verified', updated_at=? WHERE id=?`
unfoldable pub prove : ℕ → String → Row → Row
prove now id r =
    if r.id == id then record r { ownership_status = "verified"; updated_at = now } else r

-- `SET verified_at=? WHERE domain_id=?`
unfoldable pub date_proof : ℕ → String → Proof → Proof
date_proof now id p = if p.domain_id == id then record p { verified_at = some now } else p

abbrev pub count_sent : Tables → Tables
count_sent t = record t { sent = t.sent + 1 }

module _ (engine : Engine) where
  -- `INSERT INTO domains`
  unfoldable pub insert_domain : Row → Tables → Tables × Option String
  insert_domain new t = elim (engine.fault t.sent) [
    | some e ↦ (count_sent t, some e)
    | none ↦
        if violates new t.domains
        then (count_sent t, some engine.conflict)
        else (record (count_sent t) { domains = t.domains ++ (new ∷ []) }, none)
  ]

  -- `SELECT … WHERE deleted_at IS NULL AND (id=? OR domain=?)`, the first row
  unfoldable pub get : String → Tables → Tables × Option Domain
  get key t = (
    count_sent t,
    elim (engine.fault t.sent) [
      | some e ↦ none
      | none ↦ elim (first_match key t.domains) [ none ↦ none | some r ↦ some (scan_domain r) ]
    ],
  )

  -- `Delete`
  unfoldable pub delete : ℕ → String → Tables → Tables × Result (Unit {0})
  delete now key t = elim (engine.fault t.sent) [
    | some e ↦ (count_sent t, err e)
    | none ↦ (
      record (count_sent t) { domains = map (retire now key) t.domains },
      if any (is_match key) t.domains then ok tt else err "not found",
    )
  ]

  -- The two updates at the end of `MarkVerified`; the fault of the second is ignored.
  unfoldable pub record_proof : ℕ → String → Tables → Tables × Result (Unit {0})
  record_proof now id t = elim (engine.fault t.sent) [
    | some e ↦ (count_sent t, err e)
    | none ↦
        let t' = record (count_sent t) { domains = map (prove now id) t.domains } in
        (
          elim (engine.fault t'.sent) [
            | some e ↦ count_sent t'
            | none ↦ record (count_sent t') {
              verifications = map (date_proof now id) t.verifications;
            }
          ],
          ok tt,
        )
  ]

-- `ORDER BY created_at`; rows of one time are in the order of insertion, which SQL leaves open.
unfoldable pub insert_by_time : Row → List Row → List Row
insert_by_time r [] = r ∷ []
insert_by_time r (s ∷ rows) =
    if leb r.created_at s.created_at then r ∷ s ∷ rows else s ∷ insert_by_time r rows

unfoldable pub live_by_time : List Row → List Row
live_by_time [] = []
live_by_time (r ∷ rows) =
    let rest = live_by_time rows in if is_live r then insert_by_time r rest else rest

-- `List`; a query that fails gives no domains. Failures between two rows are not modelled.
unfoldable pub list : Engine → Tables → Tables × List Domain
list engine t = (
  count_sent t,
  elim (engine.fault t.sent) [ some e ↦ [] | none ↦ map scan_domain (live_by_time t.domains) ],
)
