-- ===== src/Registry.antt =====
-- The control plane's domain registry in memory, `Store` of
-- internal/controlplane/domain/domain.go. Its mutex makes each method one step.
pub mod Invariant
pub mod Ownership
use Prim.Native.String.{◌++◌ as ◌<>◌}
use stack_forge.Base.{
  ℕ, ◌+◌, String, Bool, true, false, not, ◌&&◌, ◌||◌, Option, none, some, List, [], ◌∷◌, leb, eqb,
  if◌then◌else◌, ◌==◌, Result, ok, err, ◌>>=◌, ◌>>◌, fail_if,
}
use stack_forge.Text.{trim_space, to_lower}
use stack_forge.DomainName.{validate_name, root_domain, subdomain}
use stack_forge.Maps.{StringMap, lookup, insert, lookup_or}

pub record Domain : Type 0 where
  pub id : String
  pub tenant_id : String
  pub domain : String
  pub root_domain : String
  pub subdomain : String
  pub target_service_name : String
  -- a port that is not positive is 0 here: the code refuses both alike
  pub target_service_port : ℕ
  pub environment : String
  pub provider : String
  pub provider_zone_id : String
  pub provider_record_id : String
  pub dns_record_type : String
  pub dns_record_value : String
  pub proxied : Bool
  pub ssl_enabled : Bool
  pub ownership_status : String
  pub routing_status : String
  pub deployment_status : String
  pub last_error : String
  pub created_at : ℕ
  pub updated_at : ℕ
  pub deleted_at : Option ℕ

-- `Domain{}`
abbrev pub empty_domain : Domain
empty_domain = record {
  id = "";
  tenant_id = "";
  domain = "";
  root_domain = "";
  subdomain = "";
  target_service_name = "";
  target_service_port = 0;
  environment = "";
  provider = "";
  provider_zone_id = "";
  provider_record_id = "";
  dns_record_type = "";
  dns_record_value = "";
  proxied = false;
  ssl_enabled = false;
  ownership_status = "";
  routing_status = "";
  deployment_status = "";
  last_error = "";
  created_at = 0;
  updated_at = 0;
  deleted_at = none;
}

pub record Verification : Type 0 where
  pub domain_id : String
  pub txt_name : String
  pub token_hash : String
  pub token : String
  pub created_at : ℕ

-- What the registry takes from its surroundings: random identifiers and tokens by the number
-- drawn, the hexadecimal SHA-256 digest, and the clock.
pub record Source : Type 0 where
  pub random_id : ℕ → String
  pub random_token : ℕ → Result String
  pub digest : String → String
  pub now : ℕ

pub record Store : Type 0 where
  pub domains : StringMap Domain
  pub by_domain : StringMap String
  pub verifications : StringMap Verification
  pub drawn : ℕ

-- `NewStore`
abbrev pub new_store : Store
new_store = record { domains = []; by_domain = []; verifications = []; drawn = 0 }

abbrev pub is_live : Domain → Bool
is_live d = elim d.deleted_at [ none ↦ true | some t ↦ false ]

-- The name under which `Create` registers a domain.
unfoldable pub registered_name : String → String
registered_name s = to_lower (trim_space s)

-- `id, exists := s.byDomain[name]; exists && s.domains[id].DeletedAt == nil`
unfoldable pub is_taken : String → Store → Bool
is_taken name s = elim (lookup name s.by_domain) [
  | none ↦ false
  | some id ↦ is_live (lookup_or empty_domain id s.domains)
]

abbrev or_default : String → String → String
or_default s d = if s == "" then d else s

-- The tests of `Create`, in order.
unfoldable pub check_new : Domain → Bool → Store → Result (Unit {0})
check_new d allow_wildcard s = do
  validate_name d.domain allow_wildcard
  fail_if (d.tenant_id == "" || d.target_service_name == "" || eqb d.target_service_port 0)
      "tenant_id, target_service_name, and target_service_port are required"
  fail_if (is_taken (registered_name d.domain) s)
      ("domain " <> (registered_name d.domain <> " already exists"))

-- The domain as `Create` stores it.
unfoldable pub new_domain : Source → String → Domain → Domain
new_domain src id d =
    let name = registered_name d.domain in
    record d {
      domain = name;
      id = id;
      root_domain = root_domain name;
      subdomain = subdomain name;
      provider = or_default d.provider "cloudflare";
      dns_record_type = or_default d.dns_record_type "CNAME";
      environment = or_default d.environment "production";
      ownership_status = "pending";
      routing_status = "pending";
      deployment_status = "pending";
      created_at = src.now;
      updated_at = src.now;
    }

module _ (src : Source) where
  -- `Create`
  unfoldable pub create : Domain → Bool → Store → Store × Result Domain
  create d allow_wildcard s = elim (check_new d allow_wildcard s) [
    | err m ↦ (s, err m)
    | ok _ ↦
        let id = src.random_id s.drawn in
        let new = new_domain src id d in
        (
          record s {
            domains = insert id new s.domains;
            by_domain = insert new.domain id s.by_domain;
            drawn = s.drawn + 1;
          },
          ok new,
        )
  ]

  -- `Delete`
  unfoldable pub delete : String → Store → Store × Result (Unit {0})
  delete id s = elim (lookup id s.domains) [
    | none ↦ (s, err "not found")
    | some d ↦
        let gone = record d {
          deleted_at = some src.now;
          routing_status = "disabled";
          updated_at = src.now;
        } in
        (record s { domains = insert id gone s.domains }, ok tt)
  ]

  -- The verification that `VerificationToken` stores.
  unfoldable pub new_verification : String → Domain → String → Verification
  new_verification id d token = record {
    domain_id = id;
    txt_name = "_stackforge-verify." <> d.domain;
    token_hash = src.digest token;
    token = token;
    created_at = src.now;
  }

  -- `VerificationToken`
  unfoldable pub verification_token : String → Store → Store × Result Verification
  verification_token id s = elim (lookup id s.domains) [
    | none ↦ (s, err "domain not found")
    | some d ↦
        if not (is_live d) then (s, err "domain not found") else elim (src.random_token s.drawn) [
          | err m ↦ (record s { drawn = s.drawn + 1 }, err m)
          | ok token ↦
              let v = new_verification id d token in
              (record s { verifications = insert id v s.verifications; drawn = s.drawn + 1 }, ok v)
        ]
  ]

  -- `MarkVerified`
  unfoldable pub mark_verified : String → String → Store → Store × Result (Unit {0})
  mark_verified id token s = elim (lookup id s.verifications) [
    | none ↦ (s, err "verification token not generated")
    | some v ↦
        if not (src.digest token == v.token_hash)
        then (s, err "verification token mismatch")
        else let d = lookup_or empty_domain id s.domains in
          let proven = record d { ownership_status = "verified"; updated_at = src.now } in
          (record s { domains = insert id proven s.domains }, ok tt)
  ]

-- `Get`
unfoldable pub get : String → Store → Option Domain
get id s = elim (lookup id s.domains) [ none ↦ none | some d ↦ if is_live d then some d else none ]

live_ones : StringMap Domain → List Domain
live_ones [] = []
live_ones ((id, d) ∷ m) = let rest = live_ones m in if is_live d then d ∷ rest else rest

-- `List`. Go ranges over the map in no fixed order; the order here is that of first insertion.
unfoldable pub list : Store → List Domain
unfolding live_ones
list s = live_ones s.domains
