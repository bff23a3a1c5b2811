-- ===== src/Pool.antt =====
-- The domain pool, internal/stackforge/domainpool/domainpool.go: its entries, the file that keeps
-- them, validation and the operations on single entries.
pub mod Unique
pub mod Shadow
pub mod Audit
pub mod Retry
pub mod Apply
pub mod Verify
use Prim.Native.String.{◌++◌ as ◌<>◌}
use stack_forge.Base.{
  ℕ, suc, ◌+◌, String, Bool, true, false, not, ◌&&◌, ◌||◌, Option, none, some, List, [], ◌∷◌, ◌++◌,
  set, if◌then◌else◌, ◌==◌, Result, ok, err, ◌>>=◌, ◌>>◌, fail_if, from_error,
}
use stack_forge.Text.{trim_space, trim_suffix, to_lower, to_upper, is_one_of}
use stack_forge.Net.{IpAddr, parse_ip, is_private, is_loopback, is_unspecified}
use stack_forge.Paths.{dir}
use stack_forge.Host.{Host, Codec, Files, read_path, write_file}
use stack_forge.DomainName.{validate_name, is_ip, root_domain as root_of}

pub record Entry : Type 0 where
  pub id : String
  pub domain : String
  pub root_domain : String
  pub zone_id : String
  pub provider : String
  pub provider_record_id : String
  pub status : String
  pub dns_status : String
  pub verification_status : String
  pub target_type : String
  pub target_value : String
  pub record_type : String
  pub proxied : Bool
  pub created_at : ℕ
  pub updated_at : ℕ
  pub last_error : String

pub record Store : Type 0 where
  pub entries : List Entry

-- One line of the audit file.
pub record AuditRecord : Type 0 where
  pub id : String
  pub action : String
  pub resource_id : String
  pub before : Entry
  pub after : Entry
  pub error : String
  pub created_at : ℕ

-- What an operation may change: the file of the pool and others, the lines that were appended to
-- audit files, by path, identifiers drawn, the DNS service. An audit file is none of `files`: the
-- path of the pool is never that of an audit file.
pub record World (B S : Type 0) : Type 0 where
  pub files : Files B
  pub audits : List (String × AuditRecord)
  pub drawn : ℕ
  pub remote : S

-- `normalize`
unfoldable pub normalize : String → String
normalize s = to_lower (trim_suffix (trim_space s) ".")

-- `rootDomain`
unfoldable pub root_domain : String → String
unfolding normalize
root_domain d = root_of (normalize d)

abbrev is_internal : Option IpAddr → Bool
is_internal none = false
is_internal (some ip) = is_private ip || is_loopback ip || is_unspecified ip

-- The switch on the record type.
unfoldable pub check_target : Entry → Result (Unit {0})
check_target e =
    let kind = to_upper e.record_type in
    if kind == "A"
    then fail_if (not (is_ip (parse_ip e.target_value))) "A records require an IP target_value"
    else if kind == "CNAME"
    then elim (validate_name e.target_value false) [
      | ok _ ↦ ok tt
      | err m ↦ err ("CNAME target_value must be a public domain: " <> m)
    ]
    else err "record_type must be A or CNAME"

-- `ValidateEntry`
unfoldable pub validate_entry : Entry → Bool → Bool → Result (Unit {0})
unfolding check_target
validate_entry e allow_internal allow_wildcard = do
  validate_name e.domain allow_wildcard
  fail_if (not allow_internal && is_internal (parse_ip e.target_value))
      "internal target IPs are rejected unless explicitly enabled"
  fail_if (not (is_one_of (to_lower e.target_type) ("traefik" ∷ "control-plane" ∷ "custom" ∷ [])))
      "target_type must be traefik, control-plane, or custom"
  check_target e

abbrev pub is_active : Entry → Bool
is_active e = not (e.status == "disabled")

-- The duplicate test of `Add`.
unfoldable pub has_active : String → List Entry → Bool
has_active domain [] = false
has_active domain (e ∷ es) =
    let rest = has_active domain es in if e.domain == domain && is_active e then true else rest

-- A field's default.
abbrev pub or_default : String → String → String
or_default s d = if s == "" then d else s

-- The fields that `Add` fills in.
unfoldable pub fresh_entry : String → ℕ → Entry → Entry
unfolding root_domain
fresh_entry id now e = record e {
  id = id;
  root_domain = root_domain e.domain;
  provider = or_default e.provider "cloudflare";
  status = or_default e.status "pending";
  dns_status = or_default e.dns_status "pending";
  verification_status = or_default e.verification_status "pending";
  record_type = to_upper (or_default e.record_type "A");
  created_at = now;
  updated_at = now;
}

-- The test of `Remove` and `Find`: the entry has the normalised domain, or the text as identifier.
abbrev pub is_named : String → Entry → Bool
is_named text e = e.domain == normalize text || e.id == text

unfoldable pub find_from : ℕ → String → List Entry → Option (Entry × ℕ)
find_from i text [] = none
find_from i text (e ∷ es) =
    let rest = find_from (suc i) text es in if is_named text e then some (e, i) else rest

module _ {S : Type 0} (codec : Codec Store) (host : Host codec.Bytes) where
  -- `Load`: a missing file is an empty pool.
  unfoldable pub load : String → World codec.Bytes S → Result Store
  load path w = elim (read_path path w.files) [
    | none ↦ ok (record { entries = [] })
    | some b ↦ do from_error (host.read_fault path); codec.decode b
  ]

  -- `Save`
  unfoldable pub save :
      String → Store → World codec.Bytes S → World codec.Bytes S × Result (Unit {0})
  save path s w = elim (do from_error (host.mkdir_fault (dir path)); codec.encode s) [
    | err m ↦ (w, err m)
    | ok b ↦
        let (files, fault) = write_file host path b w.files in
        (record w { files = files }, from_error fault)
  ]

  -- `Find`
  unfoldable pub find : String → String → World codec.Bytes S → Result (Entry × ℕ × Store)
  find path text w = do
    s ← load path w
    elim (find_from 0 text s.entries) [ none ↦ err "domain not found" | some (e, i) ↦ ok (e, i, s) ]

  -- What `Add` does before it draws an identifier: the entry with its domain normalised.
  unfoldable pub admit : String → Entry → Bool → Bool → World codec.Bytes S → Result (Store × Entry)
  admit path e allow_internal allow_wildcard w = do
    s ← load path w
    validate_entry e allow_internal allow_wildcard
    let domain = normalize e.domain
    fail_if (has_active domain s.entries) ("domain " <> (domain <> " already exists in pool"))
    ok (s, record e { domain = domain })

  -- `Add`
  unfoldable pub add :
      String → Entry → Bool → Bool → World codec.Bytes S → World codec.Bytes S × Result Entry
  unfolding admit fresh_entry
  add path e allow_internal allow_wildcard w = elim (admit path e allow_internal allow_wildcard w) [
    | err m ↦ (w, err m)
    | ok (s, e') ↦
        let new = fresh_entry (host.random_id w.drawn) host.now e' in
        let drawn = record w { drawn = w.drawn + 1 } in
        let (w', saved) = save path (record { entries = s.entries ++ new ∷ [] }) drawn in
        (w', (do saved; ok new))
  ]

  -- `Remove`
  unfoldable pub remove : String → String → World codec.Bytes S → World codec.Bytes S × Result Entry
  remove path text w = elim (find path text w) [
    | err m ↦ (w, err m)
    | ok (e, i, s) ↦
        let gone = record e { status = "disabled"; updated_at = host.now } in
        let (w', saved) = save path (record { entries = set s.entries i gone }) w in
        (w', (do saved; ok gone))
  ]
