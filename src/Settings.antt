-- ===== src/Settings.antt =====
-- The settings of the control plane, internal/controlplane/config/config.go, and the supported
-- operating systems, internal/stackforge/osdetect/osdetect.go.
use Prim.Native.String.{◌++◌ as ◌<>◌}
use stack_forge.Base.{
  ℕ, ◌+◌, ◌-◌, ◌^◌, String, Bool, true, false, not, ◌&&◌, ◌||◌, Option, none, some, List, [], ◌∷◌,
  code, leb, eqb, if◌then◌else◌, ◌==◌,
}
use stack_forge.Text.{split, trim_space, cut, trim_prefix, is_one_of}
use stack_forge.Text.Number.{decimal_from}

-- Go's `int`, with `negsuc n` for `-(n + 1)`
pub data ℤ : Type 0 where
  pos : ℕ → ℤ
  negsuc : ℕ → ℤ

unsigned : String → Option ℕ
unsigned s = if s == "" then none else decimal_from 0 s

signed : Bool → ℕ → Option ℤ
signed false n = if leb (2 ^ 63) n then none else some (pos n)
signed true n =
    if eqb n 0 then some (pos 0) else if leb (2 ^ 63 + 1) n then none else some (negsuc (n - 1))

sign_and_digits : Bool → String → Option ℤ
sign_and_digits negative digits = elim (unsigned digits) [
  | none ↦ none
  | some n ↦ signed negative n
]

-- `strconv.Atoi` where `int` has 64 bits; every error is `none`.
unfoldable pub atoi : String → Option ℤ
unfolding unsigned signed sign_and_digits
atoi String.[] = none
atoi (String.◌∷◌ c s) =
    if eqb (code c) (code "-")
    then sign_and_digits true s
    else if eqb (code c) (code "+")
    then sign_and_digits false s
    else sign_and_digits false (String.◌∷◌ c s)

pub record Config : Type 0 where
  pub env : String
  pub http_addr : String
  pub state_dir : String
  pub log_level : String
  pub admin_api_keys : List String
  pub reconciler_enabled : Bool
  -- in seconds; the code multiplies by a second
  pub reconciler_interval : ℤ
  pub ready_protected : Bool
  pub database_url : String
  pub allow_wildcard_domains : Bool
  pub cloudflare_api_token : String
  pub cloudflare_account_id : String
  pub cloudflare_default_zone_id : String
  pub nomad_addr : String
  pub nomad_token : String
  pub consul_http_addr : String
  pub consul_http_token : String
  pub traefik_cert_resolver : String
  pub traefik_entrypoint : String

-- The loop of `split`
unfoldable pub set_parts : List String → List String
set_parts [] = []
set_parts (p ∷ parts) =
    let rest = set_parts parts in if not (trim_space p == "") then trim_space p ∷ rest else rest

-- `split`
unfoldable pub split_list : String → List String
split_list v = if v == "" then [] else set_parts (split "," v)

-- By `os.Getenv`, which gives the empty text where a variable is not set
module _ (os_getenv : String → String) where
  -- `getenv`
  unfoldable pub getenv : String → String → String
  getenv k d = if not (os_getenv k == "") then os_getenv k else d

  -- `boolenv`
  unfoldable pub boolenv : String → Bool → Bool
  boolenv k d = let v = os_getenv k in if v == "" then d else v == "true" || v == "1" || v == "yes"

  -- `intenv`
  unfoldable pub intenv : String → ℤ → ℤ
  intenv k d = elim (atoi (os_getenv k)) [ some v ↦ v | none ↦ d ]

  -- `FromEnv`
  unfoldable pub from_env : Config
  from_env = record {
    env = getenv "STACKFORGE_ENV" "production";
    http_addr = getenv "STACKFORGE_HTTP_ADDR" ":8080";
    state_dir = getenv "STACKFORGE_STATE_DIR" "/var/lib/stackforge";
    log_level = getenv "STACKFORGE_LOG_LEVEL" "info";
    admin_api_keys = split_list (os_getenv "STACKFORGE_ADMIN_API_KEYS");
    reconciler_enabled = boolenv "STACKFORGE_RECONCILER_ENABLED" true;
    reconciler_interval = intenv "STACKFORGE_RECONCILER_INTERVAL_SECONDS" (pos 300);
    ready_protected = boolenv "STACKFORGE_READY_PROTECTED" true;
    database_url = os_getenv "DATABASE_URL";
    allow_wildcard_domains = boolenv "ALLOW_WILDCARD_DOMAINS" false;
    cloudflare_api_token = os_getenv "CLOUDFLARE_API_TOKEN";
    cloudflare_account_id = os_getenv "CLOUDFLARE_ACCOUNT_ID";
    cloudflare_default_zone_id = os_getenv "CLOUDFLARE_DEFAULT_ZONE_ID";
    nomad_addr = os_getenv "NOMAD_ADDR";
    nomad_token = os_getenv "NOMAD_TOKEN";
    consul_http_addr = os_getenv "CONSUL_HTTP_ADDR";
    consul_http_token = os_getenv "CONSUL_HTTP_TOKEN";
    traefik_cert_resolver = getenv "TRAEFIK_CERT_RESOLVER" "letsencrypt";
    traefik_entrypoint = getenv "TRAEFIK_ENTRYPOINT" "websecure";
  }

-- `OS`
pub record Os : Type 0 where
  pub name : String
  pub version : String

trim_left_quotes : String → String
trim_left_quotes String.[] = ""
trim_left_quotes (String.◌∷◌ c s) =
    let rest = trim_left_quotes s in if eqb (code c) (code "\"") then rest else String.◌∷◌ c s

only_quotes : String → Bool
only_quotes String.[] = true
only_quotes (String.◌∷◌ c s) = eqb (code c) (code "\"") && only_quotes s

trim_right_quotes : String → String
trim_right_quotes String.[] = ""
trim_right_quotes (String.◌∷◌ c s) =
    let rest = trim_right_quotes s in if only_quotes (String.◌∷◌ c s) then "" else String.◌∷◌ c rest

-- `strings.Trim` of quotation marks
unfoldable pub trim_quotes : String → String
unfolding trim_left_quotes only_quotes trim_right_quotes
trim_quotes s = trim_right_quotes (trim_left_quotes s)

-- The body of the loop of `ParseOSRelease`
unfoldable pub release_line : String → Os → Os
release_line line out = elim (cut "=" line) [
  | none ↦ out
  | some (key, value) ↦
      if key == "ID"
      then record out { name = trim_quotes value }
      else if key == "VERSION_ID"
      then record out { version = trim_quotes value }
      else out
]

unfoldable pub release_lines : List String → Os → Os
release_lines [] out = out
release_lines (line ∷ lines) out = release_lines lines (release_line line out)

-- `strconv.Atoi` of a text is at least 12, where a number that is too large counts as the largest
-- one and other errors as 0.
unfoldable pub at_least_12 : String → Bool
unfolding unsigned
at_least_12 s = elim (unsigned (trim_prefix s "+")) [ some n ↦ leb 12 n | none ↦ false ]

-- The version of Debian, by its first part
unfoldable pub is_debian_12 : String → Bool
is_debian_12 s = elim (cut "." s) [ none ↦ at_least_12 s | some (major, rest) ↦ at_least_12 major ]

-- `Validate`
unfoldable pub validate_os : Os → Option String
validate_os os =
    let refused = some (
      "unsupported OS "
      <> (os.name
          <> (" " <> (os.version <> "; supported: Debian 12+, Ubuntu 22.04+, Ubuntu 24.04+")))) in
    if os.name == "debian"
    then if is_debian_12 os.version then none else refused
    else if os.name == "ubuntu"
    then if is_one_of os.version ("22.04" ∷ "24.04" ∷ []) then none else refused
    else refused

-- `ParseOSRelease`
unfoldable pub parse_os_release : String → Os × Option String
parse_os_release content =
    let out = release_lines (split "\n" content) (record { name = ""; version = "" }) in
    (out, validate_os out)
