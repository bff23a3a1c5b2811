-- ===== src/Safety.antt =====
-- The gate in front of a live installation, internal/stackforge/safety/safety.go.
pub mod Gate
pub mod Meaning
use Prim.Native.String.{◌++◌ as ◌<>◌}
use stack_forge.Base.{
  String, Bool, true, false, not, ◌&&◌, ◌||◌, Option, none, some, List, [], ◌∷◌, ◌++◌, any,
  if◌then◌else◌, ◌==◌,
}
use stack_forge.Text.{
  trim_space, to_lower, equal_fold, trim_prefix, has_suffix, contains, split, join, is_one_of,
  is_set,
}
use stack_forge.Net.{parse_ip, in_block, dotted}
use stack_forge.Config.{Config, NodeConfig}

pub record Options : Type 0 where
  pub live : Bool
  pub production : Bool
  pub confirm_production : Bool
  pub allow_example_config : Bool
  pub allow_public_ssh : Bool

pub record Finding : Type 0 where
  pub severity : String
  pub code : String
  pub message : String

pub record Report : Type 0 where
  pub safe : Bool
  pub findings : List Finding

-- The closure `add` of `Check`.
unfoldable pub add : String → String → String → Report → Report
add severity code message r = record {
  findings = r.findings ++ (record { severity = severity; code = code; message = message } ∷ []);
  safe = if severity == "error" then false else r.safe;
}

-- `if cond { add(severity, code, msg) }`
unfoldable pub add_if : Bool → String → String → String → Report → Report
add_if b severity code message r = if b then add severity code message r else r

-- `isExampleClusterName`
unfoldable pub is_example_cluster_name : String → Bool
is_example_cluster_name name =
    let n = to_lower (trim_space name) in
    (n == "example") || (n == "demo") || contains n "example" || contains n "demo"

-- `isExampleIP`
unfoldable pub is_example_ip : String → Bool
is_example_ip value = elim (parse_ip (trim_space value)) [
  | none ↦ false
  | some ip ↦
      in_block (dotted 192 0 2 0) 24 ip
      || in_block (dotted 198 51 100 0) 24 ip
      || in_block (dotted 203 0 113 0) 24 ip
]

first : List String → String
first [] = ""
first (s ∷ _) = s

-- `isExampleDomain`
unfoldable pub is_example_domain : String → Bool
unfolding first
is_example_domain value =
    let v = trim_prefix (trim_prefix (to_lower (trim_space value)) "http://") "https://" in
    let host = first (split ":" (first (split "/" v))) in
    (host == "example.com")
    || has_suffix host ".example.com"
    || (host == "example.org")
    || has_suffix host ".example.org"
    || (host == "example.net")
    || has_suffix host ".example.net"
    || contains host "change-me"

-- `isPlaceholderSecret`
unfoldable pub is_placeholder_secret : String → Bool
is_placeholder_secret value =
    let v = to_lower (trim_space value) in
    (v == "") || (v == "change-me") || contains v "example" || contains v "demo"

-- The first value that a test accepts; the empty text where there is none.
first_of : (String → Bool) → List String → String
first_of p [] = ""
first_of p (v ∷ vs) = let rest = first_of p vs in if p v then v else rest

addresses_of : List NodeConfig → List String
addresses_of [] = []
addresses_of (n ∷ nodes) = n.address ∷ n.public_address ∷ addresses_of nodes

-- `exampleConfigValue`: each loop returns its first hit, and none of the tests accepts the empty
-- text but the last, which returns a text of its own.
unfoldable pub example_config_value : Config → String
unfolding first_of addresses_of
example_config_value c =
    let address = first_of is_example_ip (addresses_of c.nodes) in
    let domain =
      first_of is_example_domain
        (c.control_plane.domain ∷ c.traefik.dashboard_domain ∷ c.traefik.email ∷ []) in
    if is_set address
    then address
    else if is_set domain
    then domain
    else if any is_placeholder_secret c.control_plane.admin_api_keys
    then "control_plane.admin_api_keys"
    else ""

-- `containsCIDR`
unfoldable pub contains_cidr : List String → String → Bool
contains_cidr values target = any (λ v. trim_space v == target) values

-- `hasRole`
unfoldable pub has_role : NodeConfig → String → Bool
has_role n role = is_one_of role n.roles

-- `databasePublic`
unfoldable pub database_public : Config → Bool
database_public c =
    any
      (λ n.
        has_role n "database"
        && ((is_set n.public_address && (n.public_address == n.address))
            || (c.network.allow_public_internal_communication && is_set n.public_address)))
      c.nodes

-- whether 0.0.0.0/0 or ::/0 is among the CIDRs
unfoldable pub is_open : List String → Bool
is_open cidrs = contains_cidr cidrs "0.0.0.0/0" || contains_cidr cidrs "::/0"

-- `internalAPIPublic`
unfoldable pub internal_api_public : Config → Bool
internal_api_public c =
    is_open c.network.allowed_admin_cidrs
    || (c.network.allow_public_internal_communication
        && any
            (λ n.
              (has_role n "consul-server" || has_role n "nomad-server") && is_set n.public_address)
            c.nodes)

-- `cloudflareEnabled`
unfoldable pub cloudflare_enabled : Config → Bool
cloudflare_enabled c =
    is_set (trim_space c.cloudflare.default_zone_id)
    && not (trim_space c.cloudflare.default_zone_id == "optional")

-- `Check`; a nil configuration is `none`.
unfoldable pub check : Option Config → Options → Report
check none o = add "error" "config-nil" "config is required" (record { safe = true; findings = [] })
check (some c) o =
    let v = example_config_value c in
    let production = o.production || equal_fold c.cluster.environment "production" in
    add_if (cloudflare_enabled c && (trim_space c.cloudflare.api_token_env == "")) "error"
      "cloudflare-token-env" "cloudflare.api_token_env is required when Cloudflare is enabled"
      (add_if (internal_api_public c) "error" "public-internal-api"
        "Consul/Nomad APIs must be restricted to admin CIDRs and private node traffic"
        (add_if (database_public c) "error" "public-database"
          "database role node must not use a public address for database traffic"
          (add_if (c.traefik.dashboard_enabled && not c.traefik.dashboard_basic_auth) "error"
            "traefik-dashboard-auth" "Traefik dashboard is enabled without auth"
            (add_if (is_open c.network.allowed_ssh_cidrs && not o.allow_public_ssh) "error"
              "public-ssh-cidr"
              "allowed_ssh_cidrs must not include 0.0.0.0/0 or ::/0 unless --allow-public-ssh is passed"
              (add_if (is_open c.network.allowed_admin_cidrs) "error" "public-admin-cidr"
                "allowed_admin_cidrs must not include 0.0.0.0/0 or ::/0"
                (add_if (o.live && not o.allow_example_config && is_set v) "error" "example-config"
                  ("live installation refuses example address/domain value " <> v)
                  (add_if (not o.allow_example_config && is_example_cluster_name c.cluster.name)
                    "error" "example-cluster-name"
                    "cluster.name must not be example/demo for live installation"
                    (add_if (equal_fold c.ssh.user "root") "warning" "ssh-root"
                      "SSH user is root; prefer a named sudo-capable user for staging and production"
                      (add_if (production && not o.confirm_production) "error"
                        "production-confirmation-required"
                        "production environment requires --confirm-production"
                        (record { safe = true; findings = [] }))))))))))

error_parts : List Finding → List String
error_parts [] = []
error_parts (f ∷ fs) =
    let rest = error_parts fs in
    if f.severity == "error" then (f.code <> (": " <> f.message)) ∷ rest else rest

-- `Report.Error`
unfoldable pub error : Report → Option String
unfolding error_parts
error r = if r.safe then none else some (join "; " (error_parts r.findings))

-- `Errors`
unfoldable pub errors : Option Config → Options → Option String
errors c o = error (check c o)
