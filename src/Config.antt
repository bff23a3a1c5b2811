-- ===== src/Config.antt =====
-- The cluster configuration, internal/stackforge/config/config.go. Ports and intervals are not
-- negative here; the parts that no modelled code reads are kept.
pub mod Quorum
use Prim.Native.String.{◌++◌ as ◌<>◌}
use stack_forge.Base.{
  ℕ, ◌+◌, ◌%◌, String, Bool, true, false, not, ◌&&◌, ◌||◌, Option, none, some, List, [], ◌∷◌, ◌++◌,
  eqb, ltb, length, is_empty, if◌then◌else◌, ◌==◌, Result, ok, err, ◌>>=◌, ◌>>◌, fail_if,
}
use stack_forge.Text.{has_prefix, trim_prefix, is_one_of, is_set, quoted}
use stack_forge.Text.Number.{show}
use stack_forge.Net.{is_cidr}
use stack_forge.Paths.{join_path}
use stack_forge.Maps.{StringMap, lookup, insert, lookup_or}

pub record ClusterConfig : Type 0 where
  pub name : String
  pub environment : String
  pub datacenter : String

pub record SshConfig : Type 0 where
  pub user : String
  pub port : ℕ
  pub private_key_path : String
  pub copy_public_key : Bool

pub record NodeConfig : Type 0 where
  pub name : String
  pub address : String
  pub public_address : String
  pub roles : List String

pub record NetworkConfig : Type 0 where
  pub private_interface : String
  pub public_interface : String
  pub allowed_admin_cidrs : List String
  pub allowed_ssh_cidrs : List String
  pub allow_public_internal_communication : Bool

pub record ComponentConfig : Type 0 where
  pub version : String
  pub acl_enabled : Bool
  pub encrypt_gossip : Bool
  pub ui_enabled : Bool
  pub client_enabled : Bool

pub record TraefikConfig : Type 0 where
  pub version : String
  pub entrypoints : StringMap ℕ
  pub cert_resolver : String
  pub email : String
  pub dashboard_enabled : Bool
  pub dashboard_domain : String
  pub dashboard_basic_auth : Bool

pub record DatabaseConfig : Type 0 where
  pub engine : String
  pub mode : String
  pub backup_enabled : Bool
  pub backup_schedule : String

pub record ControlPlaneConfig : Type 0 where
  pub domain : String
  pub api_port : ℕ
  pub admin_api_keys : List String
  pub reconciler_enabled : Bool
  pub reconciler_interval_seconds : ℕ

pub record CloudflareConfig : Type 0 where
  pub api_token_env : String
  pub default_zone_id : String

pub record Config : Type 0 where
  pub cluster : ClusterConfig
  pub ssh : SshConfig
  pub nodes : List NodeConfig
  pub network : NetworkConfig
  pub consul : ComponentConfig
  pub nomad : ComponentConfig
  pub traefik : TraefikConfig
  pub database : DatabaseConfig
  pub control_plane : ControlPlaneConfig
  pub cloudflare : CloudflareConfig

abbrev pub or_default : String → String → String
or_default s d = if s == "" then d else s

abbrev pub or_port : ℕ → ℕ → ℕ
or_port n d = if eqb n 0 then d else n

-- `applyDefaults`
unfoldable pub apply_defaults : Config → Config
apply_defaults c = record c {
  cluster = record c.cluster {
    environment = or_default c.cluster.environment "production";
    datacenter = or_default c.cluster.datacenter "dc1";
  };
  ssh = record c.ssh { user = or_default c.ssh.user "root"; port = or_port c.ssh.port 22 };
  control_plane = record c.control_plane { api_port = or_port c.control_plane.api_port 8080 };
  database = record c.database { engine = or_default c.database.engine "postgres" };
  consul = record c.consul { version = or_default c.consul.version "latest-stable" };
  nomad = record c.nomad { version = or_default c.nomad.version "latest-stable" };
  traefik = record c.traefik { version = or_default c.traefik.version "latest-stable" };
}

-- `for _, r := range n.Roles { roles[r]++ }`
unfoldable pub add_roles : List String → StringMap ℕ → StringMap ℕ
add_roles [] m = m
add_roles (r ∷ rs) m = add_roles rs (insert r (lookup_or 0 r m + 1) m)

-- The loop of `Validate` over the nodes, which counts roles and refuses a node.
unfoldable pub tally : Bool → List NodeConfig → StringMap ℕ → Result (StringMap ℕ)
tally allow_public [] m = ok m
tally allow_public (n ∷ nodes) m =
    let rest = tally allow_public nodes (add_roles n.roles m) in
    if (n.name == "") || (n.address == "")
    then err "each node requires name and address"
    else if not allow_public && is_set n.public_address && (n.public_address == n.address)
    then err (
        "node "
        <> (n.name
            <> " uses public address for internal communication; set allow_public_internal_communication only when intentional"))
    else rest

-- The loop of `Validate` over the CIDRs.
unfoldable pub check_cidrs : List String → Result (Unit {0})
check_cidrs [] = ok tt
check_cidrs (cidr ∷ more) =
    let rest = check_cidrs more in
    if is_cidr cidr
    then rest
    else err ("invalid CIDR " <> (quoted cidr <> (": invalid CIDR address: " <> cidr)))

-- The tests of `Validate` on the counted roles.
unfoldable pub check_roles : Config → StringMap ℕ → Result (Unit {0})
check_roles c roles = do
  fail_if (not (c.database.engine == "sqlite") && eqb (lookup_or 0 "database" roles) 0)
      "at least one database node is required"
  fail_if (eqb (lookup_or 0 "control-plane" roles) 0) "at least one control-plane node is required"
  fail_if (eqb (lookup_or 0 "consul-server" roles % 2) 0) (
      "consul-server count should be odd for quorum, got "
      <> show (lookup_or 0 "consul-server" roles))
  fail_if (eqb (lookup_or 0 "nomad-server" roles % 2) 0) (
      "nomad-server count should be odd for quorum, got "
      <> show (lookup_or 0 "nomad-server" roles))

-- `Validate` of a configuration that is not nil
unfoldable pub validate : Config → Result (Unit {0})
validate c = do
  fail_if (c.cluster.name == "") "cluster.name is required"
  fail_if (is_empty c.nodes) "at least one node is required"
  fail_if (c.control_plane.domain == "") "control_plane.domain is required"
  fail_if (is_empty c.control_plane.admin_api_keys)
      "control_plane.admin_api_keys must contain at least one key or be generated by install"
  fail_if (not (is_one_of c.database.engine ("postgres" ∷ "mysql" ∷ "sqlite" ∷ [])))
      ("database.engine must be postgres, mysql, or sqlite, got " <> quoted c.database.engine)
  roles ← tally c.network.allow_public_internal_communication c.nodes []
  check_roles c roles
  fail_if (c.traefik.dashboard_enabled && not c.traefik.dashboard_basic_auth)
      "traefik dashboard requires basic auth when enabled"
  check_cidrs (c.network.allowed_admin_cidrs ++ c.network.allowed_ssh_cidrs)

-- `expandHome`, by the home directory
unfoldable pub expand_home : String → String → String
expand_home home path =
    if has_prefix path "~/" then join_path (home ∷ trim_prefix path "~/" ∷ []) else path

-- `StateDir`
unfoldable pub state_dir : String → String → String → String
state_dir home base cluster =
    let root = if base == "" then join_path (home ∷ ".stackforge" ∷ []) else base in
    join_path (expand_home home root ∷ cluster ∷ [])

module _ (Bytes : Type 0) (read : String → Result Bytes) (decode : Bytes → Result Config) where
  -- `Load`, by how the file is read and decoded
  unfoldable pub load : String → String → Result Config
  load home path = do b ← read (expand_home home path); c ← decode b; ok (apply_defaults c)
