-- ===== src/Firewall.antt =====
-- The firewall plan, internal/stackforge/firewall/firewall.go.
pub mod Rules
pub mod Exposure
use Prim.Native.String.{◌++◌ as ◌<>◌}
use stack_forge.Base.{
  ℕ, String, Bool, true, false, not, ◌&&◌, ◌||◌, Option, none, some, List, [], ◌∷◌, ◌++◌, eqb, any,
  is_empty, from_error, if◌then◌else◌, ◌==◌, Result, ok, err, ◌>>=◌, ◌>>◌, fail_if,
}
use stack_forge.Text.{has_prefix, to_lower, contains, split, is_one_of}
use stack_forge.Text.Number.{show}
use stack_forge.Config.{Config, NodeConfig}

pub record Rule : Type 0 where
  pub port : ℕ
  pub protocol : String
  pub source : String
  pub purpose : String
  pub node : String
  pub role : String
  pub exposure : String

pub record Plan : Type 0 where
  pub mode : String
  pub rules : List Rule
  pub warnings : List String

-- `cidr == "0.0.0.0/0" || cidr == "::/0"`
unfoldable pub is_open : String → Bool
is_open cidr = is_one_of cidr ("0.0.0.0/0" ∷ "::/0" ∷ [])

-- `exposure`
unfoldable pub exposure : String → String
exposure cidr =
    if is_open cidr
    then "public"
    else if any (has_prefix cidr) (
        "10." ∷ "192.168." ∷ "172.16." ∷ "172.17." ∷ "172.18." ∷ "172.19." ∷ "172.2" ∷ "172.30."
        ∷ "172.31." ∷ [])
    then "private"
    else "restricted"

-- `databasePort`
unfoldable pub database_port : String → ℕ
database_port engine = if engine == "mysql" then 3306 else 5432

-- `privateSource`
unfoldable pub private_source : Config → String
private_source c = elim c.nodes [ n ∷ [] ↦ n.address <> "/32" | _ ↦ "10.0.0.0/8" ]

names : List NodeConfig → List String
names [] = []
names (n ∷ nodes) = n.name ∷ names nodes

-- The nodes that the plan is for.
unfoldable pub node_names : Config → List String
unfolding names
node_names c = if is_empty c.nodes then "all" ∷ [] else names c.nodes

-- `{Role: …, Port: …, Protocol: …, Source: …, Purpose: …, Exposure: …}`
abbrev pub rule : String → ℕ → String → String → String → String → Rule
rule role port protocol source purpose exposure = record {
  port = port;
  protocol = protocol;
  source = source;
  purpose = purpose;
  node = "";
  role = role;
  exposure = exposure;
}

-- `for _, node := range nodes { r.Node = node; p.Rules = append(p.Rules, r) }`
unfoldable pub on_nodes : List String → Rule → List Rule
on_nodes [] r = []
on_nodes (node ∷ nodes) r = record r { node = node } ∷ on_nodes nodes r

unfoldable pub on_nodes_each : List String → List Rule → List Rule
on_nodes_each nodes [] = []
on_nodes_each nodes (r ∷ rs) = on_nodes nodes r ++ on_nodes_each nodes rs

-- The loops of `BuildPlanWithOptions` that append rules.
unfoldable pub ssh_rules : ℕ → List String → List String → List Rule
ssh_rules port nodes [] = []
ssh_rules port nodes (cidr ∷ cidrs) =
    on_nodes nodes (rule "ssh" port "tcp" cidr "SSH" (exposure cidr)) ++ ssh_rules port nodes cidrs

unfoldable pub web_rules : List String → List Rule
web_rules [] = []
web_rules (node ∷ nodes) =
    record (rule "traefik" 80 "tcp" "0.0.0.0/0" "public HTTP" "public") { node = node }
    ∷ record (rule "traefik" 443 "tcp" "0.0.0.0/0" "public HTTPS" "public") { node = node }
    ∷ web_rules nodes

unfoldable pub admin_rules : ℕ → List String → List String → List Rule
admin_rules api_port nodes [] = []
admin_rules api_port nodes (cidr ∷ cidrs) =
    on_nodes_each nodes (
      rule "control-plane" api_port "tcp" cidr "StackForge API" (exposure cidr)
      ∷ rule "consul-server" 8500 "tcp" cidr "Consul HTTP/UI" (exposure cidr)
      ∷ rule "nomad-server" 4646 "tcp" cidr "Nomad HTTP/UI" (exposure cidr)
      ∷ [])
    ++ admin_rules api_port nodes cidrs

unfoldable pub internal_rules : String → String → List String → List Rule
internal_rules private engine nodes = on_nodes_each nodes (
    rule "consul-server" 8300 "tcp" private "Consul RPC" "private"
    ∷ rule "consul-server" 8301 "tcp/udp" private "Consul LAN gossip" "private"
    ∷ rule "consul-server" 8302 "tcp/udp" private "Consul WAN gossip" "private"
    ∷ rule "consul-server" 8600 "tcp/udp" private "Consul DNS" "private"
    ∷ rule "nomad-server" 4647 "tcp" private "Nomad RPC" "private"
    ∷ rule "nomad-server" 4648 "tcp/udp" private "Nomad Serf" "private"
    ∷ rule "database" (database_port engine) "tcp" private (engine <> " database private only")
        "private"
    ∷ [])

unfoldable pub dashboard_rules : List String → List String → List Rule
dashboard_rules nodes [] = []
dashboard_rules nodes (cidr ∷ cidrs) =
    on_nodes nodes (rule "traefik" 8080 "tcp" cidr "Traefik dashboard" (exposure cidr))
    ++ dashboard_rules nodes cidrs

-- The rules of `BuildPlanWithOptions`, in the order in which they are appended.
unfoldable pub plan_rules : Config → List Rule
plan_rules c =
    ssh_rules c.ssh.port (node_names c) c.network.allowed_ssh_cidrs
    ++ (web_rules (node_names c)
        ++ (admin_rules c.control_plane.api_port (node_names c) c.network.allowed_admin_cidrs
            ++ (internal_rules (private_source c) c.database.engine (node_names c)
                ++ (if c.traefik.dashboard_enabled
                    then dashboard_rules (node_names c) c.network.allowed_admin_cidrs
                    else []))))

-- `Validate`
unfoldable pub is_refused : Rule → Bool
is_refused r =
    is_open r.source
    && not (eqb r.port 80 || eqb r.port 443)
    && any (contains (to_lower r.purpose)) ("database" ∷ "nomad" ∷ "consul" ∷ "dashboard" ∷ [])

unfoldable pub validate : List Rule → Option String
validate [] = none
validate (r ∷ rs) =
    let rest = validate rs in
    if is_refused r
    then some ("refusing public exposure for " <> (r.purpose <> (" on port " <> show r.port)))
    else rest

-- The first of the two texts in a list of CIDRs.
unfoldable pub open_one : List String → Option String
open_one [] = none
open_one (cidr ∷ cidrs) = let rest = open_one cidrs in if is_open cidr then some cidr else rest

-- The loop that refuses the two texts.
unfoldable pub refuse_open : List String → String → String → Result (Unit {0})
refuse_open cidrs before after = elim (open_one cidrs) [
  | none ↦ ok tt
  | some cidr ↦ err (before <> (cidr <> after))
]

-- `BuildPlanWithOptions`; the options are `AllowPublicSSH`. A plan beside an error is not kept: the
-- callers drop it.
unfoldable pub build_plan : Config → Bool → Result Plan
build_plan c allow_public_ssh = do
  fail_if (is_empty c.network.allowed_ssh_cidrs)
      "allowed_ssh_cidrs is required; refusing to expose SSH broadly"
  fail_if (is_empty c.network.allowed_admin_cidrs)
      "allowed_admin_cidrs is required; refusing to expose admin APIs broadly"
  refuse_open c.network.allowed_admin_cidrs "allowed_admin_cidrs must not include " ""
  refuse_open (if allow_public_ssh then [] else c.network.allowed_ssh_cidrs)
      "allowed_ssh_cidrs contains " "; use --allow-public-ssh only after explicit review"
  from_error (validate (plan_rules c))
  ok (record { mode = "ufw"; rules = plan_rules c; warnings = [] })

-- One command for each protocol of a rule.
unfoldable pub allow_commands : Rule → List String → List String
allow_commands r [] = []
allow_commands r (proto ∷ protos) =
    ("ufw allow from "
      <> (r.source
          <> (" to any port "
              <> (show r.port
                  <> (" proto " <> (proto <> (" comment 'StackForge " <> (r.purpose <> "'"))))))))
    ∷ allow_commands r protos

unfoldable pub rule_commands : List Rule → List String
rule_commands [] = []
rule_commands (r ∷ rs) = allow_commands r (split "/" r.protocol) ++ rule_commands rs

-- `UFWCommands`
unfoldable pub ufw_commands : Plan → List String
ufw_commands p =
    "ufw --force reset"
    ∷ "ufw default deny incoming"
    ∷ "ufw default allow outgoing"
    ∷ (rule_commands p.rules ++ ("ufw --force enable" ∷ []))
