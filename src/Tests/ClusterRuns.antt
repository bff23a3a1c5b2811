-- ===== src/Tests/ClusterRuns.antt =====
-- The configuration, its gates, the firewall plan, the inventory and rollback at concrete inputs.
use stack_forge.Base.{
  ◌⊎◌, ◌↔◌, ℕ, String, ◌≡◌, refl, true, false, none, some, List, [], ◌∷◌, inr, All, ok,
}
use stack_forge.Text.{texts}
use stack_forge.Net.{addresses}
use stack_forge.Maps.{lookup, insert}
use stack_forge.Config.{
  Config, NodeConfig, ComponentConfig, add_roles, tally, check_cidrs, check_roles, validate,
}
use stack_forge.Config.Quorum.{IsSound, validate-IsSound}
use stack_forge.Safety as Safety
use stack_forge.Safety.{Options, error}
use stack_forge.Firewall.{Plan, build_plan, plan_rules}
use stack_forge.Firewall as Firewall
use stack_forge.Firewall.Rules.{IsMeant}
use stack_forge.Firewall.Exposure.{IsPlannable, build_plan_iff, build_plan-IsMeant}
use stack_forge.Host.{Codec, Host, read_path, write_path}
use stack_forge.Paths.{clean, join_path}
use stack_forge.Rollback.{Record, Executor as RollbackExecutor, Applied, load, restore, apply}
use stack_forge.Rollback.Guards.{IsCleared, apply_cases}
use stack_forge.Inventory.{Inventory, Node, mark_step_failure}
use stack_forge.Inventory.Warnings.{IsClean, failure, mark-IsClean}
use stack_forge.Inventory.Observe.{Executor, refresh}
use stack_forge.Inventory.Refresh.{identities, refresh-keeps}

abbrev component : ComponentConfig
component = record {
  version = "";
  acl_enabled = true;
  encrypt_gossip = true;
  ui_enabled = true;
  client_enabled = true;
}

abbrev one_node : NodeConfig
one_node = record {
  name = "n1";
  address = "10.0.0.5";
  public_address = "";
  roles = "consul-server" ∷ "nomad-server" ∷ "control-plane" ∷ [];
}

abbrev pub small : Config
small = record {
  cluster = record { name = "prod-1"; environment = "staging"; datacenter = "dc1" };
  ssh = record { user = "ops"; port = 22; private_key_path = ""; copy_public_key = false };
  nodes = one_node ∷ [];
  network = record {
    private_interface = "eth1";
    public_interface = "eth0";
    allowed_admin_cidrs = "10.0.0.0/8" ∷ [];
    allowed_ssh_cidrs = "0.0.0.0/0" ∷ [];
    allow_public_internal_communication = false;
  };
  consul = component;
  nomad = component;
  traefik = record {
    version = "";
    entrypoints = [];
    cert_resolver = "";
    email = "";
    dashboard_enabled = true;
    dashboard_domain = "";
    dashboard_basic_auth = true;
  };
  database = record { engine = "sqlite"; mode = ""; backup_enabled = false; backup_schedule = "" };
  control_plane = record {
    domain = "api.acme.io";
    api_port = 8080;
    admin_api_keys = "k" ∷ [];
    reconciler_enabled = true;
    reconciler_interval_seconds = 300;
  };
  cloudflare = record { api_token_env = ""; default_zone_id = "" };
}

small-validate : validate small ≡ ok tt
unfolding texts addresses lookup insert add_roles tally check_cidrs check_roles validate
small-validate = refl

validate-IsSound_example : IsSound small
validate-IsSound_example = validate-IsSound small small-validate

abbrev allowing : Options
allowing = record {
  live = true;
  production = false;
  confirm_production = false;
  allow_example_config = false;
  allow_public_ssh = true;
}

small-IsPlannable : IsPlannable small true
unfolding Firewall.is_open
small-IsPlannable = record {
  ssh_given = refl;
  admin_given = refl;
  admin_closed = (refl, tt);
  ssh_closed = (inr refl, tt);
}

build_plan_iff_example : ((p : Plan) × (build_plan small true ≡ ok p)) ↔ IsPlannable small true
build_plan_iff_example = build_plan_iff small true

abbrev the_plan : Plan
the_plan = ((build_plan_iff small true).1 small-IsPlannable).0

build_plan-IsMeant_example : All (IsMeant true) the_plan.rules
build_plan-IsMeant_example =
    build_plan-IsMeant small true the_plan ((build_plan_iff small true).1 small-IsPlannable).1

abbrev seen : String → List String → Node
seen name warnings = record {
  name = name;
  roles = "traefik" ∷ [];
  private_ip = "10.0.0.5";
  public_ip = "";
  ssh = record { user = "ops"; port = 22; private_key_path = "" };
  os_name = "";
  os_version = "";
  kernel = "";
  observed_ips = [];
  components = [];
  services = [];
  leaders = [];
  versions = [];
  listening = [];
  firewall = "";
  last_observed = 0;
  warnings = warnings;
  endpoints = [];
  health_status = "";
}

abbrev pub stock : Inventory
stock = record {
  cluster_name = "prod-1";
  environment = "staging";
  datacenter = "dc1";
  nodes = seen "n1" (" late " ∷ "late" ∷ []) ∷ [];
  component_versions = [];
  service_status = [];
  consul_endpoints = [];
  nomad_endpoints = [];
  traefik_endpoints = [];
  database_endpoint = "";
  control_plane_endpoint = "";
  firewall_mode = "";
  install_status = "";
  last_successful_step = "";
  failed_install_step = "";
  last_backup_id = "";
  last_restore_id = "";
  last_health_check_status = "";
  last_health_check_at = 0;
  created_at = 0;
  updated_at = 0;
  warnings = "EOF" ∷ " disk " ∷ "disk" ∷ [];
}

mark-IsClean_example : IsClean (mark_step_failure "s1" " disk " stock).warnings
mark-IsClean_example = mark-IsClean (mark_step_failure "s1" " disk ") (failure "s1" " disk ") stock

-- An executor that counts its runs and reports an operating system.
abbrev reporting : Executor ℕ
reporting address n = (1, ("os_name=Debian", none))

refresh-keeps_example :
    (identities (refresh (some reporting) 9 stock 0).1.0.nodes ≡ identities stock.nodes)
    × IsClean (refresh (some reporting) 9 stock 0).1.0.warnings
refresh-keeps_example = refresh-keeps (some reporting) 9 stock 0

abbrev record_codec : Codec Record
record_codec = record { Bytes = Record; encode = λ r. ok r; decode = λ r. ok r }

abbrev calm : Host Record
calm = record {
  read_fault = λ p. none;
  mkdir_fault = λ p. none;
  write_fault = λ p b. none;
  torn = λ p b. none;
  append_fault = λ p. none;
  now = 100;
  random_id = λ n. "id";
  getenv = λ k. "";
}

abbrev undo : Record
undo = record {
  id = "rb1";
  node = "n1";
  node_address = "10.0.0.5";
  component = "nomad";
  changed_files = [];
  backup_files = [];
  restore_command = "systemctl restart nomad";
  manual_instructions = "";
  created_at = 1;
  reason = "";
  status = "available";
  safe_automatic = true;
}

-- An executor that keeps the commands it was sent.
abbrev logging : RollbackExecutor (List String)
logging node command sent = (command ∷ sent, ("", none))

abbrev recorded : List (String × Record)
recorded = ("/state/rollback/rb1.json", undo) ∷ []

abbrev rolled_back : (List (String × Record) × List String) × Applied
rolled_back = apply record_codec calm (λ t. "now") "/state" "rb1" true (some logging) recorded []

apply_cases_example :
    ((rolled_back.0 ≡ (recorded, [])) × ((e : String) × (rolled_back.1.error ≡ some e)))
    ⊎ ((r : Record) × ((run : RollbackExecutor (List String)) × (IsCleared record_codec calm
              (λ t. "now")
              "/state"
              "rb1"
              true
              (some logging)
              recorded
              []
              r
              run
            × (rolled_back.0.1 ≡ (run r.node_address r.restore_command []).0))))
apply_cases_example =
    apply_cases record_codec calm (λ t. "now") "/state" "rb1" true (some logging) recorded []

rolled_back_run : rolled_back.0.1 ≡ "systemctl restart nomad" ∷ []
unfolding texts clean join_path read_path write_path load restore apply
rolled_back_run = refl
