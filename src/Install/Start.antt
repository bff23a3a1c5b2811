-- ===== src/Install/Start.antt =====
-- `initialInventory` and `Run` of internal/stackforge/install/install.go.
use Prim.Native.String.{◌++◌ as ◌<>◌}
use stack_forge.Base.{
  ℕ, String, Bool, true, Option, none, some, List, [], ◌∷◌, ◌++◌, if◌then◌else◌, ◌==◌, Result, ok,
  err, ◌>>◌, from_error,
}
use stack_forge.Text.{equal_fold}
use stack_forge.Text.Number.{show}
use stack_forge.Config.{Config, NodeConfig, SshConfig}
use stack_forge.Config as Config
use stack_forge.Safety as Safety
use stack_forge.Inventory.{Inventory, Node, normalize, stamped}
use stack_forge.Inventory.Observe.{refresh}
use stack_forge.Inventory.Observe as Observe
use stack_forge.Secrets.{Secrets, load_or_generate}
use stack_forge.Install.{Report, Options, World, write_reports}
use stack_forge.Install.Steps.{plan}
use stack_forge.Install.Run.{Progress, run_steps, prior_steps}

-- `ObservationCommand` of internal/stackforge/inventory/observe.go
abbrev observation_command : String
observation_command =
    "set +e\necho \"os_name=$( . /etc/os-release 2>/dev/null; echo ${PRETTY_NAME:-unknown})\"\necho \"os_version=$( . /etc/os-release 2>/dev/null; echo ${VERSION_ID:-unknown})\"\necho \"kernel=$(uname -r 2>/dev/null || true)\"\necho \"observed_ips=$(hostname -I 2>/dev/null | tr ' ' ',' | sed 's/,$//')\"\necho \"firewall=$(if command -v ufw >/dev/null 2>&1 && ufw status 2>/dev/null | grep -q active; then echo ufw; elif command -v nft >/dev/null 2>&1 && nft list ruleset >/dev/null 2>&1; then echo nftables; else echo none; fi)\"\necho \"listening=$(ss -ltnupH 2>/dev/null | awk '{print $1 \"/\" $5}' | tr '\\n' ',' | sed 's/,$//')\"\necho \"consul_version=$(consul version 2>/dev/null | head -n1 | awk '{print $2}')\"\necho \"consul_service=$(systemctl is-active consul 2>/dev/null || true)\"\necho \"consul_leader=$(curl -fsS http://127.0.0.1:8500/v1/status/leader 2>/dev/null | tr -d '\"' || true)\"\necho \"consul_members=$(curl -fsS http://127.0.0.1:8500/v1/status/peers 2>/dev/null | tr -d '[]\" ' || true)\"\necho \"nomad_version=$(nomad version 2>/dev/null | head -n1 | awk '{print $2}')\"\necho \"nomad_service=$(systemctl is-active nomad 2>/dev/null || true)\"\necho \"nomad_leader=$(curl -fsS http://127.0.0.1:4646/v1/status/leader 2>/dev/null | tr -d '\"' || true)\"\necho \"nomad_nodes=$(curl -fsS http://127.0.0.1:4646/v1/nodes 2>/dev/null | jq -r 'length' 2>/dev/null || true)\"\necho \"traefik_version=$(traefik version 2>/dev/null | awk '/Version:/ {print $2; exit}')\"\necho \"traefik_service=$(systemctl is-active traefik 2>/dev/null || true)\"\necho \"postgres_version=$(sudo -u postgres psql -tAc 'SHOW server_version' 2>/dev/null | xargs || true)\"\necho \"postgres_service=$(systemctl is-active postgresql 2>/dev/null || true)\"\necho \"stackforge_service=$(systemctl is-active stackforge-control-plane 2>/dev/null || true)\"\necho \"stackforge_health=$(curl -fsS http://127.0.0.1:8080/health 2>/dev/null | tr -d '\\n' || true)\""

-- The node that `initialInventory` makes
unfoldable pub initial_node : SshConfig → NodeConfig → Node
initial_node ssh n = record {
  name = n.name;
  roles = n.roles;
  private_ip = n.address;
  public_ip = n.public_address;
  ssh = record { user = ssh.user; port = ssh.port; private_key_path = ssh.private_key_path };
  os_name = "";
  os_version = "";
  kernel = "";
  observed_ips = [];
  components = [];
  services = [];
  leaders = [];
  versions = [];
  listening = [];
  firewall = "";
  last_observed = 0;
  warnings = [];
  endpoints = [];
  health_status = "pending-install";
}

-- The body of the loop over the roles of `initialInventory`
unfoldable pub note_role : ℕ → NodeConfig → String → Inventory → Inventory
note_role api_port n role inv =
    if role == "consul-server"
    then record inv {
      consul_endpoints = inv.consul_endpoints ++ (("http://" <> (n.address <> ":8500")) ∷ []);
    }
    else if role == "nomad-server"
    then record inv {
      nomad_endpoints = inv.nomad_endpoints ++ (("http://" <> (n.address <> ":4646")) ∷ []);
    }
    else if role == "traefik"
    then record inv {
      traefik_endpoints = inv.traefik_endpoints ++ (("http://" <> n.public_address) ∷ []);
    }
    else if role == "database"
    then record inv { database_endpoint = n.address }
    else if role == "control-plane"
    then record inv { control_plane_endpoint = "http://" <> (n.address <> (":" <> show api_port)) }
    else inv

unfoldable pub note_roles : ℕ → NodeConfig → List String → Inventory → Inventory
note_roles api_port n [] inv = inv
note_roles api_port n (role ∷ roles) inv =
    note_roles api_port n roles (note_role api_port n role inv)

-- The loop over the nodes of `initialInventory`
unfoldable pub note_nodes : Config → List NodeConfig → Inventory → Inventory
note_nodes c [] inv = inv
note_nodes c (n ∷ nodes) inv = note_nodes c nodes (
    note_roles c.control_plane.api_port n n.roles
      (record inv { nodes = inv.nodes ++ (initial_node c.ssh n ∷ []) }))

-- `initialInventory`
unfoldable pub initial_inventory : Config → Inventory
initial_inventory c = note_nodes c c.nodes (record {
  cluster_name = c.cluster.name;
  environment = c.cluster.environment;
  datacenter = c.cluster.datacenter;
  nodes = [];
  component_versions = [];
  service_status = [];
  consul_endpoints = [];
  nomad_endpoints = [];
  traefik_endpoints = [];
  database_endpoint = "";
  control_plane_endpoint = "";
  firewall_mode = "ufw";
  install_status = "installing";
  last_successful_step = "";
  failed_install_step = "";
  last_backup_id = "";
  last_restore_id = "";
  last_health_check_status = "pending";
  last_health_check_at = 0;
  created_at = 0;
  updated_at = 0;
  warnings = [];
})

module _ {S : Type 0} (w : World S) (opts : Options S) where
  -- The tests of `Run` in front of the first change
  unfoldable pub admit : Result (Unit {0})
  admit = do
    Config.validate opts.config
    from_error (
        if opts.dry_run
        then none
        else Safety.errors (some opts.config) (record {
          live = true;
          production = equal_fold opts.config.cluster.environment "production";
          confirm_production = opts.confirm_production;
          allow_example_config = opts.allow_example_config;
          allow_public_ssh = opts.allow_public_ssh;
        }))

  -- The inventory that `Run` begins with
  unfoldable pub first_inventory : S → Inventory
  first_inventory s =
      if opts.resume
      then elim (w.load_inventory s) [
        | err e ↦ initial_inventory opts.config
        | ok existing ↦ record (normalize existing) { install_status = "installing" }
      ]
      else initial_inventory opts.config

  -- The executor as `inventory.Refresh` calls it
  unfoldable pub observer : Option (Observe.Executor S)
  observer = elim opts.executor [
    | none ↦ none
    | some run ↦ some (λ addr s.
        let (s', (out, fault)) =
          run addr
            (record { command = observation_command; sudo = true; timeout = 45; secrets = [] }) s in
        (s', (out.stdout, fault)))
  ]

  -- The end of `Run`, after the last step
  unfoldable pub finish : Progress S → S × Report
  finish p =
      let (s, (inv, warnings)) =
        refresh observer w.now (record p.inventory { install_status = "installed" }) p.live.world in
      let s' = (w.write_inventory (stamped w.now inv) s).0 in
      let report = record p.report { completed_at = w.now } in (write_reports w report s', report)

  -- `Run` from the plan on; the report comes with an error if a step failed.
  unfoldable pub carry_on : Secrets → Bool → Inventory → S → S × (Option Report × Option String)
  carry_on sec created inv s = elim (plan w opts sec) [
    | err e ↦ (s, (none, some e))
    | ok (steps, warnings) ↦
        let report : Report = record {
          cluster = opts.config.cluster.name;
          started_at = w.now;
          completed_at = 0;
          failed_steps = [];
          steps = [];
          suggested_recovery = [];
          warnings =
              if created
              then warnings ++ ("generated local secrets file; chmod 600 applied" ∷ [])
              else warnings;
        } in
        let p : Progress S = record {
          live = record { world = s; secrets = sec };
          inventory = inv;
          report = report;
        } in
        let (p', fault) = run_steps w opts (prior_steps w opts.resume s) steps p in
        elim fault [
          | some e ↦ (p'.live.world, (some p'.report, some e))
          | none ↦ let (s', done) = finish p' in (s', (some done, none))
        ]
  ]

  -- `Run`
  unfoldable pub run : S → S × (Option Report × Option String)
  run s = elim admit [
    | err e ↦ (s, (none, some e))
    | ok _ ↦
        let (s1, fault) = w.make_logs s in
        elim fault [
          | some e ↦ (s1, (none, some e))
          | none ↦
              let (s2, made) =
                load_or_generate w.vault opts.config.control_plane.admin_api_keys
                  opts.config.traefik.dashboard_enabled s1 in
              elim made [
                | err e ↦ (s2, (none, some e))
                | ok (sec, created) ↦
                    let inv = stamped w.now (first_inventory s2) in
                    let (s3, unsaved) = w.write_inventory inv s2 in
                    elim unsaved [
                      | some e ↦ (s3, (none, some e))
                      | none ↦ carry_on sec created inv s3
                    ]
              ]
        ]
  ]
