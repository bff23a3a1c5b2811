-- ===== src/Verification.antt =====
-- The verification of a running cluster, internal/stackforge/verify/verify.go.
pub mod Roles
pub mod Agreement
use Prim.Native.String.{◌++◌ as ◌<>◌}
use stack_forge.Base.{
  ℕ, String, Bool, true, false, ◌&&◌, ◌||◌, Option, none, some, List, [], ◌∷◌, ◌++◌, any, eqb,
  is_empty, if◌then◌else◌, ◌==◌, Result, ok, err,
}
use stack_forge.Text.{trim_space, to_lower, equal_fold, contains, join, is_set, is_one_of}
use stack_forge.Text.Number.{show_octal}
use stack_forge.Net.{parse_ip, in_block, dotted}
use stack_forge.Paths.{join_path}
use stack_forge.Maps.{StringMap, lookup_or}
use stack_forge.Host.{Files}
use stack_forge.Remote.{Executor, Output}
use stack_forge.Inventory.{Inventory, Node}
use stack_forge.Inventory.Observe.{parse_observation}
use stack_forge.Backup.{Machine}
use stack_forge.Backup.Run.{run_with_options}
use stack_forge.Maintenance.{build_plan}

pub record Check : Type 0 where
  pub node : String
  pub name : String
  pub status : String
  pub message : String

pub record Report : Type 0 where
  pub cluster : String
  pub safe : Bool
  pub checks : List Check
  pub errors : List String

-- The report as `Run` begins it
unfoldable pub new_report : String → Report
new_report cluster = record { cluster = cluster; safe = true; checks = []; errors = [] }

-- The closure `add` of `Run`
unfoldable pub add : String → String → String → String → Report → Report
add node name status message r = record r {
  checks =
      r.checks ++ (record { node = node; name = name; status = status; message = message } ∷ []);
  safe = if status == "fail" then false else r.safe;
  errors =
      if status == "fail"
      then r.errors ++ (trim_space (node <> (" " <> (name <> (": " <> message)))) ∷ [])
      else r.errors;
}

-- `expect`
unfoldable pub expect : String → String → Bool → String → Report → Report
expect node name b message r =
    if b then add node name "ok" message r else add node name "fail" message r

-- `isRFC1918`
unfoldable pub is_rfc1918 : String → Bool
is_rfc1918 addr = elim (parse_ip (trim_space addr)) [
  | none ↦ false
  | some ip ↦
      in_block (dotted 10 0 0 0) 8 ip
      || in_block (dotted 172 16 0 0) 12 ip
      || in_block (dotted 192 168 0 0) 16 ip
]

-- `orderedNodeAddressCandidates`
unfoldable pub ordered_node_address_candidates : Node → List String
ordered_node_address_candidates n =
    let private_ip = trim_space n.private_ip in
    let public_ip = trim_space n.public_ip in
    if is_set private_ip && is_set public_ip && is_rfc1918 private_ip
    then public_ip ∷ private_ip ∷ []
    else private_ip ∷ public_ip ∷ []

-- The loop of `nodeAddresses`, with the addresses that it has kept
unfoldable pub keep_addresses : List String → List String → List String
keep_addresses [] out = out
keep_addresses (a ∷ addresses) out =
    let addr = trim_space a in
    keep_addresses addresses
      (if (addr == "") || any (λ seen. seen == addr) out then out else out ++ (addr ∷ []))

-- `nodeAddresses`
unfoldable pub node_addresses : Node → List String
node_addresses n = keep_addresses (ordered_node_address_candidates n) []

-- `Command`
unfoldable pub command : String
command =
    "set +e\necho \"stackforge_service=$(systemctl is-active stackforge-control-plane 2>/dev/null || true)\"\necho \"stackforge_health=$(curl -fsS http://127.0.0.1:8080/health 2>/dev/null | tr -d '\\n' || true)\"\necho \"stackforge_api_code=$(curl -s -o /dev/null -w '%{http_code}' http://127.0.0.1:8080/api/v1/domains 2>/dev/null || true)\"\necho \"postgres_service=$(systemctl is-active postgresql 2>/dev/null || true)\"\necho \"postgres_query=$(sudo -u postgres psql -d stackforge -tAc 'SELECT 1' 2>/dev/null | xargs || true)\"\necho \"postgres_migrations=$(sudo -u postgres psql -d stackforge -tAc 'SELECT to_regclass($$public.domains$$) IS NOT NULL' 2>/dev/null | xargs || true)\"\necho \"postgres_public=$(ss -ltnH '( sport = :5432 )' 2>/dev/null | awk '{print $4}' | grep -Ev '^(127\\.0\\.0\\.1|\\[::1\\]|\\[::ffff:127\\.0\\.0\\.1\\]):5432$' >/dev/null && echo yes || echo no)\"\necho \"consul_service=$(systemctl is-active consul 2>/dev/null || true)\"\necho \"consul_leader=$(curl -fsS http://127.0.0.1:8500/v1/status/leader 2>/dev/null | tr -d '\"' || true)\"\necho \"consul_members=$(curl -fsS http://127.0.0.1:8500/v1/status/peers 2>/dev/null | tr -d '[]\" ' || true)\"\necho \"nomad_service=$(systemctl is-active nomad 2>/dev/null || true)\"\necho \"nomad_leader=$(curl -fsS http://127.0.0.1:4646/v1/status/leader 2>/dev/null | tr -d '\"' || true)\"\necho \"traefik_service=$(systemctl is-active traefik 2>/dev/null || true)\"\necho \"traefik_ports=$(ss -ltnH 2>/dev/null | awk '{print $4}' | tr '\\n' ',' || true)\"\necho \"firewall=$(if command -v ufw >/dev/null 2>&1 && ufw status 2>/dev/null | grep -q active; then echo ufw; else echo none; fi)\"\necho \"remote_env_mode=$(stat -c '%a' /etc/stackforge/stackforge.env 2>/dev/null || true)\""

-- `isHealthyValue`
unfoldable pub is_healthy_value : String → Bool
is_healthy_value given =
    let v = trim_space given in
    if equal_fold v "ok"
    then true
    else contains (to_lower v) "\"status\":\"ok\"" || contains (to_lower v) "'status':'ok'"

-- `hasRole`
unfoldable pub has_role : Node → String → Bool
has_role n role = is_one_of role n.roles

module _ (node : String) (facts : StringMap String) where
  -- `data[k]`
  abbrev value : String → String
  value k = lookup_or "" k facts

  -- The checks of `checkNode` for each role
  unfoldable pub check_control_plane : Report → Report
  check_control_plane r =
      let r1 =
        expect node "control-plane-service" (value "stackforge_service" == "active")
          (value "stackforge_service") r in
      let r2 =
        expect node "health" (is_healthy_value (value "stackforge_health"))
          (value "stackforge_health") r1 in
      let r3 =
        expect node "api-auth" (value "stackforge_api_code" == "401")
          ("HTTP " <> value "stackforge_api_code") r2 in
      expect node "remote-env-permissions" (value "remote_env_mode" == "600")
        ("mode " <> value "remote_env_mode") r3

  unfoldable pub check_database : Report → Report
  check_database r =
      let r1 =
        expect node "database-service" (value "postgres_service" == "active")
          (value "postgres_service") r in
      let r2 =
        expect node "database-reachable" (value "postgres_query" == "1") (value "postgres_query")
          r1 in
      let r3 =
        expect node "database-migrations"
          (value "postgres_migrations" == "t" || value "postgres_migrations" == "true")
          (value "postgres_migrations") r2 in
      expect node "database-not-public" (value "postgres_public" == "no") (value "postgres_public")
        r3

  unfoldable pub check_consul : Report → Report
  check_consul r =
      let r1 =
        expect node "consul-service" (value "consul_service" == "active") (value "consul_service")
          r in
      expect node "consul-members" (is_set (value "consul_members")) (value "consul_members") r1

  unfoldable pub check_nomad : Report → Report
  check_nomad r =
      let r1 =
        expect node "nomad-service" (value "nomad_service" == "active") (value "nomad_service") r in
      expect node "nomad-leader" (is_set (value "nomad_leader")) (value "nomad_leader") r1

  unfoldable pub check_traefik : Report → Report
  check_traefik r =
      let r1 =
        expect node "traefik-service" (value "traefik_service" == "active")
          (value "traefik_service") r in
      let ports = value "traefik_ports" in
      expect node "traefik-ports" (contains ports ":80" && contains ports ":443") ports r1

-- `checkNode`
unfoldable pub check_node : Node → StringMap String → Report → Report
check_node n facts r =
    let r1 = if has_role n "control-plane" then check_control_plane n.name facts r else r in
    let r2 = if has_role n "database" then check_database n.name facts r1 else r1 in
    let r3 = if has_role n "consul-server" then check_consul n.name facts r2 else r2 in
    let r4 = if has_role n "nomad-server" then check_nomad n.name facts r3 else r3 in
    let r5 = if has_role n "traefik" then check_traefik n.name facts r4 else r4 in
    expect n.name "firewall" (lookup_or "" "firewall" facts == "ufw")
      (lookup_or "" "firewall" facts) r5

abbrev no_output : Output
no_output = record { stdout = ""; stderr = ""; exit_code = 0 }

module _ {S : Type 0} (exec : Executor S) where
  -- The loop of `runNodeCommand`: the output, the address that answered, and the errors as a text.
  unfoldable pub run_addresses : List String → List String → S → S × (Output × (String × String))
  run_addresses [] errors s = (s, (no_output, ("", join "; " errors)))
  run_addresses (addr ∷ addresses) errors s =
      let (s', (res, fault)) =
        exec addr (record { command = command; sudo = true; timeout = 60; secrets = [] }) s in
      elim fault [
        | none ↦ (s', (res, (addr, "")))
        | some e ↦
            let msg =
              if is_set (trim_space res.stderr) then e <> (": " <> trim_space res.stderr) else e in
            run_addresses addresses (errors ++ ((addr <> (" -> " <> msg)) ∷ [])) s'
      ]

  -- `runNodeCommand`
  unfoldable pub run_node_command : Node → S → S × (Output × (String × String))
  run_node_command n s =
      if is_empty (node_addresses n)
      then (s, (no_output, ("", "node has no private or public address in inventory")))
      else run_addresses (node_addresses n) [] s

  -- The body of the loop of `Run` over the nodes
  unfoldable pub verify_node : Node → Output × (String × String) → Report → Report
  verify_node n (res, (address, text)) r =
      if is_set text
      then add n.name "ssh" "fail" text r
      else check_node n (parse_observation res.stdout)
          (add n.name "ssh" "ok" ("verified via " <> address) r)

  -- The loop
  unfoldable pub verify_nodes : List Node → S → Report → S × Report
  verify_nodes [] s r = (s, r)
  verify_nodes (n ∷ nodes) s r =
      let (s', answer) = run_node_command n s in verify_nodes nodes s' (verify_node n answer r)

-- `verifyLocalState`, by what `os.Stat` answers: the mode of a file
unfoldable pub verify_local_state :
    (String → Files String → Result ℕ) → String → Files String → Report → Report
verify_local_state stat state_dir files r =
    let path = join_path (state_dir ∷ "generated-secrets.yaml" ∷ []) in
    elim (stat path files) [
      | err e ↦ add "local" "generated-secrets-permissions" "fail" e r
      | ok mode ↦
          if eqb mode 384
          then add "local" "generated-secrets-permissions" "ok" (path <> " mode 600") r
          else add "local" "generated-secrets-permissions" "fail"
              (path <> (" mode is " <> (show_octal mode <> ", want 600"))) r
    ]

module _ (m : Machine) where
  -- The dry run of a backup, and of an uninstallation, at the end of `Run`
  unfoldable pub verify_plans : String → String → Files String → Report → Files String × Report
  verify_plans state_dir cluster files r =
      let ((files', _), made) =
        run_with_options m
          (record { state_dir = state_dir; cluster = cluster; dry_run = true; executor = none })
          files tt in
      let r1 : Report = elim made [
        | err e ↦ add "local" "backup-dry-run" "fail" e r
        | ok _ ↦ add "local" "backup-dry-run" "ok" "backup command can plan without live changes" r
      ] in
      (
        files',
        if is_empty (build_plan true).remove_services
            then add "local" "uninstall-dry-run" "fail" "uninstall plan is empty" r1
            else add "local" "uninstall-dry-run" "ok" "uninstall plan generated with preserve-data"
                r1,
      )

module _ {S : Type 0} (m : Machine) (stat : String → Files String → Result ℕ) where
  -- `Run`; the inventory and the executor may be nil.
  unfoldable pub run :
      String
      → Option Inventory
      → Option (Executor S)
      → Files String
      → S
      → (Files String × S) × Report
  run state_dir none exec files s =
      ((files, s), add "local" "inventory" "fail" "inventory is required" (new_report ""))
  run state_dir (some inv) none files s = (
    (files, s),
    add "local" "remote-executor" "fail" "verify requires live SSH access from inventory/config"
        (new_report inv.cluster_name),
  )
  run state_dir (some inv) (some exec) files s =
      let r = verify_local_state stat state_dir files (new_report inv.cluster_name) in
      let (s', r1) = verify_nodes exec inv.nodes s r in
      let (files', r2) = verify_plans m state_dir inv.cluster_name files r1 in ((files', s'), r2)
