-- ===== src/Install/Run.antt =====
-- `Run` of internal/stackforge/install/install.go.
use stack_forge.Base.{
  String, Bool, true, false, not, ◌&&◌, ◌||◌, Option, none, some, List, [], ◌∷◌, if◌then◌else◌,
  ◌==◌, ok, err,
}
use Prim.Native.String.{◌++◌ as ◌<>◌}
use stack_forge.Text.{is_set}
use stack_forge.Maps.{StringMap, insert, lookup}
use stack_forge.Config.{NodeConfig}
use stack_forge.Inventory.{
  Inventory, Node, normalize, stamped, mark_step_success, mark_step_failure,
}
use stack_forge.Rollback.{Record}
use stack_forge.Install.{
  Status, status_skipped, status_ok, status_failed, status_dry_run, Live, Step, StepRecord, Report,
  Options, World, add_record, fail, write_reports,
}

-- `nodeAddress`
unfoldable pub node_address : List NodeConfig → String → String
node_address [] name = ""
node_address (n ∷ nodes) name = if n.name == name then n.address else node_address nodes name

-- `rollbackCommandForStep`, by the role of the step
unfoldable pub rollback_command : String → String
rollback_command role =
    if role == "consul-server"
    then "set -e; latest=$(ls -1t /etc/consul.d.stackforge.*.tgz 2>/dev/null | head -n1); test -n \"$latest\"; tar -C /etc -xzf \"$latest\"; systemctl restart consul"
    else if role == "nomad-server" || role == "nomad-client"
    then "set -e; latest=$(ls -1t /etc/nomad.d.stackforge.*.tgz 2>/dev/null | head -n1); test -n \"$latest\"; tar -C /etc -xzf \"$latest\"; systemctl restart nomad"
    else if role == "traefik"
    then "set -e; latest=$(ls -1t /etc/traefik.stackforge.*.tgz 2>/dev/null | head -n1); test -n \"$latest\"; tar -C /etc -xzf \"$latest\"; systemctl restart traefik"
    else if role == "control-plane"
    then "set -e; latest=$(ls -1t /etc/stackforge.stackforge.*.tgz 2>/dev/null | head -n1); if [ -n \"$latest\" ]; then tar -C /etc -xzf \"$latest\"; fi; systemctl restart stackforge-control-plane"
    else ""

-- The part of a component that is installed, by the role of its step.
unfoldable pub component_of : String → Option String
component_of role =
    if role == "consul-server"
    then some "consul"
    else if role == "nomad-server" || role == "nomad-client"
    then some "nomad"
    else if role == "traefik"
    then some "traefik"
    else if role == "database"
    then some "postgres"
    else if role == "control-plane"
    then some "stackforge-control-plane"
    else none

-- `m[component] = "installed"`
unfoldable pub install_version : String → StringMap String → StringMap String
install_version role m = elim (component_of role) [ none ↦ m | some c ↦ insert c "installed" m ]

-- The node in the loop of `observeStep`
unfoldable pub observe_node : String → Node → Node
observe_node role n = record n {
  services = if is_set role then insert role "verified" n.services else n.services;
  components = install_version role n.components;
}

-- The loop of `observeStep`, with the two maps of the inventory
unfoldable pub observe_nodes :
    String
    → String
    → List Node
    → StringMap String
    → StringMap String
    → List Node × (StringMap String × StringMap String)
observe_nodes node role [] versions status = ([], (versions, status))
observe_nodes node role (n ∷ nodes) versions status =
    let here = n.name == node in
    let versions' = if here then install_version role versions else versions in
    let status' =
      if here && is_set role then insert (node <> ("/" <> role)) "verified" status else status in
    let (rest, maps) = observe_nodes node role nodes versions' status' in
    ((if here then observe_node role n else n) ∷ rest, maps)

-- `observeStep`
unfoldable pub observe_step : String → String → Inventory → Inventory
observe_step node role inv =
    let before = normalize inv in
    if is_set node && not (node == "local")
    then (let (nodes, (versions, status)) =
          observe_nodes node role before.nodes before.component_versions before.service_status in
        record before { nodes = nodes; component_versions = versions; service_status = status })
    else before

-- Where an installation stands: nodes, files and secrets, the inventory and the report.
pub record Progress (S : Type 0) : Type 0 where
  pub live : Live S
  pub inventory : Inventory
  pub report : Report

module _ {S : Type 0} (w : World S) (opts : Options S) where
  -- `_ = inventory.Save(…)`
  unfoldable pub save_inventory : Progress S → Progress S
  save_inventory p =
      let out = stamped w.now p.inventory in
      record p {
        inventory = out;
        live = record p.live { world = (w.write_inventory out p.live.world).0 };
      }

  -- The end of a step that is done: its status goes into the report and the inventory.
  unfoldable pub pass : Status → Bool → Step S → Progress S → Progress S
  pass status observed step p =
      let report = add_record w.now (record step { status = status }) p.report in
      let seen = if observed then observe_step step.node step.role p.inventory else p.inventory in
      save_inventory (record p { report = report; inventory = mark_step_success step.id seen })

  -- The end of a step that failed, and of the installation.
  unfoldable pub give_up : String → Step S → Progress S → Progress S × Option String
  give_up e step p =
      let failed = record step { status = status_failed; error = e } in
      let report = fail w.now failed (add_record w.now failed p.report) in
      let p' =
        save_inventory
          (record p { report = report; inventory = mark_step_failure step.id e p.inventory }) in
      (record p' { live = record p'.live { world = write_reports w report p'.live.world } }, some e)

  -- `step.Verify`, where the step has it
  unfoldable pub verify_step : Step S → Live S → Live S × Option String
  verify_step step live = elim step.verify [ none ↦ (live, none) | some verify ↦ verify live ]

  -- A step whose check finds it done: it is verified.
  unfoldable pub confirm : Step S → Progress S → Progress S × Option String
  confirm step p =
      let (live, fault) = verify_step step p.live in
      let p' = record p { live = live } in
      elim fault [ some e ↦ give_up e step p' | none ↦ (pass status_skipped true step p', none) ]

  -- The record that is saved before a step with a rollback is applied.
  unfoldable pub rollback_record : Step S → Record
  rollback_record step = record {
    id = step.rollback_id;
    node = step.node;
    node_address = node_address opts.config.nodes step.node;
    component = step.role;
    changed_files = step.changed_files;
    backup_files = step.backup_files;
    restore_command = rollback_command step.role;
    manual_instructions = step.rollback;
    created_at = w.now;
    reason = "pre-change backup before " <> step.name;
    status = "available";
    safe_automatic = not (step.role == "firewall") && not (step.role == "database");
  }

  -- `_ = rollback.Save(…)`, if the step has a rollback
  unfoldable pub save_rollback : Step S → Live S → Live S
  save_rollback step live =
      if is_set step.rollback_id
      then record live { world = (w.write_rollback (rollback_record step) live.world).0 }
      else live

  -- A step whose check finds work: it is applied and verified.
  unfoldable pub carry_out : Step S → Progress S → Progress S × Option String
  carry_out step p =
      let (live, fault) = step.apply (save_rollback step p.live) in
      let p1 = record p { live = live } in
      elim fault [
        | some e ↦ give_up e step p1
        | none ↦
            let (live', fault') = verify_step step live in
            let p2 = record p1 { live = live' } in
            elim fault' [
              | some e ↦ give_up e step p2
              | none ↦
                  let p3 = pass status_ok true step p2 in
                  (
                    record p3 {
                      live = record p3.live { world = write_reports w p3.report p3.live.world };
                    },
                    none,
                  )
            ]
      ]

  -- The body of the loop of `Run` for a step that is not completed, by whether it is a dry run.
  unfoldable pub attempt : Bool → Step S → Progress S → Progress S × Option String
  attempt true step p = (pass status_dry_run false step p, none)
  attempt false step p =
      let (live, found) = step.check p.live in
      let p' = record p { live = live } in
      elim found [
        | err e ↦ give_up e step p'
        | ok done ↦ if done then confirm step p' else carry_out step p'
      ]

  -- The body of the loop of `Run`; an error ends the loop.
  unfoldable pub run_step : StringMap Bool → Step S → Progress S → Progress S × Option String
  run_step completed step p = elim (lookup step.id completed) [
    | some _ ↦ (pass status_skipped false step p, none)
    | none ↦ attempt opts.dry_run step p
  ]

  -- The loop of `Run`
  unfoldable pub run_steps :
      StringMap Bool → List (Step S) → Progress S → Progress S × Option String
  run_steps completed [] p = (p, none)
  run_steps completed (step ∷ steps) p =
      let (p', fault) = run_step completed step p in
      elim fault [ some e ↦ (p', some e) | none ↦ run_steps completed steps p' ]

-- `s.Status == StatusOK || …`
unfoldable pub is_done : Status → Bool
is_done status_ok = true
is_done status_skipped = true
is_done status_dry_run = true
is_done _ = false

-- The steps that a prior report gives as completed
unfoldable pub completed_in : List StepRecord → StringMap Bool → StringMap Bool
completed_in [] m = m
completed_in (s ∷ steps) m = completed_in steps (if is_done s.status then insert s.id true m else m)

unfoldable pub prior_steps : {S : Type 0} → World S → Bool → S → StringMap Bool
prior_steps w resume s =
    if resume
    then elim (w.load_report s) [ err e ↦ [] | ok prior ↦ completed_in prior.steps [] ]
    else []
