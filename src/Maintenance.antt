-- ===== src/Maintenance.antt =====
-- Upgrade, removal and status of a cluster: internal/stackforge/upgrade/upgrade.go,
-- internal/stackforge/uninstall/uninstall.go and internal/stackforge/status/status.go. Files are
-- those of a backup.
use Prim.Native.String.{◌++◌ as ◌<>◌}
use stack_forge.Base.{
  String, Bool, false, not, Option, none, some, List, [], ◌∷◌, ◌++◌, if◌then◌else◌, ok, err,
}
use stack_forge.Paths.{join_path, dir}
use stack_forge.Host.{Files}
use stack_forge.Inventory.{Inventory, Node, stamped}
use stack_forge.Backup.{Machine, read_file, write_file}
use stack_forge.Backup.Run.{run_with_options}

-- `status.Report`
pub record Report : Type 0 where
  pub cluster : String
  pub install : String
  pub health : String
  pub nodes : List Node
  pub warnings : List String
  pub control_plane : String

-- `FromInventory`
unfoldable pub from_inventory : Inventory → Report
from_inventory inv = record {
  cluster = inv.cluster_name;
  install = inv.install_status;
  health = inv.last_health_check_status;
  nodes = inv.nodes;
  warnings = inv.warnings;
  control_plane = inv.control_plane_endpoint;
}

-- `upgrade.Options`
pub record UpgradeOptions : Type 0 where
  pub state_dir : String
  pub cluster : String
  pub dry_run : Bool
  pub skip_backup : Bool

abbrev upgrade_steps : List String
upgrade_steps =
    "check current versions" ∷ "validate target versions" ∷ "run pre-upgrade backup"
    ∷ "preserve previous configs" ∷ "upgrade stackforge-control-plane"
    ∷ "health check stackforge-control-plane" ∷ "upgrade traefik" ∷ "health check traefik"
    ∷ "upgrade consul" ∷ "health check consul" ∷ "upgrade nomad" ∷ "health check nomad"
    ∷ "print rollback path" ∷ []

module _ (m : Machine) where
  -- `inventory.Load`, a change, and `inventory.Save` with its error dropped
  unfoldable pub update_inventory : String → (Inventory → Inventory) → Files String → Files String
  update_inventory state_dir change files =
      let path = join_path (state_dir ∷ "inventory.yaml" ∷ []) in
      elim (read_file m path files) [
        | err e ↦ files
        | ok text ↦ elim (m.decode_inventory text).1 [
          | some e ↦ files
          | none ↦ elim (m.mkdir_fault (dir path)) [
            | some e ↦ files
            | none ↦
                elim (m.encode_inventory (stamped m.now (change (m.decode_inventory text).0))) [
                  | err e ↦ files
                  | ok encoded ↦ (write_file m path encoded files).0
                ]
          ]
        ]
      ]

  -- `markUpgradeFailure`
  unfoldable pub mark_upgrade_failure : String → String → Files String → Files String
  mark_upgrade_failure state_dir e files =
      update_inventory state_dir
        (λ inv. record inv {
          install_status = "upgrade-failed";
          failed_install_step = "upgrade";
          warnings = inv.warnings ++ (e ∷ []);
          updated_at = m.now;
        })
        files

  -- `addInventoryWarning`
  unfoldable pub add_inventory_warning : String → String → Files String → Files String
  add_inventory_warning state_dir warning files =
      update_inventory state_dir (λ inv. record inv { warnings = inv.warnings ++ (warning ∷ []) })
        files

  -- `upgrade.Run`: the steps, nil beside a failed backup, and an error. Its backup has no executor,
  -- so there is no state of nodes.
  unfoldable pub upgrade :
      UpgradeOptions → Files String → Files String × (List String × Option String)
  upgrade opts files =
      let refusal =
        "live upgrade requires explicit component target versions and reachable inventory; backup and refusal behavior are implemented, rollback path is latest backup under "
        <> join_path (opts.state_dir ∷ "backups" ∷ []) in
      let made : (Files String × Unit {0}) × Option String =
        if opts.skip_backup
        then (
          (
            add_inventory_warning opts.state_dir
                "upgrade ran with --skip-backup; rollback may be incomplete" files,
            tt,
          ),
          none,
        )
        else (let (after, r) =
              run_with_options m
                (record {
                  state_dir = opts.state_dir;
                  cluster = opts.cluster;
                  dry_run = false;
                  executor = none;
                })
                files tt in
            (after, elim r [ err e ↦ some e | ok man ↦ none ])) in
      if opts.dry_run then (files, (upgrade_steps, none)) else elim made.1 [
        | some e ↦ (
          mark_upgrade_failure opts.state_dir e made.0.0,
          ([], some ("pre-upgrade backup failed: " <> e)),
        )
        | none ↦
            (mark_upgrade_failure opts.state_dir refusal made.0.0, (upgrade_steps, some refusal))
      ]

  -- `uninstall.Run`
  unfoldable pub uninstall : String → Bool → Bool → Files String → Files String × Option String
  uninstall state_dir confirm preserve_data files =
      let marked =
        update_inventory state_dir
          (λ inv. record inv { install_status = "uninstalled"; updated_at = m.now }) files in
      if not confirm
      then (files, some "uninstall requires --confirm-destroy")
      else if not preserve_data
      then write_file m (join_path (state_dir ∷ "UNINSTALL_REQUIRES_REMOTE_DATA_WIPE" ∷ []))
          "Remote data wipe must be performed only after reviewing the uninstall plan.\n" marked
      else (marked, none)

-- `uninstall.Plan`
pub record Plan : Type 0 where
  pub remove_services : List String
  pub remove_packages : List String
  pub preserve_data : Bool

-- `uninstall.BuildPlan`
unfoldable pub build_plan : Bool → Plan
build_plan preserve_data = record {
  remove_services =
      "stackforge-control-plane.service" ∷ "stackforge-reconciler.service" ∷ "traefik" ∷ "nomad"
      ∷ "consul" ∷ [];
  remove_packages = "stackforge" ∷ "traefik" ∷ "nomad" ∷ "consul" ∷ [];
  preserve_data = preserve_data;
}
