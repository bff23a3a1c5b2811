-- ===== src/Inventory.antt =====
-- The cluster inventory, internal/stackforge/inventory/inventory.go. A nil map and an empty one are
-- the same here. Times are seconds, with 0 for the zero time.
pub mod Warnings
pub mod Observe
pub mod Refresh
use stack_forge.Base.{
  ℕ, String, Bool, true, false, not, ◌||◌, Option, none, some, List, [], ◌∷◌, ◌++◌, any, eqb,
  if◌then◌else◌, ◌==◌, Result, ok, err, from_error,
}
use stack_forge.Text.{trim_space, has_suffix, contains}
use stack_forge.Maps.{StringMap}
use stack_forge.Host.{Codec, Host, Files, read_path, write_file}
use stack_forge.Paths.{dir}

pub record SshInfo : Type 0 where
  pub user : String
  pub port : ℕ
  pub private_key_path : String

pub record Node : Type 0 where
  pub name : String
  pub roles : List String
  pub private_ip : String
  pub public_ip : String
  pub ssh : SshInfo
  pub os_name : String
  pub os_version : String
  pub kernel : String
  pub observed_ips : List String
  pub components : StringMap String
  pub services : StringMap String
  pub leaders : StringMap String
  pub versions : StringMap String
  pub listening : List String
  pub firewall : String
  pub last_observed : ℕ
  pub warnings : List String
  pub endpoints : List String
  pub health_status : String

pub record Inventory : Type 0 where
  pub cluster_name : String
  pub environment : String
  pub datacenter : String
  pub nodes : List Node
  pub component_versions : StringMap String
  pub service_status : StringMap String
  pub consul_endpoints : List String
  pub nomad_endpoints : List String
  pub traefik_endpoints : List String
  pub database_endpoint : String
  pub control_plane_endpoint : String
  pub firewall_mode : String
  pub install_status : String
  pub last_successful_step : String
  pub failed_install_step : String
  pub last_backup_id : String
  pub last_restore_id : String
  pub last_health_check_status : String
  pub last_health_check_at : ℕ
  pub created_at : ℕ
  pub updated_at : ℕ
  pub warnings : List String

-- `isPersistentWarning`
unfoldable pub is_persistent_warning : String → Bool
is_persistent_warning w =
    if w == "EOF"
    then false
    else if has_suffix w "backup not executed; dry-run or no live executor configured"
    then false
    else if contains w "no live executor configured"
    then false
    else true

-- `appendWarning`
unfoldable pub append_warning : List String → String → List String
append_warning dst warning =
    let w = trim_space warning in
    if w == ""
    then dst
    else if not (is_persistent_warning w)
    then dst
    else if any (λ existing. existing == w) dst
    then dst
    else dst ++ (w ∷ [])

-- `appendWarnings`
unfoldable pub append_warnings : List String → List String → List String
append_warnings dst [] = dst
append_warnings dst (w ∷ ws) = append_warnings (append_warning dst w) ws

-- `dedupeWarnings`
unfoldable pub dedupe_warnings : List String → List String
dedupe_warnings ws = append_warnings [] ws

abbrev pub or_blank : String → String → String
or_blank s d = if trim_space s == "" then d else s

-- The body of the loop of `Normalize`.
unfoldable pub normalize_node : Node → Node
normalize_node n = record n {
  health_status = or_blank n.health_status "pending";
  warnings = dedupe_warnings n.warnings;
}

unfoldable pub normalize_nodes : List Node → List Node
normalize_nodes [] = []
normalize_nodes (n ∷ nodes) = normalize_node n ∷ normalize_nodes nodes

-- `Normalize`
unfoldable pub normalize : Inventory → Inventory
normalize inv = record inv {
  install_status = or_blank inv.install_status "pending";
  last_health_check_status = or_blank inv.last_health_check_status "pending";
  firewall_mode = or_blank inv.firewall_mode "ufw";
  warnings = dedupe_warnings inv.warnings;
  nodes = normalize_nodes inv.nodes;
}

-- `MarkStepSuccess`
unfoldable pub mark_step_success : String → Inventory → Inventory
mark_step_success step inv = record (normalize inv) {
  last_successful_step = step;
  failed_install_step = "";
  install_status = "installing";
}

-- `MarkStepFailure`
unfoldable pub mark_step_failure : String → String → Inventory → Inventory
mark_step_failure step warning inv = record (normalize inv) {
  failed_install_step = step;
  install_status = "failed";
  warnings = append_warning (normalize inv).warnings warning;
}

-- `MarkBackup`
unfoldable pub mark_backup : String → List String → Inventory → Inventory
mark_backup id ws inv = record (normalize inv) {
  last_backup_id = id;
  warnings = append_warnings (normalize inv).warnings ws;
}

-- `MarkRestore`
unfoldable pub mark_restore : String → List String → Inventory → Inventory
mark_restore id ws inv = record (normalize inv) {
  last_restore_id = id;
  warnings = append_warnings (normalize inv).warnings ws;
}

-- `MarkHealthCheck`, by the time of the call
unfoldable pub mark_health_check : ℕ → String → List String → Inventory → Inventory
mark_health_check now status ws inv = record (normalize inv) {
  last_health_check_status = status;
  last_health_check_at = now;
  warnings = append_warnings (normalize inv).warnings ws;
}

-- The inventory as `Save` writes it.
unfoldable pub stamped : ℕ → Inventory → Inventory
stamped now inv =
    let n = normalize inv in
    record n { created_at = if eqb n.created_at 0 then now else n.created_at; updated_at = now }

module _ (codec : Codec Inventory) (host : Host codec.Bytes) where
  -- `Load`
  unfoldable pub load : String → Files codec.Bytes → Result Inventory
  load path files = elim (read_path path files) [
    | none ↦ err "file does not exist"
    | some b ↦ elim (host.read_fault path) [ some e ↦ err e | none ↦ codec.decode b ]
  ]

  -- `Save`, with the inventory that the caller holds afterwards
  unfoldable pub save :
      String → Inventory → Files codec.Bytes → Files codec.Bytes × (Inventory × Result (Unit {0}))
  save path inv files =
      let out = stamped host.now inv in
      elim (host.mkdir_fault (dir path)) [
        | some e ↦ (files, (out, err e))
        | none ↦ elim (codec.encode out) [
          | err e ↦ (files, (out, err e))
          | ok b ↦
              let (files', fault) = write_file host path b files in
              (files', (out, from_error fault))
        ]
      ]
