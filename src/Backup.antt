-- ===== src/Backup.antt =====
-- Backup and restore of a cluster, internal/stackforge/backup/backup.go: the manifest, the planned
-- commands, and the files of a backup. A text stands for the contents of a file.
pub mod Run
pub mod Restore
pub mod Checks
pub mod Guards
pub mod Accounts
use Prim.Native.String.{◌++◌ as ◌<>◌}
use stack_forge.Base.{
  ℕ, String, Bool, true, false, not, ◌&&◌, ◌||◌, Option, none, some, List, [], ◌∷◌, ◌++◌, map, any,
  is_empty, if◌then◌else◌, ◌==◌, Result, ok, err,
}
use stack_forge.Text.{trim_space, split, cut, join}
use stack_forge.Paths.{join_path, base}
use stack_forge.Maps.{StringMap, insert, lookup_or}
use stack_forge.Inventory.{Inventory, Node}
use stack_forge.Host.{Files, read_path, write_path}

pub record CommandPlan : Type 0 where
  pub component : String
  pub node : String
  pub command : String
  pub output : String

-- A nil list or map is an empty one here: no list is ever empty without being nil.
pub record Manifest : Type 0 where
  pub backup_id : String
  pub cluster_name : String
  pub timestamp : ℕ
  pub components : List String
  pub file_paths : StringMap String
  pub checksums : StringMap String
  pub warnings : List String
  pub errors : List String
  pub planned_commands : List CommandPlan
  pub created_by : String
  pub stack_forge_version : String

pub record RestoreReport : Type 0 where
  pub backup_id : String
  pub dry_run : Bool
  pub restored : List String
  pub skipped : List String
  pub warnings : List String
  pub completed_at : ℕ
  pub full_restore : Bool
  pub planned_commands : List CommandPlan
  pub errors : List String

-- The machine: faults of files, the clock, SHA-256 and base64, and the encodings. A decoder of the
-- inventory returns what it has beside its error.
pub record Machine : Type 0 where
  pub read_fault : String → Option String
  pub mkdir_fault : String → Option String
  pub write_fault : String → String → Option String
  -- What a failed write leaves in the file; `none` where it could not be opened
  pub torn : String → String → Option String
  pub now : ℕ
  pub format_time : ℕ → String
  pub digest : String → String
  pub base64 : String → String
  pub encode_manifest : Manifest → Result String
  pub decode_manifest : String → Result Manifest
  pub encode_report : RestoreReport → String
  pub decode_inventory : String → Inventory × Option String
  pub encode_inventory : Inventory → Result String

-- The address of the first node that has the role.
unfoldable pub node_for_role : List Node → String → String
node_for_role [] role = "unknown"
node_for_role (n ∷ nodes) role =
    if any (λ r. r == role) n.roles then n.private_ip else node_for_role nodes role

abbrev plan : String → String → String → String → CommandPlan
plan component node command output = record {
  component = component;
  node = node;
  command = command;
  output = output;
}

-- `BuildExportPlans`; the inventory may be nil.
unfoldable pub build_export_plans : Option Inventory → String → List CommandPlan
build_export_plans none path =
    plan "database" "unknown" "pg_dump --format=custom --file database.dump stackforge"
      (join_path (path ∷ "database.dump" ∷ []))
    ∷ plan "consul" "unknown" "consul snapshot save consul.snapshot"
        (join_path (path ∷ "consul.snapshot" ∷ []))
    ∷ plan "nomad" "unknown" "nomad job status -json && nomad job inspect -json"
        (join_path (path ∷ "nomad-jobs.json" ∷ []))
    ∷ plan "traefik" "unknown" "tar -C /etc -czf traefik-config.tgz traefik"
        (join_path (path ∷ "traefik-config.tgz" ∷ []))
    ∷ plan "stackforge-config" "unknown"
        "tar -C /etc -czf stackforge-config.tgz stackforge --exclude='*.env'"
        (join_path (path ∷ "stackforge-config.tgz" ∷ []))
    ∷ []
build_export_plans (some inv) path =
    plan "database" (node_for_role inv.nodes "database")
      "sudo -u postgres pg_dump --format=custom --file /tmp/stackforge-database.dump stackforge && cat /tmp/stackforge-database.dump"
      (join_path (path ∷ "database.dump" ∷ []))
    ∷ plan "consul" (node_for_role inv.nodes "consul-server")
        "consul snapshot save /tmp/stackforge-consul.snapshot && cat /tmp/stackforge-consul.snapshot"
        (join_path (path ∷ "consul.snapshot" ∷ []))
    ∷ plan "nomad" (node_for_role inv.nodes "nomad-server")
        "nomad job status -json | jq -r '.[].ID' | while read j; do nomad job inspect -json \"$j\"; done"
        (join_path (path ∷ "nomad-jobs.json" ∷ []))
    ∷ plan "traefik" (node_for_role inv.nodes "traefik") "tar -C /etc -czf - traefik 2>/dev/null"
        (join_path (path ∷ "traefik-config.tgz" ∷ []))
    ∷ plan "stackforge-config" (node_for_role inv.nodes "control-plane")
        "tar -C /etc -czf - stackforge --exclude='stackforge.env' 2>/dev/null"
        (join_path (path ∷ "stackforge-config.tgz" ∷ []))
    ∷ []

-- `nodeFor` of `BuildRestorePlans`
unfoldable pub node_for : List CommandPlan → String → String
node_for [] component = "unknown"
node_for (p ∷ plans) component =
    if p.component == component then p.node else node_for plans component

-- `BuildRestorePlans`, by the planned commands of the manifest
unfoldable pub build_restore_plans : List CommandPlan → List CommandPlan
build_restore_plans made =
    plan "database" (node_for made "database")
      "pg_restore --clean --if-exists --dbname stackforge database.dump" ""
    ∷ plan "consul" (node_for made "consul") "consul snapshot restore consul.snapshot" ""
    ∷ plan "nomad" (node_for made "nomad")
        "nomad job run restored job definitions from nomad-jobs.json" ""
    ∷ plan "traefik" (node_for made "traefik")
        "restore /etc/traefik from traefik-config.tgz and restart traefik" ""
    ∷ plan "stackforge-config" (node_for made "stackforge-config")
        "restore /etc/stackforge non-secret config and restart stackforge-control-plane" ""
    ∷ []

-- A line of a file of secrets, with the value behind the first colon hidden.
unfoldable pub redact_line : String → String
redact_line line = elim (cut ":" line) [
  | none ↦ line
  | some (key, value) ↦ if not (trim_space value == "") then key <> ": [REDACTED]" else line
]

unfoldable pub redact_text : String → String
redact_text text = join "\n" (map redact_line (split "\n" text))

module _ (m : Machine) where
  -- `os.ReadFile`
  unfoldable pub read_file : String → Files String → Result String
  read_file path files = elim (read_path path files) [
    | none ↦ err "file does not exist"
    | some text ↦ elim (m.read_fault path) [ some e ↦ err e | none ↦ ok text ]
  ]

  -- `os.WriteFile`
  unfoldable pub write_file : String → String → Files String → Files String × Option String
  write_file path text files = elim (m.write_fault path text) [
    | some e ↦
        (elim (m.torn path text) [ none ↦ files | some rest ↦ write_path path rest files ], some e)
    | none ↦ (write_path path text files, none)
  ]

  -- `checksum`
  unfoldable pub checksum : String → Files String → Result String
  checksum path files = elim (read_file path files) [ err e ↦ err e | ok text ↦ ok (m.digest text) ]

  -- `addFile`, for a manifest with both maps
  unfoldable pub add_file : String → Files String → Manifest → Manifest
  add_file path files man =
      let name = base path in
      record man {
        file_paths = insert name path man.file_paths;
        checksums = elim (checksum path files) [
          | err e ↦ man.checksums
          | ok sum ↦ insert name sum man.checksums
        ];
      }

  -- `inventory.Load` with the error dropped
  unfoldable pub any_inventory : String → Files String → Option Inventory
  any_inventory path files = elim (read_file path files) [
    | err e ↦ none
    | ok text ↦ some (m.decode_inventory text).0
  ]

  -- `LoadManifest`
  unfoldable pub load_manifest : String → Files String → Result Manifest
  load_manifest path files = elim (read_file path files) [
    | err e ↦ err e
    | ok text ↦ m.decode_manifest text
  ]

  -- `WriteManifest`
  unfoldable pub write_manifest : String → Manifest → Files String → Files String × Option String
  write_manifest path man files = elim (m.encode_manifest man) [
    | err e ↦ (files, some e)
    | ok text ↦ write_file (join_path (path ∷ "backup-manifest.json" ∷ [])) text files
  ]

  -- `Verify`. Go ranges over the map in no fixed order, so the first error may be another.
  unfoldable pub verify_sums :
      String → StringMap String → StringMap String → Files String → Option String
  verify_sums path paths [] files = none
  verify_sums path paths ((name, sum) ∷ sums) files =
      elim (checksum (join_path (path ∷ base (lookup_or "" name paths) ∷ [])) files) [
        | err e ↦ some e
        | ok got ↦
            if not (got == sum)
            then some ("checksum mismatch for " <> name)
            else verify_sums path paths sums files
      ]

  unfoldable pub verify : String → Manifest → Files String → Option String
  verify path man files = verify_sums path man.file_paths man.checksums files
