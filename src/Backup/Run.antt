-- ===== src/Backup/Run.antt =====
-- `RunWithOptions` of internal/stackforge/backup/backup.go.
use Prim.Native.String.{◌++◌ as ◌<>◌}
use stack_forge.Base.{
  String, Bool, true, false, not, ◌||◌, Option, none, some, List, [], ◌∷◌, ◌++◌, is_empty,
  if◌then◌else◌, ◌==◌, Result, ok, err,
}
use stack_forge.Paths.{join_path, base, dir}
use stack_forge.Host.{Files}
use stack_forge.Inventory.{mark_backup, stamped}
use stack_forge.Remote.{Executor}
use stack_forge.Backup.{
  CommandPlan, Manifest, Machine, build_export_plans, redact_text, read_file, write_file, add_file,
  any_inventory, write_manifest,
}

pub record Options (S : Type 0) : Type 0 where
  pub state_dir : String
  pub cluster : String
  pub dry_run : Bool
  pub executor : Option (Executor S)

-- Files, the state of the nodes, and the manifest under construction.
abbrev pub Work : Type 0 → Type 0
Work S = Files String × (S × Manifest)

-- `if m.Warnings != nil { … }`: while there is no warning, the list is nil.
abbrev pub warn_if_set : String → Manifest → Manifest
warn_if_set text man =
    if is_empty man.warnings then man else record man { warnings = man.warnings ++ (text ∷ []) }

module _ (m : Machine) where
  -- `copyIfExists` for the manifest of a backup. A fault in the middle of a copy is not modelled.
  unfoldable pub copy_if_exists :
      String → String → Files String → Manifest → Files String × Manifest
  copy_if_exists src dst files man = elim (read_file m src files) [
    | err _ ↦ (files, warn_if_set ("missing " <> base src) man)
    | ok text ↦
        let (files', fault) = write_file m dst text files in
        (
          files',
          elim fault [
            | some e ↦
                if is_empty man.errors then man else record man { errors = man.errors ++ (e ∷ []) }
            | none ↦ add_file m dst files' man
          ],
        )
  ]

  -- `copyRedactedIfExists`
  unfoldable pub copy_redacted_if_exists :
      String → String → Files String → Manifest → Files String × Manifest
  copy_redacted_if_exists src dst files man = elim (read_file m src files) [
    | err _ ↦ (files, warn_if_set ("missing " <> base src) man)
    | ok text ↦
        let (files', fault) = write_file m dst (redact_text text) files in
        (
          files',
          elim fault [
            | some e ↦ record man { errors = man.errors ++ (e ∷ []) }
            | none ↦ add_file m dst files' man
          ],
        )
  ]

  -- `writeMarker`
  unfoldable pub write_marker : String → String → Files String → Manifest → Files String × Manifest
  write_marker path text files man =
      let files' = (write_file m path text files).0 in (files', add_file m path files' man)

  -- The first manifest of `RunWithOptions`
  unfoldable pub new_manifest : String → String → Manifest
  new_manifest id cluster = record {
    backup_id = id;
    cluster_name = cluster;
    timestamp = m.now;
    components =
        "database" ∷ "consul" ∷ "nomad" ∷ "traefik" ∷ "stackforge-config" ∷ "inventory" ∷ [];
    file_paths = [];
    checksums = [];
    warnings = [];
    errors = [];
    planned_commands = [];
    created_by = "stackforge";
    stack_forge_version = "dev";
  }

  -- The loop of a backup that executes nothing
  unfoldable pub plan_only :
      String → List CommandPlan → Files String → Manifest → Files String × Manifest
  plan_only path [] files man = (files, man)
  plan_only path (p ∷ plans) files man =
      let warned = record man {
        warnings =
            man.warnings
            ++ ((p.component <> " backup not executed; dry-run or no live executor configured")
                ∷ []);
      } in
      let (files', man') =
        write_marker (join_path (path ∷ base p.output ∷ []))
          ("planned command: " <> (p.command <> "\n")) files warned in
      plan_only path plans files' man'

  -- `updateInventoryBackup`
  unfoldable pub update_inventory_backup : String → Manifest → Files String → Files String
  update_inventory_backup state_dir man files =
      let path = join_path (state_dir ∷ "inventory.yaml" ∷ []) in
      elim (read_file m path files) [
        | err e ↦ files
        | ok text ↦ elim (m.decode_inventory text).1 [
          | some e ↦ files
          | none ↦
              let inv =
                stamped m.now
                  (mark_backup man.backup_id man.warnings (m.decode_inventory text).0) in
              elim (m.mkdir_fault (dir path)) [
                | some e ↦ files
                | none ↦ elim (m.encode_inventory inv) [
                  | err e ↦ files
                  | ok encoded ↦ (write_file m path encoded files).0
                ]
              ]
        ]
      ]

  module _ {S : Type 0} where
    -- `runExport`
    unfoldable pub run_export :
        Executor S → CommandPlan → Files String → S → (Files String × S) × Option String
    run_export run p files s =
        if p.node == "" || p.node == "unknown"
        then ((files, s), some (p.component <> " backup skipped: no inventory node found"))
        else (let (s', (out, fault)) =
              run p.node (record { command = p.command; sudo = true; timeout = 600; secrets = [] })
                s in
            elim fault [
              | some e ↦ ((files, s'), some (p.component <> (" backup failed: " <> e)))
              | none ↦
                  let (files', unwritten) = write_file m p.output out.stdout files in
                  ((files', s'), unwritten)
            ])

    -- The loop of a backup that executes its plans
    unfoldable pub export_all : String → Executor S → List CommandPlan → Work S → Work S
    export_all path run [] work = work
    export_all path run (p ∷ plans) (files, (s, man)) =
        let ((files', s'), fault) = run_export run p files s in
        let place = join_path (path ∷ base p.output ∷ []) in
        let (files'', man'') : Files String × Manifest = elim fault [
          | none ↦ (files', add_file m place files' man)
          | some e ↦
              write_marker place (e <> "\n") files'
                (record man { warnings = man.warnings ++ (e ∷ []) })
        ] in
        export_all path run plans (files'', (s', man''))

    -- The export of `RunWithOptions`, with or without an executor
    unfoldable pub export : Bool → Option (Executor S) → String → List CommandPlan → Work S → Work S
    export true exec path plans (files, (s, man)) =
        let (files', man') = plan_only path plans files man in (files', (s, man'))
    export false none path plans (files, (s, man)) =
        let (files', man') = plan_only path plans files man in (files', (s, man'))
    export false (some run) path plans work = export_all path run plans work

    -- `!opts.DryRun && opts.Executor != nil`
    abbrev pub is_live : Options S → Bool
    is_live opts = elim opts.executor [ none ↦ false | some run ↦ not opts.dry_run ]

    -- `RunWithOptions`
    unfoldable pub run_with_options :
        Options S → Files String → S → (Files String × S) × Result Manifest
    run_with_options opts files s =
        let id = m.format_time m.now in
        let path = join_path (opts.state_dir ∷ "backups" ∷ id ∷ []) in
        let inventory_path = join_path (opts.state_dir ∷ "inventory.yaml" ∷ []) in
        elim (m.mkdir_fault path) [
          | some e ↦ ((files, s), err e)
          | none ↦
              let (files1, man1) =
                copy_if_exists inventory_path (join_path (path ∷ "inventory.yaml" ∷ [])) files
                  (new_manifest id opts.cluster) in
              let (files2, man2) =
                copy_redacted_if_exists (join_path (opts.state_dir ∷ "generated-secrets.yaml" ∷ []))
                  (join_path (path ∷ "generated-secrets.redacted.yaml" ∷ [])) files1 man1 in
              let plans = build_export_plans (any_inventory m inventory_path files2) path in
              let (files3, (s', man3)) =
                export opts.dry_run opts.executor path plans
                  (files2, (s, record man2 { planned_commands = plans })) in
              let (files4, fault) = write_manifest m path man3 files3 in
              elim fault [
                | some e ↦ ((files4, s'), err e)
                | none ↦ (
                  (
                    if is_live opts
                        then update_inventory_backup opts.state_dir man3 files4
                        else files4,
                    s',
                  ),
                  ok man3,
                )
              ]
        ]
