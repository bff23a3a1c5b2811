-- ===== src/Backup/Restore.antt =====
-- `RestoreWithDetailedOptions` of internal/stackforge/backup/backup.go.
use Prim.Native.String.{◌++◌ as ◌<>◌}
use stack_forge.Base.{
  String, Bool, true, false, not, ◌&&◌, ◌||◌, Option, none, some, List, [], ◌∷◌, ◌++◌, is_empty,
  if◌then◌else◌, ◌==◌, Result, ok, err,
}
use stack_forge.Text.{trim_space}
use stack_forge.Paths.{join_path, base, dir}
use stack_forge.Shell.{shell_quote}
use stack_forge.Host.{Files, read_path}
use stack_forge.Inventory.{mark_restore, stamped}
use stack_forge.Remote.{Executor, Command}
use stack_forge.Backup.{
  CommandPlan, Manifest, RestoreReport, Machine, build_restore_plans, read_file, write_file,
  load_manifest, verify,
}

pub record RestoreOptions (S : Type 0) : Type 0 where
  pub state_dir : String
  pub backup_id : String
  pub yes : Bool
  pub dry_run : Bool
  pub executor : Option (Executor S)

-- The file of a component in the backup
unfoldable pub payload_file : String → CommandPlan → String
payload_file path p =
    if not (p.output == "")
    then join_path (path ∷ base p.output ∷ [])
    else if p.component == "database"
    then join_path (path ∷ "database.dump" ∷ [])
    else if p.component == "consul"
    then join_path (path ∷ "consul.snapshot" ∷ [])
    else if p.component == "nomad"
    then join_path (path ∷ "nomad-jobs.json" ∷ [])
    else if p.component == "traefik"
    then join_path (path ∷ "traefik-config.tgz" ∷ [])
    else if p.component == "stackforge-config"
    then join_path (path ∷ "stackforge-config.tgz" ∷ [])
    else join_path (path ∷ base p.output ∷ [])

-- The command for a component, behind the one that writes the payload
unfoldable pub restore_command : String → String → Result String
restore_command component write =
    if component == "database"
    then ok (
        write
        <> " && sudo -u postgres pg_restore --clean --if-exists --dbname stackforge \"$tmp\" && rm -f \"$tmp\"")
    else if component == "consul"
    then ok (write <> " && consul snapshot restore \"$tmp\" && rm -f \"$tmp\"")
    else if component == "nomad"
    then ok (
        write
        <> " && jq -c '.' \"$tmp\" >/dev/null && echo 'Nomad restore requires operator review of exported job specs before nomad job run' >&2; exit 12")
    else if component == "traefik"
    then ok
        (write <> " && tar -C /etc -xzf \"$tmp\" && systemctl restart traefik && rm -f \"$tmp\"")
    else if component == "stackforge-config"
    then ok (
        write
        <> " && tar -C /etc -xzf \"$tmp\" && systemctl restart stackforge-control-plane && rm -f \"$tmp\"")
    else err ("unknown restore component " <> component)

abbrev pub skip_with_warning : String → String → RestoreReport → RestoreReport
skip_with_warning name text r = record r {
  skipped = r.skipped ++ (name ∷ []);
  warnings = r.warnings ++ (text ∷ []);
}

abbrev pub skip_with_error : String → String → RestoreReport → RestoreReport
skip_with_error name text r = record r {
  skipped = r.skipped ++ (name ∷ []);
  errors = r.errors ++ (text ∷ []);
}

abbrev pub add_restored : String → RestoreReport → RestoreReport
add_restored name r = record r { restored = r.restored ++ (name ∷ []) }

abbrev pub needs_executor : CommandPlan → String
needs_executor p = p.component <> " live restore command requires explicit remote executor context"

abbrev pub sent : String → Command
sent command = record { command = command; sudo = true; timeout = 600; secrets = [] }

module _ (m : Machine) where
  -- `restoreCommandWithPayload`
  unfoldable pub restore_command_with_payload : String → CommandPlan → Files String → Result String
  restore_command_with_payload path p files = elim (read_file m (payload_file path p) files) [
    | err e ↦ err e
    | ok text ↦
        restore_command p.component (
          "tmp=$(mktemp); printf %s " <> (shell_quote (m.base64 text) <> " | base64 -d > \"$tmp\""))
  ]

  -- The loop over the one file that is restored; what `copyIfExists` does with an empty manifest.
  unfoldable pub restore_inventory :
      String → String → Files String → RestoreReport → Files String × RestoreReport
  restore_inventory path state_dir files r =
      let src = join_path (path ∷ "inventory.yaml" ∷ []) in
      elim (read_path src files) [
        | none ↦ (files, skip_with_warning "inventory.yaml" "missing inventory.yaml" r)
        | some _ ↦ (
          elim (read_file m src files) [
            | err e ↦ files
            | ok text ↦ (write_file m (join_path (state_dir ∷ "inventory.yaml" ∷ [])) text files).0
          ],
          add_restored "inventory.yaml" r,
        )
      ]

  -- `writeRestoreReport`
  unfoldable pub write_restore_report : String → RestoreReport → Files String → Files String
  write_restore_report path r files =
      (write_file m (join_path (path ∷ "restore-report.json" ∷ [])) (m.encode_report r) files).0

  -- `updateInventoryRestore`
  unfoldable pub update_inventory_restore : String → RestoreReport → Files String → Files String
  update_inventory_restore state_dir r files =
      let path = join_path (state_dir ∷ "inventory.yaml" ∷ []) in
      elim (read_file m path files) [
        | err e ↦ files
        | ok text ↦ elim (m.decode_inventory text).1 [
          | some e ↦ files
          | none ↦
              let inv =
                stamped m.now (mark_restore r.backup_id r.warnings (m.decode_inventory text).0) in
              elim (m.mkdir_fault (dir path)) [
                | some e ↦ files
                | none ↦ elim (m.encode_inventory inv) [
                  | err e ↦ files
                  | ok encoded ↦ (write_file m path encoded files).0
                ]
              ]
        ]
      ]

  -- The report that a restore begins with
  unfoldable pub new_report : String → Bool → List CommandPlan → RestoreReport
  new_report id dry_run plans = record {
    backup_id = id;
    dry_run = dry_run;
    restored = [];
    skipped = [];
    warnings = [];
    completed_at = m.now;
    full_restore = false;
    planned_commands = plans;
    errors = [];
  }

  module _ {S : Type 0} where
    -- The body of the loop over the planned commands, with an executor
    unfoldable pub restore_one :
        String → Executor S → CommandPlan → Files String → S → RestoreReport → S × RestoreReport
    restore_one path run p files s r = elim (restore_command_with_payload path p files) [
      | err e ↦ (s, skip_with_error p.component e r)
      | ok command ↦
          let (s', (out, fault)) = run p.node (sent command) s in
          (
            s',
            elim fault [
              | none ↦ add_restored p.component r
              | some e ↦
                  skip_with_error p.component
                    (p.component <> (" restore failed: " <> (e <> (" " <> trim_space out.stderr))))
                    r
            ],
          )
    ]

    -- `opts.Executor == nil || p.Node == "" || p.Node == "unknown"`
    unfoldable pub no_target : Option (Executor S) → CommandPlan → Option (Executor S)
    no_target none p = none
    no_target (some run) p = if p.node == "" || p.node == "unknown" then none else some run

    -- The loop over the planned commands
    unfoldable pub restore_all :
        String
        → Option (Executor S)
        → List CommandPlan
        → Files String
        → S
        → RestoreReport
        → S × RestoreReport
    restore_all path exec [] files s r = (s, r)
    restore_all path exec (p ∷ plans) files s r = elim (no_target exec p) [
      | none ↦
          restore_all path exec plans files s (skip_with_warning p.component (needs_executor p) r)
      | some run ↦
          let (s', r') = restore_one path run p files s r in restore_all path exec plans files s' r'
    ]

    -- The restore itself, behind the tests
    unfoldable pub restore_live :
        RestoreOptions S
        → String
        → List CommandPlan
        → Files String
        → S
        → (Files String × S) × RestoreReport
    restore_live opts path plans files s =
        let (files1, r1) =
          restore_inventory path opts.state_dir files (new_report opts.backup_id false plans) in
        let (s', r2) = restore_all path opts.executor plans files1 s r1 in
        let r3 = record r2 {
          full_restore = is_empty r2.skipped && is_empty r2.warnings && is_empty r2.errors;
        } in
        ((update_inventory_restore opts.state_dir r3 (write_restore_report path r3 files1), s'), r3)

    -- A restore of an intact backup, by whether it is a dry run
    unfoldable pub restore_intact :
        Bool
        → RestoreOptions S
        → String
        → Manifest
        → Files String
        → S
        → (Files String × S) × Result RestoreReport
    restore_intact true opts path man files s =
        let r = record (new_report opts.backup_id true (build_restore_plans man.planned_commands)) {
          warnings = "dry-run restore: no files or remote services changed" ∷ [];
          skipped = man.components;
        } in
        ((write_restore_report path r files, s), ok r)
    restore_intact false opts path man files s =
        let (after, r) =
          restore_live opts path (build_restore_plans man.planned_commands) files s in
        (after, ok r)

    -- `RestoreWithDetailedOptions`
    unfoldable pub restore_with_detailed_options :
        RestoreOptions S → Files String → S → (Files String × S) × Result RestoreReport
    restore_with_detailed_options opts files s =
        let path = join_path (opts.state_dir ∷ "backups" ∷ opts.backup_id ∷ []) in
        if not opts.yes && not opts.dry_run
        then (
          (files, s),
          err (
              "restore is destructive; rerun with --yes after validating backup "
              <> opts.backup_id),
        )
        else elim (load_manifest m (join_path (path ∷ "backup-manifest.json" ∷ [])) files) [
          | err e ↦ ((files, s), err e)
          | ok man ↦ elim (verify m path man files) [
            | some e ↦ ((files, s), err e)
            | none ↦ restore_intact opts.dry_run opts path man files s
          ]
        ]
