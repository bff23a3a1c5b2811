-- ===== src/Backup/Guards.antt =====
-- When a restore reaches the nodes.
use stack_forge.Base.{
  String, ◌≡◌, ◌⊎◌, inl, inr, refl, Bool, true, false, not, ◌&&◌, none, [], ◌∷◌, arith, Bool-cases,
  Option-cases, Result-cases, ok,
}
use stack_forge.Paths.{join_path}
use stack_forge.Host.{Files}
use stack_forge.Backup.{Manifest, Machine, load_manifest, verify}
use stack_forge.Backup.Restore.{RestoreOptions, restore_intact, restore_with_detailed_options}

module _ (m : Machine) {S : Type 0} where
  -- The restore is confirmed, it is no dry run, and the backup is intact.
  pub record IsCleared (opts : RestoreOptions S) (files : Files String) : Type 0 where
    pub confirmed : opts.yes ≡ true
    pub live : opts.dry_run ≡ false
    pub manifest : Manifest
    pub loaded :
        load_manifest m
          (join_path (
            join_path (opts.state_dir ∷ "backups" ∷ opts.backup_id ∷ [])
            ∷ "backup-manifest.json"
            ∷ []))
          files
        ≡ ok manifest
    pub intact :
        verify m (join_path (opts.state_dir ∷ "backups" ∷ opts.backup_id ∷ [])) manifest files
        ≡ none

  restore_intact-dry :
      (dry : Bool) (opts : RestoreOptions S) (path : String) (man : Manifest) (files : Files String)
      (s : S)
      → dry ≡ true
      → (restore_intact m dry opts path man files s).0.1 ≡ s
  unfolding restore_intact
  restore_intact-dry true opts path man files s h = refl
  restore_intact-dry false opts path man files s h = cc

  -- A restore leaves the nodes as they are, unless it is confirmed and no dry run, its manifest can
  -- be loaded and the checksums of the backup are right.
  pub restore-IsGuarded :
      (opts : RestoreOptions S) (files : Files String) (s : S)
      → ((restore_with_detailed_options m opts files s).0.1 ≡ s) ⊎ IsCleared opts files
  unfolding restore_with_detailed_options
  restore-IsGuarded opts files s =
      let path = join_path (opts.state_dir ∷ "backups" ∷ opts.backup_id ∷ []) in
      elim (Bool-cases (not opts.yes && not opts.dry_run)) [
        | inl refused ↦ inl (rw (restore_with_detailed_options, refused) refl)
        | inr admitted ↦
            elim (Result-cases
              (load_manifest m (join_path (path ∷ "backup-manifest.json" ∷ [])) files)) [
                | inl (e, fault) ↦ inl (rw (restore_with_detailed_options, admitted, fault) refl)
                | inr (man, loaded) ↦ elim (Option-cases (verify m path man files)) [
                  | inr (e, bad) ↦
                      inl (rw (restore_with_detailed_options, admitted, loaded, bad) refl)
                  | inl intact ↦ elim (Bool-cases opts.dry_run) [
                    | inl dry ↦ inl (
                        rw (restore_with_detailed_options, admitted, loaded, intact)
                          (restore_intact-dry opts.dry_run opts path man files s dry))
                    | inr live ↦ inr (record {
                      confirmed = ground arith;
                      live = live;
                      manifest = man;
                      loaded = loaded;
                      intact = intact;
                    })
                  ]
                ]
              ]
      ]
