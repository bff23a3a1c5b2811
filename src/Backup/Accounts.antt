-- ===== src/Backup/Accounts.antt =====
-- What the report of a restore accounts for.
use stack_forge.Base.{
  ℕ, ◌+◌, String, ◌≡◌, ◌≢◌, ◌↔◌, inl, inr, refl, Bool, true, false, ◌&&◌, ◌||◌, Option, none, some,
  List, [], ◌∷◌, ◌++◌, is_empty, arith, Bool-cases, Option-cases, Result-cases, err, ok, ◌==◌,
  eq_iff, Extends, ◌&>◌,
}
use stack_forge.Text.{occurrences}
use stack_forge.Paths.{join_path}
use stack_forge.Host.{Files, read_path}
use stack_forge.Remote.{Executor}
use stack_forge.Backup.{CommandPlan, Machine, RestoreReport}
use stack_forge.Backup.Restore.{
  RestoreOptions, needs_executor, add_restored, skip_with_error, skip_with_warning, sent, no_target,
  restore_one, restore_all, restore_inventory, restore_live, new_report,
  restore_command_with_payload,
}

occurrences-snoc :
    (name : String) (xs : List String) (x : String)
    → occurrences name (xs ++ (x ∷ [])) ≡ occurrences name xs + occurrences name (x ∷ [])
occurrences-snoc name [] x = omega arith
occurrences-snoc name (y ∷ xs) x = omega (arith, occurrences-snoc name xs x)

-- How often a name stands in a report, as restored or as skipped.
abbrev pub told : String → RestoreReport → ℕ
told name r = occurrences name r.restored + occurrences name r.skipped

-- The names that a restore is about.
abbrev pub concerned : List CommandPlan → List String
concerned [] = []
concerned (p ∷ plans) = p.component ∷ concerned plans

restored-told :
    (name x : String) (r : RestoreReport)
    → told name (add_restored x r) ≡ told name r + occurrences name (x ∷ [])
restored-told name x r = omega (arith, occurrences-snoc name r.restored x)

skipped-told :
    (name x text : String) (r : RestoreReport)
    → told name (skip_with_error x text r) ≡ told name r + occurrences name (x ∷ [])
skipped-told name x text r = omega (arith, occurrences-snoc name r.skipped x)

-- The test for a full restore
abbrev is_clean : RestoreReport → Bool
is_clean r = is_empty r.skipped && is_empty r.warnings && is_empty r.errors

is_empty-snoc : (xs : List String) (x : String) → is_empty (xs ++ (x ∷ [])) ≡ false
is_empty-snoc [] x = refl
is_empty-snoc (y ∷ xs) x = refl

skipped-is_clean :
    (x text : String) (r : RestoreReport) → is_clean (skip_with_error x text r) ≡ false
skipped-is_clean x text r = rw (is_empty-snoc r.skipped x) refl

warned-is_clean :
    (x text : String) (r : RestoreReport) → is_clean (skip_with_warning x text r) ≡ false
warned-is_clean x text r = rw (is_empty-snoc r.skipped x) refl

not_both : {b : Bool} → b ≡ true → b ≡ false → ⊥
not_both h k = cc (h, k)

module _ (m : Machine) (path : String) where
  abbrev pub backed_inventory : Files String → Option String
  backed_inventory files = read_path (join_path (path ∷ "inventory.yaml" ∷ [])) files

  restore_inventory-told :
      (name state_dir : String) (files : Files String) (r : RestoreReport)
      → told name (restore_inventory m path state_dir files r).1
        ≡ told name r + occurrences name ("inventory.yaml" ∷ [])
  unfolding restore_inventory
  restore_inventory-told name state_dir files r = elim (Option-cases (backed_inventory files)) [
    | inl gone ↦
        rw (restore_inventory, gone)
          (omega (arith, occurrences-snoc name r.skipped "inventory.yaml"))
    | inr (text, there) ↦ rw (restore_inventory, there) (restored-told name "inventory.yaml" r)
  ]

  restore_inventory-Extends :
      (state_dir : String) (files : Files String) (r : RestoreReport)
      → Extends is_clean
          (backed_inventory files ≢ none)
          r
          (restore_inventory m path state_dir files r).1
  unfolding restore_inventory
  restore_inventory-Extends state_dir files r = elim (Option-cases (backed_inventory files)) [
    | inl gone ↦
        rw (restore_inventory, gone)
          (record {
            iff = (
              λ h. cc (h, warned-is_clean "inventory.yaml" "missing inventory.yaml" r),
              λ (there, h). absurd (there refl),
            );
          })
    | inr (text, there) ↦
        rw (restore_inventory, there) (record { iff = (λ h. (λ e. cc e, h), λ (e, h). h) })
  ]

  module _ {S : Type 0} (files : Files String) where
    -- Each component has a node and a command, and the executor ran the command on the node
    -- without an error, in the order of the plans.
    abbrev pub AreRestored : Option (Executor S) → List CommandPlan → S → Type 0
    AreRestored exec [] s = Unit
    AreRestored none (p ∷ plans) s = ⊥
    AreRestored (some run) (p ∷ plans) s =
        (p.node ≢ "") × (p.node ≢ "unknown") × elim (restore_command_with_payload m path p files) [
          | err e ↦ ⊥
          | ok command ↦
              ((run p.node (sent command) s).1.1 ≡ none)
              × AreRestored (some run) plans (run p.node (sent command) s).0
        ]

    restore_one-told :
        (name : String) (run : Executor S) (p : CommandPlan) (s : S) (r : RestoreReport)
        → told name (restore_one m path run p files s r).1
          ≡ told name r + occurrences name (p.component ∷ [])
    unfolding restore_one
    restore_one-told name run p s r =
        elim (Result-cases (restore_command_with_payload m path p files)) [
          | inl (e, fault) ↦ rw (restore_one, fault) (skipped-told name p.component e r)
          | inr (command, made) ↦ elim (Option-cases (run p.node (sent command) s).1.1) [
            | inl fine ↦ rw (restore_one, made, fine) (restored-told name p.component r)
            | inr (e, fault) ↦ rw (restore_one, made, fault) (skipped-told name p.component "" r)
          ]
        ]

    restore_all-told :
        (name : String) (exec : Option (Executor S)) (plans : List CommandPlan) (s : S)
        (r : RestoreReport)
        → told name (restore_all m path exec plans files s r).1
          ≡ told name r + occurrences name (concerned plans)
    unfolding restore_all
    restore_all-told name exec [] s r = omega arith
    restore_all-told name exec (p ∷ plans) s r = elim (Option-cases (no_target m exec p)) [
      | inl nowhere ↦
          let one : told name (skip_with_warning p.component (needs_executor p) r)
              ≡ told name r + occurrences name (p.component ∷ []) =
            skipped-told name p.component "" r in
          let rest =
            restore_all-told name exec plans s
              (skip_with_warning p.component (needs_executor p) r) in
          rw (restore_all, nowhere) (omega (arith, one, rest))
      | inr (run, there) ↦
          let (s', r') = restore_one m path run p files s r in
          let one : told name r' ≡ told name r + occurrences name (p.component ∷ []) =
            restore_one-told name run p s r in
          let rest = restore_all-told name exec plans s' r' in
          rw (restore_all, there) (omega (arith, one, rest))
    ]

    dirty-restore_one :
        (run : Executor S) (p : CommandPlan) (s : S) (r : RestoreReport)
        → is_clean r ≡ false
        → is_clean (restore_one m path run p files s r).1 ≡ false
    unfolding restore_one
    dirty-restore_one run p s r h =
        elim (Result-cases (restore_command_with_payload m path p files)) [
          | inl (e, fault) ↦ rw (restore_one, fault) (skipped-is_clean p.component e r)
          | inr (command, made) ↦ elim (Option-cases (run p.node (sent command) s).1.1) [
            | inl fine ↦ rw (restore_one, made, fine) h
            | inr (e, fault) ↦ rw (restore_one, made, fault) (skipped-is_clean p.component _ r)
          ]
        ]

    -- A component that was skipped is never forgotten.
    dirty-restore_all :
        (exec : Option (Executor S)) (plans : List CommandPlan) (s : S) (r : RestoreReport)
        → is_clean r ≡ false
        → is_clean (restore_all m path exec plans files s r).1 ≡ false
    unfolding restore_all
    dirty-restore_all exec [] s r h = h
    dirty-restore_all exec (p ∷ plans) s r h = elim (Option-cases (no_target m exec p)) [
      | inl nowhere ↦
          rw (restore_all, nowhere)
            (dirty-restore_all exec plans s _ (warned-is_clean p.component (needs_executor p) r))
      | inr (run, there) ↦
          rw (restore_all, there) (dirty-restore_all exec plans _ _ (dirty-restore_one run p s r h))
    ]

    restore_all-Extends :
        (exec : Option (Executor S)) (plans : List CommandPlan) (s : S) (r : RestoreReport)
        → Extends is_clean (AreRestored exec plans s) r (restore_all m path exec plans files s r).1
    unfolding restore_all no_target restore_one
    restore_all-Extends exec [] s r = record { iff = (λ h. (tt, h), λ (u, h). h) }
    restore_all-Extends none (p ∷ plans) s r = record {
      iff = (
        λ h. absurd (
            not_both h (
              dirty-restore_all none plans s _ (warned-is_clean p.component (needs_executor p) r))),
        λ (never, h). absurd never,
      );
    }
    restore_all-Extends (some run) (p ∷ plans) s r =
        elim (Bool-cases (p.node == "" || p.node == "unknown")) [
          | inl nowhere ↦
              rw (restore_all, no_target, nowhere)
                (record {
                  iff = (
                    λ h. absurd (
                        not_both h (
                          dirty-restore_all (some run) plans s _
                            (warned-is_clean p.component (needs_executor p) r))),
                    λ ((a, b, more), h).
                        absurd (
                          ground (arith, nowhere, eq_iff p.node "", eq_iff p.node "unknown", a, b)),
                  );
                })
          | inr somewhere ↦ elim (Result-cases (restore_command_with_payload m path p files)) [
            | inl (e, fault) ↦
                rw (restore_all, no_target, somewhere, restore_one, fault)
                  (record {
                    iff = (
                      λ h. absurd (
                          not_both h (
                            dirty-restore_all (some run) plans s _
                              (skipped-is_clean p.component e r))),
                      λ ((a, b, never), h). absurd never,
                    );
                  })
            | inr (command, made) ↦ elim (Option-cases (run p.node (sent command) s).1.1) [
              | inr (e, fault) ↦
                  rw (restore_all, no_target, somewhere, restore_one, made, fault)
                    (record {
                      iff = (
                        λ h. absurd (
                            not_both h (
                              dirty-restore_all (some run) plans _ _
                                (skipped-is_clean p.component _ r))),
                        λ ((a, b, (never, more)), h). cc never,
                      );
                    })
              | inl fine ↦
                  let rest =
                    restore_all-Extends (some run) plans (run p.node (sent command) s).0
                      (add_restored p.component r) in
                  rw (restore_all, no_target, somewhere, restore_one, made, fine)
                    (record {
                      iff = (
                        λ h.
                            let (k, before) = rest.iff.0 h in
                            (
                              (
                                λ e. ground (arith, somewhere, eq_iff p.node "", e),
                                λ e. ground (arith, somewhere, eq_iff p.node "unknown", e),
                                (refl, k),
                              ),
                              before,
                            ),
                        λ ((a, b, (sure, k)), h). rest.iff.1 (k, h),
                      );
                    })
            ]
          ]
        ]

  -- Each name is told once, and a full restore is one where an inventory is in the backup and every
  -- component was restored.
  abbrev pub IsAccounted :
      {S : Type 0} → RestoreOptions S → List CommandPlan → Files String → S → RestoreReport → Type 0
  IsAccounted opts plans files s r =
      ((name : String) → told name r ≡ occurrences name ("inventory.yaml" ∷ concerned plans))
      × ((r.full_restore ≡ true) ↔ (
          (backed_inventory files ≢ none)
          × AreRestored
              (restore_inventory m path opts.state_dir files
                (new_report m opts.backup_id false plans)).0
              opts.executor plans s))

  -- The report of a live restore names each component as often as the plans do, and the inventory
  -- once more, as restored or as skipped. It calls the restore full exactly if an inventory is in
  -- the backup and every component has a node and a command that the executor ran there, in the
  -- order of the plans, without an error. Whether the inventory could be copied is not covered.
  pub restore_live-IsAccounted :
      {S : Type 0} (opts : RestoreOptions S) (plans : List CommandPlan) (files : Files String)
      (s : S)
      → IsAccounted opts plans files s (restore_live m opts path plans files s).1
  unfolding restore_live new_report
  restore_live-IsAccounted opts plans files s =
      let r0 = new_report m opts.backup_id false plans in
      let (files1, r1) = restore_inventory m path opts.state_dir files r0 in
      let all =
        restore_inventory-Extends opts.state_dir files r0
        &> restore_all-Extends files1 opts.executor plans s r1 in
      (
        λ name.
            let first = restore_inventory-told name opts.state_dir files r0 in
            let rest = restore_all-told files1 name opts.executor plans s r1 in
            omega (arith, first, rest),
        (λ full. (all.iff.0 full).0, λ k. all.iff.1 (k, refl)),
      )
