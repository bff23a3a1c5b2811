-- ===== src/Install/Progress.antt =====
-- What one step of the installer does to the report, the nodes and the files.
use stack_forge.Base.{
  String, ◌≡◌, inl, inr, refl, Bool, true, false, Option, none, some, [], ◌∷◌, ◌++◌, Bool-cases,
  Option-cases, Result-cases,
}
use stack_forge.Maps.{StringMap, lookup}
use stack_forge.Inventory.{Inventory}
use stack_forge.Install.{
  Status, status_skipped, status_ok, status_failed, status_dry_run, Step, StepRecord, Report,
  Options, World, record_of, add_record, fail,
}
use stack_forge.Install.Run.{
  Progress, save_inventory, pass, give_up, verify_step, confirm, save_rollback, carry_out, attempt,
  run_step, is_done,
}

module _ {S : Type 0} (w : World S) (opts : Options S) where
  -- The report after a step that is done or that failed, by the error that is returned.
  abbrev pub Noted : Step S → Report → Option String → Report → Type 0
  Noted step r none r' =
      (done : StepRecord) × (done.id ≡ step.id)
      × (is_done done.status ≡ true)
      × (r'.steps ≡ r.steps ++ (done ∷ []))
      × (r'.failed_steps ≡ r.failed_steps)
  Noted step r (some e) r' =
      (last : StepRecord) × (last.id ≡ step.id)
      × (last.status ≡ status_failed)
      × (last.error ≡ e)
      × (r'.steps ≡ r.steps ++ (last ∷ []))
      × (r'.failed_steps ≡ r.failed_steps ++ (last ∷ []))

  abbrev NotedBy : Step S → Progress S → Progress S × Option String → Type 0
  NotedBy step p (p', fault) = Noted step p.report fault p'.report

  pass-Noted :
      (how : Status) (seen : Bool) (step : Step S) (p : Progress S)
      → is_done how ≡ true
      → Noted step p.report none (pass w opts how seen step p).report
  unfolding pass save_inventory add_record record_of
  pass-Noted how seen step p done =
      (record_of w.now (record step { status = how }), refl, done, refl, refl)

  give_up-Noted :
      (e : String) (step : Step S) (p : Progress S)
      → Noted step p.report (some e) (give_up w opts e step p).0.report
  unfolding give_up save_inventory add_record fail record_of
  give_up-Noted e step p = (
    record_of w.now (record step { status = status_failed; error = e }),
    refl,
    refl,
    refl,
    refl,
    refl,
  )

  confirm-Noted : (step : Step S) (p : Progress S) → NotedBy step p (confirm w opts step p)
  unfolding confirm is_done give_up
  confirm-Noted step p = elim (Option-cases (verify_step w opts step p.live).1) [
    | inl fine ↦ rw (confirm, fine) (pass-Noted status_skipped true step _ refl)
    | inr (e, fault) ↦ rw (confirm, fault) (give_up-Noted e step _)
  ]

  carry_out-Noted : (step : Step S) (p : Progress S) → NotedBy step p (carry_out w opts step p)
  unfolding carry_out is_done give_up
  carry_out-Noted step p =
      let applied = step.apply (save_rollback w opts step p.live) in
      elim (Option-cases applied.1) [
        | inr (e, fault) ↦ rw (carry_out, fault) (give_up-Noted e step _)
        | inl fine ↦ elim (Option-cases (verify_step w opts step applied.0).1) [
          | inr (e, fault) ↦ rw (carry_out, fine, fault) (give_up-Noted e step _)
          | inl right ↦ rw (carry_out, fine, right) (pass-Noted status_ok true step _ refl)
        ]
      ]

  attempt-Noted :
      (dry : Bool) (step : Step S) (p : Progress S) → NotedBy step p (attempt w opts dry step p)
  unfolding attempt is_done give_up
  attempt-Noted true step p = pass-Noted status_dry_run false step p refl
  attempt-Noted false step p = elim (Result-cases (step.check p.live).1) [
    | inl (e, fault) ↦ rw (attempt, fault) (give_up-Noted e step _)
    | inr (done, found) ↦ elim (Bool-cases done) [
      | inl finished ↦ rw (attempt, found, finished) (confirm-Noted step _)
      | inr work ↦ rw (attempt, found, work) (carry_out-Noted step _)
    ]
  ]

  pub run_step-Noted :
      (completed : StringMap Bool) (step : Step S) (p : Progress S)
      → NotedBy step p (run_step w opts completed step p)
  unfolding run_step is_done
  run_step-Noted completed step p = elim (Option-cases (lookup step.id completed)) [
    | inr (b, known) ↦ rw (run_step, known) (pass-Noted status_skipped false step p refl)
    | inl not_yet ↦ rw (run_step, not_yet) (attempt-Noted opts.dry_run step p)
  ]

  -- The nodes and files after writes of the inventory only
  pub data Writes : S → S → Type 0 where
    writes_nothing : (s : S) → Writes s s
    writes_one : (inv : Inventory) (s s' : S) → Writes (w.write_inventory inv s).0 s' → Writes s s'

  pub pass-Writes :
      (how : Status) (seen : Bool) (step : Step S) (p : Progress S)
      → Writes p.live.world (pass w opts how seen step p).live.world
  unfolding pass save_inventory
  pass-Writes how seen step p = writes_one _ _ _ (writes_nothing _)
