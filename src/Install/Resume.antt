-- ===== src/Install/Resume.antt =====
-- Steps that the installer does not run: those of a dry run and those that a report gives as done.
use stack_forge.Base.{
  String, ◌≡◌, ◌⊎◌, inl, inr, refl, ap, ◌∙◌, Bool, true, false, Option, none, some, List, [], ◌∷◌,
  ◌++◌, Bool-cases, Option-cases, All,
}
use stack_forge.Maps.{StringMap, lookup, insert, lookup-insert_self, lookup-insert_ne, same_or_not}
use stack_forge.Install.{Status, status_dry_run, status_skipped, Step, StepRecord, Options, World}
use stack_forge.Install.Run.{
  Progress, save_inventory, pass, run_step, run_steps, attempt, is_done, completed_in,
}
use stack_forge.Install.Progress.{Writes, writes_nothing, writes_one, pass-Writes}
use stack_forge.Install.Outcome.{Ended, AllDone, record_ids, step_ids, run_steps-Ended}

-- The identifier is in the set.
abbrev pub IsKnown : StringMap Bool → String → Type 0
IsKnown m id = (b : Bool) × (lookup id m ≡ some b)

IsKnown-insert : (m : StringMap Bool) (id j : String) → IsKnown m id → IsKnown (insert j true m) id
IsKnown-insert m id j (b, known) = elim (same_or_not j id) [
  | inl same ↦ (true, rw (← same) (lookup-insert_self j true m))
  | inr other ↦ (b, lookup-insert_ne true m other ∙ known)
]

completed_in-keeps :
    (records : List StepRecord) (m : StringMap Bool) (id : String)
    → IsKnown m id
    → IsKnown (completed_in records m) id
unfolding completed_in
completed_in-keeps [] m id known = known
completed_in-keeps (r ∷ records) m id known = elim (Bool-cases (is_done r.status)) [
  | inl done ↦ rw done (completed_in-keeps records _ id (IsKnown-insert m id r.id known))
  | inr other ↦ rw other (completed_in-keeps records m id known)
]

-- Every done record is in the set of completed steps.
completed_in-IsKnown :
    (records : List StepRecord) (m : StringMap Bool)
    → AllDone records
    → All (IsKnown (completed_in records m)) (record_ids records)
unfolding completed_in
completed_in-IsKnown [] m done = tt
completed_in-IsKnown (r ∷ records) m (done, rest) = rw done (
  completed_in-keeps records _ r.id (true, lookup-insert_self r.id true m),
  completed_in-IsKnown records _ rest,
)

module _ {S : Type 0} (w : World S) (opts : Options S) where
  Writes-trans : (s s' s'' : S) → Writes w opts s s' → Writes w opts s' s'' → Writes w opts s s''
  Writes-trans s s' s'' (writes_nothing _) more = more
  Writes-trans s s' s'' (writes_one inv _ _ rest) more =
      writes_one inv s s'' (Writes-trans _ _ _ rest more)

  -- A part of an installation that runs no step: it writes the inventory only, and succeeds.
  abbrev pub IsQuiet : Progress S → Progress S × Option String → Type 0
  IsQuiet p (p', fault) =
      (fault ≡ none) × Writes w opts p.live.world p'.live.world × (p'.live.secrets ≡ p.live.secrets)

  pass-IsQuiet :
      (how : Status) (seen : Bool) (step : Step S) (p : Progress S)
      → IsQuiet p (pass w opts how seen step p, none)
  unfolding pass save_inventory
  pass-IsQuiet how seen step p = (refl, pass-Writes w opts how seen step p, refl)

  -- No step is run, because it is a dry run or because it is known.
  abbrev pub IsIdle : StringMap Bool → List (Step S) → Type 0
  IsIdle completed steps = (opts.dry_run ≡ true) ⊎ All (λ s. IsKnown completed s.id) steps

  attempt-IsQuiet :
      (dry : Bool) (step : Step S) (p : Progress S)
      → dry ≡ true
      → IsQuiet p (attempt w opts dry step p)
  unfolding attempt
  attempt-IsQuiet true step p h = pass-IsQuiet status_dry_run false step p
  attempt-IsQuiet false step p h = cc

  run_step-IsQuiet :
      (completed : StringMap Bool) (step : Step S) (p : Progress S)
      → (opts.dry_run ≡ true) ⊎ IsKnown completed step.id
      → IsQuiet p (run_step w opts completed step p)
  unfolding run_step
  run_step-IsQuiet completed step p (inr (b, known)) =
      rw (run_step, known) (pass-IsQuiet status_skipped false step p)
  run_step-IsQuiet completed step p (inl dry) = elim (Option-cases (lookup step.id completed)) [
    | inr (b, known) ↦ rw (run_step, known) (pass-IsQuiet status_skipped false step p)
    | inl not_yet ↦ rw (run_step, not_yet) (attempt-IsQuiet opts.dry_run step p dry)
  ]

  -- In a dry run, and where all steps are among the completed ones, the loop of `Run` succeeds
  -- without a check, an apply or a verification: the nodes and files change by writes of the
  -- inventory only, and the secrets stay.
  pub run_steps-IsQuiet :
      (completed : StringMap Bool) (steps : List (Step S)) (p : Progress S)
      → IsIdle completed steps
      → IsQuiet p (run_steps w opts completed steps p)
  unfolding run_steps
  run_steps-IsQuiet completed [] p idle = (refl, writes_nothing _, refl)
  run_steps-IsQuiet completed (step ∷ steps) p idle =
      let (p', fault) = run_step w opts completed step p in
      let (fine, wrote, kept) = run_step-IsQuiet completed step p (first_idle idle) in
      let (fine', wrote', kept') = run_steps-IsQuiet completed steps p' (rest_idle idle) in
      rw (run_steps, fine) (fine', Writes-trans _ _ _ wrote wrote', kept' ∙ kept)
    where
      first_idle :
          IsIdle completed (step ∷ steps) → (opts.dry_run ≡ true) ⊎ IsKnown completed step.id
      first_idle (inl dry) = inl dry
      first_idle (inr (known, rest)) = inr known

      rest_idle : IsIdle completed (step ∷ steps) → IsIdle completed steps
      rest_idle (inl dry) = inl dry
      rest_idle (inr (known, rest)) = inr rest

All-step_ids :
    {S : Type 0} (P : String → Type 0) (steps : List (Step S))
    → All P (step_ids steps)
    → All (λ s. P s.id) steps
All-step_ids P [] h = tt
All-step_ids P (step ∷ steps) (p, h) = (p, All-step_ids P steps h)

-- After a dry run of all steps whose report is read back, a run with resume finds every step of the
-- plan completed: whether it is a dry run or not, it runs none of them and still succeeds.
pub resume_of_dry_run-IsQuiet :
    {S : Type 0} (w : World S) (dry live : Options S) (steps : List (Step S)) (p q : Progress S)
    → dry.dry_run ≡ true
    → p.report.steps ≡ []
    → IsQuiet w live q
        (run_steps w live (completed_in (run_steps w dry [] steps p).0.report.steps []) steps q)
resume_of_dry_run-IsQuiet w dry live steps p q is_dry fresh =
    let (p', fault) = run_steps w dry [] steps p in
    let (fine, wrote, kept) = run_steps-IsQuiet w dry [] steps p (inl is_dry) in
    let ended : Ended w dry steps p.report fault p'.report = run_steps-Ended w dry [] steps p in
    let (new, grown, same, done, quiet) = rw fine at ended in
    let all : p'.report.steps ≡ new = grown ∙ ap (λ l. l ++ new) fresh in
    let known : All (IsKnown (completed_in new [])) (step_ids steps) =
      rw (← same) (completed_in-IsKnown new [] done) in
    run_steps-IsQuiet w live _ steps q (inr (rw all (All-step_ids _ steps known)))
