-- ===== src/Install/Outcome.antt =====
-- What the loop over the steps of an installation does.
use stack_forge.Base.{
  String, ◌≡◌, inl, inr, refl, sym, ap, ◌∙◌, Bool, true, Option, none, some, List, [], ◌∷◌, ◌++◌,
  map, append_assoc, append-nil, Option-cases, All,
}
use stack_forge.Maps.{StringMap}
use stack_forge.Install.{status_failed, Step, StepRecord, Report, Options, World}
use stack_forge.Install.Run.{Progress, run_step, run_steps, is_done}
use stack_forge.Install.Progress.{run_step-Noted, Noted}

module _ {S : Type 0} where
  abbrev pub step_ids : List (Step S) → List String
  step_ids steps = map (λ s. s.id) steps

abbrev pub record_ids : List StepRecord → List String
record_ids records = map (λ r. r.id) records

abbrev pub AllDone : List StepRecord → Type 0
AllDone records = All (λ r. is_done r.status ≡ true) records

module _ {S : Type 0} (w : World S) (opts : Options S) where
  -- The report at the end of the loop. Without an error it has a record for each step, in order and
  -- all done; with one it has those of the steps up to the failed one, which stands last.
  abbrev pub Ended : List (Step S) → Report → Option String → Report → Type 0
  Ended steps r none r' =
      (new : List StepRecord) × (r'.steps ≡ r.steps ++ new)
      × (record_ids new ≡ step_ids steps)
      × AllDone new
      × (r'.failed_steps ≡ r.failed_steps)
  Ended steps r (some e) r' =
      (new : List StepRecord) × (last : StepRecord) × (left : List String) × (r'.steps
        ≡ r.steps ++ (new ++ (last ∷ [])))
      × (step_ids steps ≡ record_ids new ++ (last.id ∷ left))
      × AllDone new
      × (last.status ≡ status_failed)
      × (last.error ≡ e)
      × (r'.failed_steps ≡ r.failed_steps ++ (last ∷ []))

  Ended-cons :
      (step : Step S) (steps : List (Step S)) (r r1 r2 : Report) (fault : Option String)
      → Noted w opts step r none r1
      → Ended steps r1 fault r2
      → Ended (step ∷ steps) r fault r2
  Ended-cons step steps r r1 r2 none (one, known, done, grown, kept)
        (new, more, same, all_done, quiet) =
      (
        one ∷ new,
        more ∙ ap (λ l. l ++ new) grown ∙ append_assoc r.steps (one ∷ []) new,
        cc (known, same),
        (done, all_done),
        quiet ∙ kept,
      )
  Ended-cons step steps r r1 r2 (some e) (one, known, done, grown, kept)
        (new, last, left, more, same, all_done, failed, error, noted) =
      (
        one ∷ new,
        last,
        left,
        more
            ∙ ap (λ l. l ++ (new ++ (last ∷ []))) grown
            ∙ append_assoc r.steps (one ∷ []) (new ++ (last ∷ [])),
        cc (known, same),
        (done, all_done),
        failed,
        error,
        noted ∙ ap (λ l. l ++ (last ∷ [])) kept,
      )

  Ended-fail :
      (step : Step S) (steps : List (Step S)) (r r1 : Report) (e : String)
      → Noted w opts step r (some e) r1
      → Ended (step ∷ steps) r (some e) r1
  Ended-fail step steps r r1 e (last, known, failed, error, grown, noted) =
      ([], last, step_ids steps, grown, cc known, tt, failed, error, noted)

  -- After the loop of `Run` the report has one more record for each step that was tried, in the
  -- order of the plan. Without an error all steps were tried and are done, and no failure is added;
  -- with one the steps in front are done, the last record has the error and is the one failure that
  -- is added, and no later step was tried.
  pub run_steps-Ended :
      (completed : StringMap Bool) (steps : List (Step S)) (p : Progress S)
      → Ended steps p.report
          (run_steps w opts completed steps p).1
          (run_steps w opts completed steps p).0.report
  unfolding run_steps is_done
  run_steps-Ended completed [] p = ([], sym (append-nil _), refl, tt, refl)
  run_steps-Ended completed (step ∷ steps) p =
      let (p', fault) = run_step w opts completed step p in
      let noted : Noted w opts step p.report fault p'.report =
        run_step-Noted w opts completed step p in
      elim (Option-cases fault) [
        | inr (e, failed) ↦
            rw (run_steps, failed) (Ended-fail step steps p.report p'.report e (rw failed at noted))
        | inl fine ↦
            rw (run_steps, fine)
              (Ended-cons step steps p.report p'.report _ _ (rw fine at noted)
                (run_steps-Ended completed steps p'))
      ]
