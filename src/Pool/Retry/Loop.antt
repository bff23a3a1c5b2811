-- ===== src/Pool/Retry/Loop.antt =====
-- The loop of repeated calls: how often it calls, for how long it sleeps, what it returns.
use stack_forge.Base.{
  ℕ, zero, suc, ◌+◌, ◌≤◌, ◌≡◌, refl, ap, true, List, [], ◌∷◌, length, arith, Bool-cases, inl, inr,
}
use stack_forge.Cloudflare.{Outcome, done, failed, Failure, Outcome-cases}
use stack_forge.Pool.Retry.{Retried, attempts, after_call, should_retry}

-- A call that also counts how often it was made.
abbrev pub counted : {S A : Type 0} → (S → S × Outcome A) → S × ℕ → (S × ℕ) × Outcome A
counted call (s, n) = let (s', o) = call s in ((s', suc n), o)

-- What a loop with `left` further attempts may have done after `n` calls.
pub record IsBounded {S A : Type 0} (left n : ℕ) (r : Retried (S × ℕ) A) : Type 0 where
  -- one call more than there are delays
  pub calls : r.state.1 ≡ n + length r.slept + 1
  pub bounded : length r.slept ≤ left
  -- a rate limit is returned only when no attempt is left
  pub exhausted :
      (e : Failure) → r.outcome ≡ failed e → should_retry e ≡ true → length r.slept ≡ left

module _ {S A : Type 0} where
  after_call-IsBounded :
      (again : Unit {0} → Retried (S × ℕ) A) (left n d : ℕ) (s : S × ℕ) (o : Outcome A)
      → s.1 ≡ suc n
      → IsBounded left (suc n) (again tt)
      → IsBounded (suc left) n (after_call again d s o)
  unfolding after_call
  after_call-IsBounded again left n d s (done a) e h = record {
    calls = omega arith;
    bounded = omega arith;
    exhausted = λ f o k. cc;
  }
  after_call-IsBounded again left n d s (failed m) e h = elim (Bool-cases (should_retry m)) [
    | inl more ↦ rw more (record {
      calls = omega (arith, h.calls);
      bounded = omega (arith, h.bounded);
      exhausted = λ f o k. ap suc (h.exhausted f o k);
    })
    | inr stop ↦
        rw stop (record { calls = omega arith; bounded = omega arith; exhausted = λ f o k. cc })
  ]

  -- The loop of repeated calls makes one call more than it sleeps, sleeps at most as often as there
  -- are attempts left, and returns a rate limit only when none is left.
  pub attempts-IsBounded :
      (delay : ℕ → ℕ) (call : S → S × Outcome A) (left attempt n : ℕ) (s : S)
      → IsBounded left n (attempts delay (counted call) left attempt (s, n))
  unfolding attempts
  attempts-IsBounded delay call zero attempt n s = record {
    calls = omega arith;
    bounded = omega arith;
    exhausted = λ f o k. refl;
  }
  attempts-IsBounded delay call (suc left) attempt n s =
      after_call-IsBounded
        (λ u. attempts delay (counted call) left (suc attempt) ((call s).0, suc n)) left n
        (delay attempt) ((call s).0, suc n) (call s).1 refl
        (attempts-IsBounded delay call left (suc attempt) (suc n) (call s).0)

-- The delays from an attempt on.
abbrev pub delays : (ℕ → ℕ) → (count attempt : ℕ) → List ℕ
delays delay zero attempt = []
delays delay (suc count) attempt = delay attempt ∷ delays delay count (suc attempt)

module _ {S A : Type 0} (delay : ℕ → ℕ) (call : S → S × Outcome A) where
  -- The delays that the loop of repeated calls sleeps are those of its attempts, in order.
  slept-attempts :
      (left attempt : ℕ) (s : S)
      → (attempts delay call left attempt s).slept
        ≡ delays delay (length (attempts delay call left attempt s).slept) attempt
  unfolding attempts after_call
  slept-attempts zero attempt s = refl
  slept-attempts (suc left) attempt s = elim (Outcome-cases (call s).1) [
    | inl (a, found) ↦ rw found
    | inr (m, lost) ↦ elim (Bool-cases (should_retry m)) [
      | inl more ↦
          rw (lost, more) (ap (delay attempt ∷◌) (slept-attempts left (suc attempt) (call s).0))
      | inr stop ↦ rw (lost, stop)
    ]
  ]
