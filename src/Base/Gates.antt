-- ===== src/Base/Gates.antt =====
-- Tests that are made one behind the other, each of which can only make a result worse.
use mathlib.Core.Path.{◌≡◌, refl}
use mathlib.Core.Bool.{Bool, true, false}
use mathlib.Core.Logic.{◌↔◌}
use stack_forge.Base.Tests.{if◌then◌else◌}

-- The result `after` is good exactly if `before` was and `P` holds.
pub record Extends {R : Type 0} (good : R → Bool) (P : Type 0) (before after : R) : Type 0 where
  pub iff : (good after ≡ true) ↔ (P × (good before ≡ true))

module _ {R : Type 0} {good : R → Bool} {P : Type 0} where
  pub if-Extends :
      (b : Bool) {r after : R}
      → Extends good P r after
      → Extends good (b ≡ true → P) r (if b then after else r)
  if-Extends true h = record {
    iff = (λ k. (λ b. (h.iff.0 k).0, (h.iff.0 k).1), λ (p, k). h.iff.1 (p refl, k));
  }
  if-Extends false h = record { iff = (λ k. (λ b. cc b, k), λ (p, k). k) }

  infixl 5 ◌&>◌
  -- Two tests, one behind the other
  pub ◌&>◌ :
      {Q : Type 0} {r r1 r2 : R}
      → Extends good P r r1
      → Extends good Q r1 r2
      → Extends good (P × Q) r r2
  h &> k = record {
    iff = (
      λ e. (((h.iff.0 (k.iff.0 e).1).0, (k.iff.0 e).0), (h.iff.0 (k.iff.0 e).1).1),
      λ ((p, q), e). k.iff.1 (q, h.iff.1 (p, e)),
    );
  }

  -- The same test in other words
  pub restate :
      {Q : Type 0} {r after : R}
      → (P → Q)
      → (Q → P)
      → Extends good P r after
      → Extends good Q r after
  restate f g h = record {
    iff = (λ e. (f (h.iff.0 e).0, (h.iff.0 e).1), λ (q, e). h.iff.1 (g q, e));
  }
