-- ===== src/Base/Errors.antt =====
-- Go's `(value, error)`: a value, or the error's text.
use Prim.Native.String.{String}
use mathlib.Core.Path.{◌≡◌, refl}
use mathlib.Core.Logic.{◌⊎◌, inl, inr}
use mathlib.Core.Bool.{Bool, true, false}
use mathlib.Core.Option.{Option, none, some}

pub data Result {ℓ} (A : Type ℓ) : Type ℓ where
  err : (message : String) → Result A
  ok : (value : A) → Result A

-- `if cond { return errors.New(e) }`
abbrev pub fail_if : Bool → String → Result (Unit {0})
fail_if true e = err e
fail_if false e = ok tt

-- `if err := f(); err != nil { return err }`, for an error that may be absent.
abbrev pub from_error : Option String → Result (Unit {0})
from_error none = ok tt
from_error (some e) = err e

module _ {ℓ κ} {A : Type ℓ} {B : Type κ} where
  infixl 5 ◌>>=◌
  -- `v, err := f(); if err != nil { return err }`
  abbrev pub ◌>>=◌ : Result A → (A → Result B) → Result B
  err message >>= next = err message
  ok value >>= next = next value

  pub >>=-eq-ok :
      (r : Result A) (next : A → Result B) {b : B}
      → (r >>= next) ≡ ok b
      → (a : A) × (r ≡ ok a) × (next a ≡ ok b)
  >>=-eq-ok (err message) next h = cc
  >>=-eq-ok (ok value) next h = (value, refl, h)

infixl 5 ◌>>◌
-- The same without a value.
abbrev pub ◌>>◌ {κ} : {B : Type κ} → Result (Unit {0}) → Result B → Result B
err message >> rest = err message
ok done >> rest = rest

module _ {ℓ} {A : Type ℓ} where
  pub Result-cases : (r : Result A) → ((e : String) × (r ≡ err e)) ⊎ ((a : A) × (r ≡ ok a))
  Result-cases (err message) = inl (message, refl)
  Result-cases (ok value) = inr (value, refl)

  pub ok-injective : {a b : A} → ok a ≡ ok b → a ≡ b
  ok-injective h = cc
