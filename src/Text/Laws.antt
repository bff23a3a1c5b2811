-- ===== src/Text/Laws.antt =====
-- Laws of trimming, prefixes and suffixes.
use Prim.Native.String
use text.Mathlib.TextLemmas.{nil-append, cons-append}
use stack_forge.Base.{String, ◌≡◌, refl, ap, ◌∙◌, true, ◌&&◌, inl, inr, Bool-cases, arith, eq_refl}
use stack_forge.Text.{is_space, is_blank, trim_left, trim_right, trim_space, has_prefix, has_suffix}

trim_left_idem : (s : String) → trim_left (trim_left s) ≡ trim_left s
unfolding trim_left
trim_left_idem String.[] = refl
trim_left_idem (String.◌∷◌ c s) = ground (arith, trim_left_idem s)

is_blank-trim_right : (s : String) → is_blank (trim_right s) ≡ is_blank s
unfolding trim_right
is_blank-trim_right String.[] = refl
is_blank-trim_right (String.◌∷◌ c s) = elim (Bool-cases (is_space c && is_blank s)) [
  | inl blank ↦ rw blank
  | inr text ↦ rw text (rw (is_blank-trim_right s) text)
]

trim_right_idem : (s : String) → trim_right (trim_right s) ≡ trim_right s
unfolding trim_right
trim_right_idem String.[] = refl
trim_right_idem (String.◌∷◌ c s) = elim (Bool-cases (is_space c && is_blank s)) [
  | inl blank ↦ rw blank
  | inr text ↦ simp (text, is_blank-trim_right s, trim_right_idem s)
]

trim_left-trim_right :
    (s : String) → trim_left (trim_right (trim_left s)) ≡ trim_right (trim_left s)
unfolding trim_left trim_right
trim_left-trim_right String.[] = refl
trim_left-trim_right (String.◌∷◌ c s) = ground (arith, trim_left-trim_right s)

pub trim_space_idem : (s : String) → trim_space (trim_space s) ≡ trim_space s
unfolding trim_space
trim_space_idem s = ap trim_right (trim_left-trim_right s) ∙ trim_right_idem (trim_left s)

pub has_prefix-append : (p s : String) → has_prefix (String.◌++◌ p s) p ≡ true
unfolding has_prefix
has_prefix-append String.[] s = refl
has_prefix-append (String.◌∷◌ c p) s = rw cons-append (ground (arith, has_prefix-append p s))

has_suffix_self : (t : String) → has_suffix t t ≡ true
unfolding has_suffix
has_suffix_self String.[] = refl
has_suffix_self (String.◌∷◌ c t) = rw (eq_refl (String.◌∷◌ c t)) refl

pub has_suffix-append : (s t : String) → has_suffix (String.◌++◌ s t) t ≡ true
unfolding has_suffix
has_suffix-append String.[] t = rw nil-append (has_suffix_self t)
has_suffix-append (String.◌∷◌ c s) t = rw cons-append (ground (arith, has_suffix-append s t))
