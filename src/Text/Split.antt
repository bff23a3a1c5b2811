-- ===== src/Text/Split.antt =====
-- Splitting a text at a character and joining the parts again.
use Prim.Native.String.{◌++◌ as ◌<>◌}
use text.Mathlib.TextEquality.{Char-path}
use text.Mathlib.TextLemmas.{nil-append, cons-append}
use stack_forge.Base.{
  Char, code, String, ◌≡◌, refl, ap, ◌∙◌, List, [], ◌∷◌, ◌≢◌, arith, eqb, Bool-cases, inl, inr,
  true, false, All,
}
use stack_forge.Text.{split, join, cons_first}

-- A separator of one character, as a text.
abbrev pub one : Char → String
one c = String.◌∷◌ c ""

cons_first-ne-nil : (c : Char) (parts : List String) → cons_first c parts ≢ []
unfolding cons_first
cons_first-ne-nil c [] = λ e. cc
cons_first-ne-nil c (part ∷ parts) = λ e. cc

pub split-ne-nil : (sep : Char) (s : String) → split sep s ≢ []
unfolding split
split-ne-nil sep String.[] = λ e. cc
split-ne-nil sep (String.◌∷◌ c s) = elim (Bool-cases (eqb (code c) (code sep))) [
  | inl same ↦ rw same (λ e. cc)
  | inr other ↦ rw other (cons_first-ne-nil c (split sep s))
]

join-empty :
    (sep : Char) (parts : List String)
    → parts ≢ []
    → join (one sep) ("" ∷ parts) ≡ String.◌∷◌ sep (join (one sep) parts)
unfolding join
join-empty sep [] h = absurd (h refl)
join-empty sep (p ∷ ps) h = rw (nil-append, cons-append, nil-append)

join-cons_first :
    (sep c : Char) (parts : List String)
    → parts ≢ []
    → join (one sep) (cons_first c parts) ≡ String.◌∷◌ c (join (one sep) parts)
unfolding join cons_first
join-cons_first sep c [] h = absurd (h refl)
join-cons_first sep c (p ∷ []) h = refl
join-cons_first sep c (p ∷ q ∷ ps) h = rw cons-append

pub eqb-code : (c d : Char) → eqb (code c) (code d) ≡ true → c ≡ d
eqb-code c d h = Char-path c d (ground arith)

-- Joining the parts gives back the text.
pub join-split : (sep : Char) (s : String) → join (one sep) (split sep s) ≡ s
unfolding split
join-split sep String.[] = unfold join in refl
join-split sep (String.◌∷◌ c s) = elim (Bool-cases (eqb (code c) (code sep))) [
  | inl same ↦ rw same (
      join-empty sep (split sep s) (split-ne-nil sep s)
      ∙ cc (join-split sep s, eqb-code c sep same))
  | inr other ↦ rw other (
      join-cons_first sep c (split sep s) (split-ne-nil sep s)
      ∙ ap (String.◌∷◌ c) (join-split sep s))
]

-- The character does not occur in the text.
abbrev pub Lacks : Char → String → Type 0
Lacks sep String.[] = Unit
Lacks sep (String.◌∷◌ c s) = (eqb (code c) (code sep) ≡ false) × Lacks sep s

cons_first-Lacks :
    (sep c : Char) (parts : List String)
    → eqb (code c) (code sep) ≡ false
    → All (Lacks sep) parts
    → All (Lacks sep) (cons_first c parts)
unfolding cons_first
cons_first-Lacks sep c [] h k = ((h, tt), tt)
cons_first-Lacks sep c (part ∷ parts) h (p, k) = ((h, p), k)

pub split-Lacks : (sep : Char) (s : String) → All (Lacks sep) (split sep s)
unfolding split
split-Lacks sep String.[] = (tt, tt)
split-Lacks sep (String.◌∷◌ c s) = elim (Bool-cases (eqb (code c) (code sep))) [
  | inl same ↦ rw same (tt, split-Lacks sep s)
  | inr other ↦ rw other (cons_first-Lacks sep c (split sep s) other (split-Lacks sep s))
]

split_of_Lacks : (sep : Char) (p : String) → Lacks sep p → split sep p ≡ p ∷ []
unfolding split cons_first
split_of_Lacks sep String.[] h = refl
split_of_Lacks sep (String.◌∷◌ c p) (h, k) = rw (h, split_of_Lacks sep p k)

split-append :
    (sep : Char) (p s : String) → Lacks sep p → split sep (p <> (one sep <> s)) ≡ p ∷ split sep s
unfolding split cons_first
split-append sep String.[] s h = rw (nil-append, cons-append, nil-append) (ground arith)
split-append sep (String.◌∷◌ c p) s (h, k) = rw cons-append (rw (h, split-append sep p s k))

-- Splitting what was joined gives back the parts, if there is one and none holds the separator.
pub split-join :
    (sep : Char) (parts : List String)
    → parts ≢ []
    → All (Lacks sep) parts
    → split sep (join (one sep) parts) ≡ parts
unfolding join
split-join sep [] h k = absurd (h refl)
split-join sep (p ∷ []) h (l, k) = split_of_Lacks sep p l
split-join sep (p ∷ q ∷ ps) h (l, k) =
    split-append sep p (join (one sep) (q ∷ ps)) l ∙ ap (p ∷◌) (split-join sep (q ∷ ps) (λ e. cc) k)
