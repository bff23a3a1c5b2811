-- ===== src/Text.antt =====
-- The functions of Go's package strings that the program calls, over native texts.
-- `ToLower`, `ToUpper` and `EqualFold` map the ASCII letters and leave every other character alone.
-- Separators of `Split` and `Cut` are single characters, as at every call in the program.
pub mod Laws
pub mod Number
pub mod Split
use Prim.Native.String
use Prim.Native.String.{char_at}
use stack_forge.Base.{
  ℕ, ◌+◌, ◌-◌, Char, code, String, Bool, true, false, not, ◌&&◌, ◌||◌, Option, none, some, List, [],
  ◌∷◌, leb, eqb, any, if◌then◌else◌, ◌==◌,
}

-- `unicode.IsSpace`
unfoldable pub is_space : Char → Bool
is_space c =
    let n = code c in
    (leb 9 n && leb n 13)
    || eqb n 32
    || eqb n 0x85
    || eqb n 0xA0
    || eqb n 0x1680
    || (leb 0x2000 n && leb n 0x200A)
    || eqb n 0x2028
    || eqb n 0x2029
    || eqb n 0x202F
    || eqb n 0x205F
    || eqb n 0x3000

unfoldable pub trim_left : String → String
trim_left String.[] = ""
trim_left (String.◌∷◌ c s) = let rest = trim_left s in if is_space c then rest else String.◌∷◌ c s

abbrev pub is_blank : String → Bool
is_blank String.[] = true
is_blank (String.◌∷◌ c s) = is_space c && is_blank s

unfoldable pub trim_right : String → String
trim_right String.[] = ""
trim_right (String.◌∷◌ c s) = if is_blank (String.◌∷◌ c s) then "" else String.◌∷◌ c (trim_right s)

-- `strings.TrimSpace`
unfoldable pub trim_space : String → String
unfolding trim_left trim_right
trim_space s = trim_right (trim_left s)

lower_char : Char → Char
lower_char c =
    if leb 65 (code c) && leb (code c) 90
    then char_at "abcdefghijklmnopqrstuvwxyz" (code c - 65)
    else c

upper_char : Char → Char
upper_char c =
    if leb 97 (code c) && leb (code c) 122
    then char_at "ABCDEFGHIJKLMNOPQRSTUVWXYZ" (code c - 97)
    else c

-- `strings.ToLower`
unfoldable pub to_lower : String → String
unfolding lower_char
to_lower String.[] = ""
to_lower (String.◌∷◌ c s) = String.◌∷◌ (lower_char c) (to_lower s)

-- `strings.ToUpper`
unfoldable pub to_upper : String → String
unfolding upper_char
to_upper String.[] = ""
to_upper (String.◌∷◌ c s) = String.◌∷◌ (upper_char c) (to_upper s)

-- `strings.EqualFold`
unfoldable pub equal_fold : String → String → Bool
unfolding to_lower
equal_fold s t = to_lower s == to_lower t

-- `strings.HasPrefix(s, p)`
unfoldable pub has_prefix : String → String → Bool
has_prefix s String.[] = true
has_prefix String.[] (String.◌∷◌ d p) = false
has_prefix (String.◌∷◌ c s) (String.◌∷◌ d p) = eqb (code c) (code d) && has_prefix s p

-- `strings.TrimPrefix(s, p)`
drop_prefix : String → String → String
drop_prefix s String.[] = s
drop_prefix String.[] (String.◌∷◌ d p) = ""
drop_prefix (String.◌∷◌ c s) (String.◌∷◌ d p) = drop_prefix s p

unfoldable pub trim_prefix : String → String → String
unfolding has_prefix drop_prefix
trim_prefix s p = if has_prefix s p then drop_prefix s p else s

-- `strings.HasSuffix(s, p)`
unfoldable pub has_suffix : String → String → Bool
has_suffix String.[] p = String.[] == p
has_suffix (String.◌∷◌ c s) p = String.◌∷◌ c s == p || has_suffix s p

-- `strings.TrimSuffix(s, p)` for a suffix that is not empty
unfoldable pub trim_suffix : String → String → String
trim_suffix String.[] p = ""
trim_suffix (String.◌∷◌ c s) p = if String.◌∷◌ c s == p then "" else String.◌∷◌ c (trim_suffix s p)

-- `strings.Contains(s, p)`
unfoldable pub contains : String → String → Bool
unfolding has_prefix
contains String.[] p = has_prefix "" p
contains (String.◌∷◌ c s) p = has_prefix (String.◌∷◌ c s) p || contains s p

cons_first : Char → List String → List String
cons_first c [] = String.◌∷◌ c "" ∷ []
cons_first c (part ∷ parts) = String.◌∷◌ c part ∷ parts

-- `strings.Split(s, sep)` for a separator of one character
unfoldable pub split : Char → String → List String
unfolding cons_first
split sep String.[] = "" ∷ []
split sep (String.◌∷◌ c s) =
    let parts = split sep s in if eqb (code c) (code sep) then "" ∷ parts else cons_first c parts

cons_before : Char → Option (String × String) → Option (String × String)
cons_before c none = none
cons_before c (some (before, after)) = some (String.◌∷◌ c before, after)

-- `strings.Cut(s, sep)`; `none` is its `found == false`
unfoldable pub cut : Char → String → Option (String × String)
unfolding cons_before
cut sep String.[] = none
cut sep (String.◌∷◌ c s) =
    let rest = cut sep s in if eqb (code c) (code sep) then some ("", s) else cons_before c rest

-- `strings.Join(parts, sep)`
unfoldable pub join : String → List String → String
join sep [] = ""
join sep (part ∷ []) = part
join sep (part ∷ more) = String.◌++◌ part (String.◌++◌ sep (join sep more))

-- `s == a || s == b || …`
abbrev pub is_one_of : String → List String → Bool
is_one_of s names = any (λ name. s == name) names

-- a text that is not empty
abbrev pub is_set : String → Bool
is_set s = not (s == "")

-- How often a text stands in a list.
abbrev pub occurrences : String → List String → ℕ
occurrences r [] = 0
occurrences r (s ∷ rs) = (if s == r then 1 else 0) + occurrences r rs

-- Unfolds every function of this module, for evaluation at concrete texts.
unfoldable pub texts : Unit {0}
unfolding is_space trim_space to_lower to_upper equal_fold has_prefix trim_prefix has_suffix
    trim_suffix contains split cut join
texts = tt

-- `%q` of a text that needs no escapes
unfoldable pub quoted : String → String
quoted s = String.◌++◌ "\"" (String.◌++◌ s "\"")
