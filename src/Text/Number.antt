-- ===== src/Text/Number.antt =====
-- Decimal and hexadecimal numerals: `fmt`'s `%d` and the digit loops of Go's net package.
use Prim.Native.String
use Prim.Native.String.{char_at}
use stack_forge.Base.{
  ℕ, zero, suc, ◌+◌, ◌-◌, ◌*◌, ◌/◌, ◌%◌, Char, code, String, Bool, ◌&&◌, Option, none, some, leb,
  ltb, if◌then◌else◌,
}

digit : ℕ → String
digit d = String.◌∷◌ (char_at "0123456789" d) ""

show_from : ℕ → ℕ → String → String
show_from zero n acc = acc
show_from (suc fuel) n acc =
    let text = String.◌++◌ (digit (n % 10)) acc in
    let more = show_from fuel (n / 10) text in if ltb n 10 then text else more

-- `%d` of a number that is not negative. A number has no more digits than its value plus one.
unfoldable pub show : ℕ → String
unfolding show_from digit
show n = show_from (suc n) n ""

abbrev pub is_digit : Char → Bool
is_digit c = leb 48 (code c) && leb (code c) 57

-- The value of a run of decimal digits; `none` at any other character.
unfoldable pub decimal_from : ℕ → String → Option ℕ
decimal_from n String.[] = some n
decimal_from n (String.◌∷◌ c s) =
    let rest = decimal_from (n * 10 + (code c - 48)) s in if is_digit c then rest else none

hex_digit : Char → Option ℕ
hex_digit c =
    if is_digit c
    then some (code c - 48)
    else if leb 97 (code c) && leb (code c) 102
    then some (code c - 87)
    else if leb 65 (code c) && leb (code c) 70
    then some (code c - 55)
    else none

hex_next : (ℕ → Option ℕ) → ℕ → Option ℕ → Option ℕ
hex_next rest n none = none
hex_next rest n (some d) = rest (n * 16 + d)

-- The value of a run of hexadecimal digits.
unfoldable pub hex_from : ℕ → String → Option ℕ
unfolding hex_digit hex_next
hex_from n String.[] = some n
hex_from n (String.◌∷◌ c s) = hex_next (λ m. hex_from m s) n (hex_digit c)

octal_from : ℕ → ℕ → String → String
octal_from zero n acc = acc
octal_from (suc fuel) n acc =
    let text = String.◌++◌ (digit (n % 8)) acc in
    let more = octal_from fuel (n / 8) text in if ltb n 8 then text else more

-- `%o`
unfoldable pub show_octal : ℕ → String
unfolding octal_from digit
show_octal n = octal_from (suc n) n ""
