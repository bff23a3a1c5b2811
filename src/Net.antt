-- ===== src/Net.antt =====
-- The address functions of Go's package net that the program calls.
-- An address is its eight groups of 16 bits; an IPv4 address a.b.c.d is ::ffff:a.b.c.d, as in Go.
use Prim.Native.String.{count}
use stack_forge.Base.{
  ℕ, ◌+◌, ◌*◌, ◌/◌, ◌-◌, ◌^◌, String, Bool, true, false, not, ◌&&◌, ◌||◌, Option, none, some, List,
  [], ◌∷◌, ◌++◌, leb, eqb, length, if◌then◌else◌, ◌==◌, ◌≡◌, refl, zero, suc,
}
use stack_forge.Text.{split, cut, contains, has_prefix, texts}
use stack_forge.Text.Number.{decimal_from, hex_from}

abbrev pub IpAddr : Type 0
IpAddr = List ℕ

infixl 5 ◌>>=◌
abbrev ◌>>=◌ {ℓ κ} : {A : Type ℓ} {B : Type κ} → Option A → (A → Option B) → Option B
none >>= k = none
some a >>= k = k a

-- One field of a dotted address: one to three digits, no leading zero, at most 255.
octet : String → Option ℕ
octet s =
    if (s == "") || not (leb (count s) 3) || (has_prefix s "0" && not (s == "0"))
    then none
    else do n ← decimal_from 0 s; if leb n 255 then some n else none

-- `netip.parseIPv4`, as the upper and the lower 16 bits
parse_v4 : String → Option (ℕ × ℕ)
parse_v4 s = elim (split "." s) [
  | a ∷ (b ∷ (c ∷ (d ∷ []))) ↦ do
    n ← octet a
    m ← octet b
    k ← octet c
    l ← octet d
    some (n * 256 + m, k * 256 + l)
  | _ ↦ none
]

group : String → Option ℕ
group s = if (s == "") || not (leb (count s) 4) then none else hex_from 0 s

-- Groups between colons; the last may be a dotted IPv4 address, for two groups.
groups : List String → Option (List ℕ)
groups [] = some []
groups (s ∷ []) =
    if contains s "."
    then (do v ← parse_v4 s; some (v.0 ∷ v.1 ∷ []))
    else do g ← group s; some (g ∷ [])
groups (s ∷ more) = do g ← group s; gs ← groups more; some (g ∷ gs)

zeros : ℕ → List ℕ
zeros zero = []
zeros (suc n) = 0 ∷ zeros n

exactly_eight : List ℕ → Option IpAddr
exactly_eight gs = if eqb (length gs) 8 then some gs else none

-- `::` stands for at least one group of zeros.
fill : List ℕ → List ℕ → Option IpAddr
fill before after =
    let n = length before + length after in
    if leb n 7 then some (before ++ (zeros (8 - n) ++ after)) else none

-- What follows the empty part that `::` leaves: nothing, or groups without a second gap.
after_gap : List String → Option (List ℕ)
after_gap [] = none
after_gap (s ∷ []) = if s == "" then some [] else groups (s ∷ [])
after_gap parts = groups parts

-- The parts before the first empty one, and those behind it.
gap : List String → Option (List String × List String)
gap [] = none
gap (s ∷ more) =
    let rest = (do p ← gap more; some (s ∷ p.0, p.1)) in if s == "" then some ([], more) else rest

-- Groups in front of a gap: none of them is dotted.
plain_groups : List String → Option (List ℕ)
plain_groups [] = some []
plain_groups (s ∷ more) = do g ← group s; gs ← plain_groups more; some (g ∷ gs)

-- A text that begins with `::` has two empty parts in front.
leading_gap : List String → List String → Option IpAddr
leading_gap [] [] = none
leading_gap [] (s ∷ more) = if s == "" then (do gs ← after_gap more; fill [] gs) else none
leading_gap before after = do gs ← plain_groups before; hs ← after_gap after; fill gs hs

-- `netip.parseIPv6`; a zone (`%`) is no hexadecimal digit, and refused.
parse_v6 : String → Option IpAddr
parse_v6 s =
    let parts = split ":" s in
    elim (gap parts) [
      | none ↦ do gs ← groups parts; exactly_eight gs
      | some (before, after) ↦ leading_gap before after
    ]

abbrev v4_groups : ℕ × ℕ → IpAddr
v4_groups (hi, lo) = 0 ∷ 0 ∷ 0 ∷ 0 ∷ 0 ∷ 0xffff ∷ hi ∷ lo ∷ []

-- `net.ParseIP`: the first `.` or `:` decides the family.
unfoldable pub parse_ip : String → Option IpAddr
unfolding parse_v4 parse_v6 octet groups group gap plain_groups after_gap leading_gap fill zeros
    exactly_eight
parse_ip s = if contains s ":" then parse_v6 s else do v ← parse_v4 s; some (v4_groups v)

-- `IP.To4`, as a number of 32 bits
unfoldable pub to_4 : IpAddr → Option ℕ
to_4 (a ∷ b ∷ c ∷ d ∷ e ∷ f ∷ hi ∷ lo ∷ []) =
    if eqb a 0 && eqb b 0 && eqb c 0 && eqb d 0 && eqb e 0 && eqb f 0xffff
    then some (hi * 65536 + lo)
    else none
to_4 _ = none

abbrev pub dotted : ℕ → ℕ → ℕ → ℕ → ℕ
dotted a b c d = a * 16777216 + b * 65536 + c * 256 + d

-- `IPNet.Contains` for the block `net/bits` of IPv4 addresses
unfoldable pub in_block : ℕ → ℕ → IpAddr → Bool
unfolding to_4
in_block net bits ip = elim (to_4 ip) [
  | none ↦ false
  | some n ↦ eqb (n / 2 ^ (32 - bits)) (net / 2 ^ (32 - bits))
]

first_group : IpAddr → ℕ
first_group [] = 0
first_group (g ∷ gs) = g

-- `IP.IsPrivate`: RFC 1918 and fc00::/7
unfoldable pub is_private : IpAddr → Bool
unfolding in_block first_group
is_private ip =
    in_block (dotted 10 0 0 0) 8 ip
    || in_block (dotted 172 16 0 0) 12 ip
    || in_block (dotted 192 168 0 0) 16 ip
    || eqb (first_group ip / 512) 126

same_groups : IpAddr → IpAddr → Bool
same_groups [] [] = true
same_groups (g ∷ gs) (h ∷ hs) = eqb g h && same_groups gs hs
same_groups _ _ = false

-- `IP.IsLoopback`
unfoldable pub is_loopback : IpAddr → Bool
unfolding in_block same_groups
is_loopback ip =
    in_block (dotted 127 0 0 0) 8 ip || same_groups ip (0 ∷ 0 ∷ 0 ∷ 0 ∷ 0 ∷ 0 ∷ 0 ∷ 1 ∷ [])

-- `IP.IsUnspecified`
unfoldable pub is_unspecified : IpAddr → Bool
unfolding same_groups
is_unspecified ip =
    same_groups ip (v4_groups (0, 0)) || same_groups ip (0 ∷ 0 ∷ 0 ∷ 0 ∷ 0 ∷ 0 ∷ 0 ∷ 0 ∷ [])

-- `IP.Equal` on what `ParseIP` returned; two failed parses are equal, as nil is to nil.
unfoldable pub same_ip : Option IpAddr → Option IpAddr → Bool
unfolding same_groups
same_ip none none = true
same_ip (some a) (some b) = same_groups a b
same_ip _ _ = false

mask_fits : ℕ → String → Bool
mask_fits most s =
    if s == "" then false else elim (decimal_from 0 s) [ none ↦ false | some n ↦ leb n most ]

-- Whether `net.ParseCIDR` succeeds.
unfoldable pub is_cidr : String → Bool
unfolding parse_ip mask_fits
is_cidr s = elim (cut "/" s) [
  | none ↦ false
  | some (addr, mask) ↦ elim (parse_ip addr) [
    | none ↦ false
    | some _ ↦ mask_fits (if contains addr ":" then 128 else 32) mask
  ]
]

-- Unfolds every function of this module and of the texts below it.
unfoldable pub addresses : Unit {0}
unfolding texts decimal_from hex_from parse_ip is_private is_loopback is_unspecified same_ip is_cidr
addresses = tt

parse_ip_examples :
    (parse_ip "10.0.0.1" ≡ some (v4_groups (2560, 1)))
    × (parse_ip "10.0.0.256" ≡ none)
    × (parse_ip "10.0.0.01" ≡ none)
    × (parse_ip "::" ≡ some (zeros 8))
    × (parse_ip "2001:db8::7" ≡ some (8193 ∷ 3512 ∷ 0 ∷ 0 ∷ 0 ∷ 0 ∷ 0 ∷ 7 ∷ []))
    × (parse_ip "::ffff:1.2.3.4" ≡ some (v4_groups (258, 772)))
    × (parse_ip "1::2::3" ≡ none)
    × (parse_ip "1:" ≡ none)
    × (parse_ip ":1" ≡ none)
    × (parse_ip "1::" ≡ some (1 ∷ zeros 7))
unfolding addresses
parse_ip_examples = (refl, refl, refl, refl, refl, refl, refl, refl, refl, refl)

is_cidr_examples :
    (is_cidr "10.0.0.0/8" ≡ true)
    × (is_cidr "10.0.0.0/33" ≡ false)
    × (is_cidr "::/0" ≡ true)
    × (is_cidr "10.0.0.0" ≡ false)
    × (is_cidr "10.0.0.0/" ≡ false)
unfolding addresses
is_cidr_examples = (refl, refl, refl, refl, refl)
