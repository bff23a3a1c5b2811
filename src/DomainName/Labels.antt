-- ===== src/DomainName/Labels.antt =====
-- The root domain and the subdomain of a name, `rootDomain` and `subdomain` of
-- internal/controlplane/domain/domain.go.
use Prim.Native.String.{◌++◌ as ◌<>◌}
use text.Mathlib.TextLemmas.{append_assoc as string_append_assoc}
use stack_forge.Base.{
  ◌<◌, String, ◌≡◌, refl, sym, ap, ◌∙◌, List, [], ◌∷◌, length, arith, ltb, leb, ◌≢◌, All, true,
  false, ◌≤◌,
}
use native.Mathlib.Decide.{dec_lt}
use stack_forge.Text.{split, join}
use stack_forge.Text.Split.{Lacks, split-Lacks, join-split, split-join}
use stack_forge.DomainName.{last_two, but_last_two, root_domain, subdomain}

join-but_last_two :
    (parts : List String)
    → 2 < length parts
    → join "." (but_last_two parts) <> ("." <> join "." (last_two parts)) ≡ join "." parts
unfolding join but_last_two last_two
join-but_last_two [] h = absurd (omega arith)
join-but_last_two (a ∷ []) h = absurd (omega arith)
join-but_last_two (a ∷ b ∷ []) h = absurd (omega arith)
join-but_last_two (a ∷ b ∷ c ∷ []) h = refl
join-but_last_two (a ∷ b ∷ c ∷ d ∷ more) h =
    string_append_assoc a _ _
    ∙ ap (a <>◌) (
        string_append_assoc "." _ _
        ∙ ap ("." <>◌) (join-but_last_two (b ∷ c ∷ d ∷ more) (omega arith)))

subdomain_of_long :
    (d : String) → 2 < length (split "." d) → subdomain d ≡ join "." (but_last_two (split "." d))
unfolding subdomain
subdomain_of_long d h = let long : leb (length (split "." d)) 2 ≡ false = ground arith in rw long

root_domain_of_two :
    (d : String) → 1 < length (split "." d) → root_domain d ≡ join "." (last_two (split "." d))
unfolding root_domain
root_domain_of_two d h = let long : ltb (length (split "." d)) 2 ≡ false = ground arith in rw long

root_domain_of_one : (d : String) → length (split "." d) ≤ 1 → root_domain d ≡ d
unfolding root_domain
root_domain_of_one d h = let short : ltb (length (split "." d)) 2 ≡ true = ground arith in rw short

-- A name of more than two labels is its subdomain, a dot and its root domain.
pub subdomain-root_domain :
    (d : String) → 2 < length (split "." d) → subdomain d <> ("." <> root_domain d) ≡ d
subdomain-root_domain d h =
    rw (subdomain_of_long d h, root_domain_of_two d (omega arith))
      (join-but_last_two (split "." d) h ∙ join-split "." d)

last_two-Lacks : (parts : List String) → All (Lacks ".") parts → All (Lacks ".") (last_two parts)
unfolding last_two
last_two-Lacks [] h = h
last_two-Lacks (a ∷ []) h = h
last_two-Lacks (a ∷ b ∷ []) h = h
last_two-Lacks (a ∷ b ∷ c ∷ parts) h = last_two-Lacks (b ∷ c ∷ parts) h.1

length-last_two : (parts : List String) → 1 < length parts → length (last_two parts) ≡ 2
unfolding last_two
length-last_two [] h = absurd (omega arith)
length-last_two (a ∷ []) h = absurd (omega arith)
length-last_two (a ∷ b ∷ []) h = refl
length-last_two (a ∷ b ∷ c ∷ parts) h = length-last_two (b ∷ c ∷ parts) (omega arith)

last_two_of_two : (parts : List String) → length parts ≡ 2 → last_two parts ≡ parts
unfolding last_two
last_two_of_two [] h = refl
last_two_of_two (a ∷ []) h = refl
last_two_of_two (a ∷ b ∷ []) h = refl
last_two_of_two (a ∷ b ∷ c ∷ parts) h = absurd (omega arith)

ne-nil_of_length : (parts : List String) → 0 < length parts → parts ≢ []
ne-nil_of_length parts h e = omega (arith, ap (length {0}) e)

-- The labels of the root domain of a name with a dot are the last two of the name.
split-root_domain :
    (d : String) → 1 < length (split "." d) → split "." (root_domain d) ≡ last_two (split "." d)
split-root_domain d h = rw (root_domain_of_two d h) (
    split-join "." (last_two (split "." d))
      (ne-nil_of_length _ (omega (arith, length-last_two (split "." d) h)))
      (last_two-Lacks (split "." d) (split-Lacks "." d)))

-- Taking the root domain twice is taking it once.
root_domain_idem : (d : String) → root_domain (root_domain d) ≡ root_domain d
root_domain_idem d = elim (dec_lt 1 (length (split "." d))) [
  | yes h ↦
      let two = length-last_two (split "." d) h in
      let same = split-root_domain d h in
      root_domain_of_two (root_domain d) (rw same (omega arith))
      ∙ rw (same, last_two_of_two _ two) (sym (root_domain_of_two d h))
  | no h ↦ let plain = root_domain_of_one d (omega arith) in ap root_domain plain
]
