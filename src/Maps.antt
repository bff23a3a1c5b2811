-- ===== src/Maps.antt =====
-- Go's maps with text keys, as association lists with one entry for each key.
use stack_forge.Base.{
  String, ◌≡◌, ◌≢◌, ◌⊎◌, inl, inr, Bool-cases, Option, none, some, List, [], ◌∷◌, arith,
  if◌then◌else◌, ◌==◌, eq_iff, eq_refl,
}

abbrev pub StringMap {ℓ} : Type ℓ → Type ℓ
StringMap V = List (String × V)

pub same_or_not : (s t : String) → (s ≡ t) ⊎ (s ≢ t)
same_or_not s t = elim (Bool-cases (s == t)) [
  | inl same ↦ inl ((eq_iff s t).0 same)
  | inr other ↦ inr (λ e. cc (other, (eq_iff s t).1 e))
]

module _ {ℓ} {V : Type ℓ} where
  -- `v, ok := m[k]`
  unfoldable pub lookup : String → StringMap V → Option V
  lookup k [] = none
  lookup k ((j, v) ∷ m) = if j == k then some v else lookup k m

  -- `m[k] = v`
  unfoldable pub insert : String → V → StringMap V → StringMap V
  insert k v [] = (k, v) ∷ []
  insert k v ((j, w) ∷ m) = if j == k then (j, v) ∷ m else (j, w) ∷ insert k v m

  -- `m[k]` with the zero value of the type
  abbrev pub lookup_or : V → String → StringMap V → V
  lookup_or zero k m = elim (lookup k m) [ none ↦ zero | some v ↦ v ]

  pub lookup-insert :
      (j k : String) (v : V) (m : StringMap V)
      → lookup j (insert k v m) ≡ (if k == j then some v else lookup j m)
  unfolding lookup insert
  lookup-insert j k v [] = ground (arith, eq_iff k j)
  lookup-insert j k v ((i, w) ∷ m) =
      ground (arith, eq_iff k j, eq_iff i k, eq_iff i j, lookup-insert j k v m)

  pub lookup-insert_self : (k : String) (v : V) (m : StringMap V) → lookup k (insert k v m) ≡ some v
  lookup-insert_self k v m = simp (lookup-insert, eq_refl)

  pub lookup-insert_ne :
      {j k : String} (v : V) (m : StringMap V) → k ≢ j → lookup j (insert k v m) ≡ lookup j m
  lookup-insert_ne {j} {k} v m h = rw lookup-insert (ground (arith, eq_iff k j))

  -- What an entry of the changed map was before.
  pub lookup-insert_cases :
      (j k : String) (v : V) (m : StringMap V) {w : V}
      → lookup j (insert k v m) ≡ some w
      → ((k ≡ j) × (v ≡ w)) ⊎ ((k ≢ j) × (lookup j m ≡ some w))
  lookup-insert_cases j k v m h = elim (same_or_not k j) [
    | inl same ↦ inl (same, cc (lookup-insert_self k v m))
    | inr other ↦ inr (other, cc (lookup-insert_ne v m other))
  ]
