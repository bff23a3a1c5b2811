-- ===== src/Sql/Refinement.antt =====
-- The statements of the SQL registries against the catalogue of live domains.
use stack_forge.Base.{
  ℕ, String, ◌≡◌, ◌≢◌, ◌⊎◌, inl, inr, refl, ◌∙◌, true, false, ◌&&◌, none, some, List, [], ◌∷◌, ◌++◌,
  map, any, arith, Bool-cases, Option-cases, if◌then◌else◌, ◌==◌, Result, ok, err,
}
use stack_forge.Sql.{
  Row, Tables, Engine, is_live, is_match, violates, first_match, retire, prove, scan_domain,
  count_sent, insert_domain, get, delete, record_proof,
}
use stack_forge.Sql.Catalogue.{Catalogue, is_named, add, drop_named, find_named, has_name}
use stack_forge.Sql.Catalogue as Spec

-- The live domains, in the order of the rows.
unfoldable pub live_view : List Row → Catalogue
live_view [] = []
live_view (r ∷ rows) = if is_live r then scan_domain r ∷ live_view rows else live_view rows

abbrev pub view : Tables → Catalogue
view t = live_view t.domains

live_view-append :
    (rows : List Row) (r : Row)
    → is_live r ≡ true
    → live_view (rows ++ (r ∷ [])) ≡ add (scan_domain r) (live_view rows)
unfolding live_view add
live_view-append [] r h = ground arith
live_view-append (q ∷ rows) r h = let rest = live_view-append rows r h in ground arith

live_view-retire :
    (now : ℕ) (key : String) (rows : List Row)
    → live_view (map (retire now key) rows) ≡ drop_named key (live_view rows)
unfolding live_view retire drop_named scan_domain
live_view-retire now key [] = refl
live_view-retire now key (r ∷ rows) = let rest = live_view-retire now key rows in ground arith

live_view-prove :
    (now : ℕ) (id : String) (rows : List Row)
    → live_view (map (prove now id) rows) ≡ Spec.prove now id (live_view rows)
unfolding live_view prove Spec.prove scan_domain
live_view-prove now id [] = refl
live_view-prove now id (r ∷ rows) = let rest = live_view-prove now id rows in ground arith

has_name-live_view :
    (name : String) (rows : List Row)
    → has_name name (live_view rows) ≡ any (λ r. is_live r && r.domain == name) rows
unfolding live_view scan_domain
has_name-live_view name [] = refl
has_name-live_view name (r ∷ rows) = let rest = has_name-live_view name rows in ground arith

find_named-live_view :
    (key : String) (rows : List Row)
    → find_named key (live_view rows)
      ≡ elim (first_match key rows) [ none ↦ none | some r ↦ some (scan_domain r) ]
unfolding live_view scan_domain find_named first_match
find_named-live_view key [] = refl
find_named-live_view key (r ∷ rows) = let rest = find_named-live_view key rows in ground arith

any-find_named :
    (key : String) (rows : List Row)
    → any (is_match key) rows ≡ true
    → find_named key (live_view rows) ≢ none
unfolding live_view scan_domain find_named
any-find_named key [] h k = cc
any-find_named key (r ∷ rows) h k = let rest = any-find_named key rows in ground arith

none-drop_named :
    (key : String) (rows : List Row)
    → any (is_match key) rows ≡ false
    → drop_named key (live_view rows) ≡ live_view rows
unfolding live_view scan_domain drop_named
none-drop_named key [] h = refl
none-drop_named key (r ∷ rows) h =
    let rest = none-drop_named key rows (ground arith) in ground arith

-- What the tables are to the catalogue after a method, and what the method returned: on an error
-- the live domains are as before, and otherwise they changed as `Done` tells by the value.
abbrev pub Leaves :
    {A : Type 0} → (A → Catalogue → Catalogue → Type 0) → Tables → Tables × Result A → Type 0
Leaves {A} Done t (t', r) =
    ((e : String) × (r ≡ err e) × (view t' ≡ view t))
    ⊎ ((a : A) × (r ≡ ok a) × Done a (view t) (view t'))

module _ (engine : Engine) where
  -- A live row goes in where its name is free.
  pub insert_domain-Leaves :
      (r : Row) (t : Tables)
      → is_live r ≡ true
      → ((e : String) × ((insert_domain engine r t).1 ≡ some e)
          × (view (insert_domain engine r t).0 ≡ view t))
        ⊎ (((insert_domain engine r t).1 ≡ none)
            × (has_name r.domain (view t) ≡ false)
            × (view (insert_domain engine r t).0 ≡ add (scan_domain r) (view t)))
  unfolding insert_domain violates
  insert_domain-Leaves r t live = elim (Option-cases (engine.fault t.sent)) [
    | inr (e, fault) ↦ inl (e, rw (insert_domain, fault) refl, rw (insert_domain, fault) refl)
    | inl works ↦ elim (Bool-cases (violates r t.domains)) [
      | inl clash ↦ inl (
        engine.conflict,
        rw (insert_domain, works, clash) refl,
        rw (insert_domain, works, clash) refl,
      )
      | inr free ↦ inr (
        rw (insert_domain, works, free) refl,
        rw has_name-live_view (ground arith),
        rw (insert_domain, works, free) (live_view-append t.domains r live),
      )
    ]
  ]

  pub get-view :
      (key : String) (t : Tables)
      → ((get engine key t).1 ≡ none) ⊎ ((get engine key t).1 ≡ find_named key (view t))
  unfolding get
  get-view key t = elim (Option-cases (engine.fault t.sent)) [
    | inr (e, fault) ↦ inl (rw fault refl)
    | inl works ↦ inr (rw (works, find_named-live_view) refl)
  ]

  abbrev pub Dropped : String → Unit {0} → Catalogue → Catalogue → Type 0
  Dropped key u c c' = (find_named key c ≢ none) × (c' ≡ drop_named key c)

  pub delete-Leaves :
      (now : ℕ) (key : String) (t : Tables) → Leaves (Dropped key) t (delete engine now key t)
  unfolding delete
  delete-Leaves now key t = elim (Option-cases (engine.fault t.sent)) [
    | inr (e, fault) ↦ inl (e, rw (delete, fault) refl, rw (delete, fault) refl)
    | inl works ↦ elim (Bool-cases (any (is_match key) t.domains)) [
      | inl named ↦ inr (
        tt,
        rw (delete, works, named) refl,
        (
          any-find_named key t.domains named,
          rw (delete, works) (live_view-retire now key t.domains),
        ),
      )
      | inr missing ↦ inl (
        "not found",
        rw (delete, works, missing) refl,
        rw (delete, works)
            (live_view-retire now key t.domains ∙ none-drop_named key t.domains missing),
      )
    ]
  ]

  pub record_proof-Leaves :
      (now : ℕ) (id : String) (t : Tables)
      → Leaves (λ _ c c'. c' ≡ Spec.prove now id c) t (record_proof engine now id t)
  unfolding record_proof
  record_proof-Leaves now id t = elim (Option-cases (engine.fault t.sent)) [
    | inr (e, fault) ↦ inl (e, rw (record_proof, fault) refl, rw (record_proof, fault) refl)
    | inl works ↦ inr (
      tt,
      rw (record_proof, works) refl,
      elim (Option-cases (engine.fault (count_sent t).sent)) [
        | inr (e, fault) ↦ rw (record_proof, works, fault) (live_view-prove now id t.domains)
        | inl works' ↦ rw (record_proof, works, works') (live_view-prove now id t.domains)
      ],
    )
  ]
