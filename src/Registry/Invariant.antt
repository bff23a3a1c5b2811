-- ===== src/Registry/Invariant.antt =====
-- The consistency of the three maps of the registry, and the methods.
use stack_forge.Base.{
  ℕ, String, ◌≡◌, refl, Bool, sym, ◌∙◌, ap, true, false, inl, inr, Bool-cases, Option, none, some,
  Option-cases, arith, ok, Result-cases, ◌==◌,
}
use stack_forge.Maps.{
  StringMap, lookup, insert, lookup_or, lookup-insert_self, lookup-insert_ne, lookup-insert_cases,
  same_or_not,
}
use stack_forge.Registry.{
  Domain, empty_domain, Verification, Source, Store, new_store, is_live, is_taken, check_new,
  new_domain, create, delete, verification_token, mark_verified, registered_name, get,
}

pub record IsConsistent (s : Store) : Type 0 where
  -- a name is indexed to a domain of that name
  pub indexed :
      (name id : String)
      → lookup name s.by_domain ≡ some id
      → (d : Domain) × (lookup id s.domains ≡ some d) × (d.domain ≡ name)
  -- a live domain is what its name is indexed to
  pub live_indexed :
      (id : String) (d : Domain)
      → lookup id s.domains ≡ some d
      → d.deleted_at ≡ none
      → lookup d.domain s.by_domain ≡ some id
  -- a verification belongs to a stored domain
  pub verifiable :
      (id : String) (v : Verification)
      → lookup id s.verifications ≡ some v
      → (d : Domain) × (lookup id s.domains ≡ some d)

pub IsConsistent-new_store : IsConsistent new_store
unfolding lookup
IsConsistent-new_store = record {
  indexed = λ name id h. cc;
  live_indexed = λ id d h k. cc;
  verifiable = λ id v h. cc;
}

-- Overwriting a stored domain by one of the same name that is not live again.
IsConsistent-overwrite :
    {s : Store} (id : String) (d d' : Domain)
    → lookup id s.domains ≡ some d
    → d'.domain ≡ d.domain
    → (d'.deleted_at ≡ none → d.deleted_at ≡ none)
    → IsConsistent s
    → IsConsistent (record s { domains = insert id d' s.domains })
IsConsistent-overwrite {s} id d d' found same live h = record {
  indexed = λ name j at.
      let (e, stored, named) = h.indexed name j at in
      elim (same_or_not id j) [
        | inl here ↦ (
          d',
          rw (← here) (lookup-insert_self id d' s.domains),
          same ∙ cc (found, here, stored, named),
        )
        | inr there ↦ (e, lookup-insert_ne d' s.domains there ∙ stored, named)
      ];
  live_indexed = λ j e at on. elim (lookup-insert_cases j id d' s.domains at) [
    | inl (here, now) ↦
        let was = h.live_indexed id d found (live (cc (now, on))) in cc (was, here, now, same)
    | inr (there, before) ↦ h.live_indexed j e before on
  ];
  verifiable = λ j v at.
      let (e, stored) = h.verifiable j v at in
      elim (same_or_not id j) [
        | inl here ↦ (d', rw (← here) (lookup-insert_self id d' s.domains))
        | inr there ↦ (e, lookup-insert_ne d' s.domains there ∙ stored)
      ];
}

lookup_or-found :
    (id : String) (d : Domain) (m : StringMap Domain)
    → lookup id m ≡ some d
    → lookup id m ≡ some (lookup_or empty_domain id m)
lookup_or-found id d m found = found ∙ ap some (sym (ap (λ o. from_option o) found))
  where
    from_option : Option Domain → Domain
    from_option o = elim o [ none ↦ empty_domain | some e ↦ e ]

is_taken_of_live :
    (s : Store) (name id : String) (d : Domain)
    → lookup name s.by_domain ≡ some id
    → lookup id s.domains ≡ some d
    → d.deleted_at ≡ none
    → is_taken name s ≡ true
unfolding is_taken
is_taken_of_live s name id d at found on =
    rw (at, is_taken) (rw (found, lookup_or) (rw (on, is_live)))

module _ (src : Source) where
  -- `Delete` keeps the indexes of the registry consistent.
  delete-IsConsistent :
      (id : String) (s : Store) → IsConsistent s → IsConsistent (delete src id s).0
  unfolding delete
  delete-IsConsistent id s h = elim (Option-cases (lookup id s.domains)) [
    | inl missing ↦ rw (missing, delete) h
    | inr (d, found) ↦ rw (found, delete) (IsConsistent-overwrite id d _ found refl (λ e. cc) h)
  ]

  -- `MarkVerified` keeps the indexes of the registry consistent.
  mark_verified-IsConsistent :
      (id token : String) (s : Store)
      → IsConsistent s
      → IsConsistent (mark_verified src id token s).0
  unfolding mark_verified
  mark_verified-IsConsistent id token s h = elim (Option-cases (lookup id s.verifications)) [
    | inl missing ↦ rw (missing, mark_verified) h
    | inr (v, asked) ↦ elim (Bool-cases (src.digest token == v.token_hash)) [
      | inr wrong ↦ rw (asked, wrong, mark_verified) h
      | inl right ↦
          let (d, found) = h.verifiable id v asked in
          rw (asked, right, mark_verified)
            (IsConsistent-overwrite id _ _ (lookup_or-found id d s.domains found) refl (λ e. e) h)
    ]
  ]

  -- `VerificationToken` keeps the indexes of the registry consistent.
  verification_token-IsConsistent :
      (id : String) (s : Store) → IsConsistent s → IsConsistent (verification_token src id s).0
  unfolding verification_token
  verification_token-IsConsistent id s h = elim (Option-cases (lookup id s.domains)) [
    | inl missing ↦ rw (missing, verification_token) h
    | inr (d, found) ↦ elim (Bool-cases (is_live d)) [
      | inr gone ↦ rw (found, gone, verification_token) h
      | inl live ↦ elim (Result-cases (src.random_token s.drawn)) [
        | inl (m, fault) ↦
            rw (found, live, fault, verification_token)
              (record {
                indexed = h.indexed;
                live_indexed = h.live_indexed;
                verifiable = h.verifiable;
              })
        | inr (token, drawn) ↦
            rw (found, live, drawn, verification_token)
              (record {
                indexed = h.indexed;
                live_indexed = h.live_indexed;
                verifiable = λ j v at. elim (lookup-insert_cases j id _ s.verifications at) [
                  | inl (here, now) ↦ (d, rw (← here) found)
                  | inr (there, before) ↦ h.verifiable j v before
                ];
              })
      ]
    ]
  ]

  -- An insertion under an identifier that is not in use, for a name that no live domain has.
  create_step-IsConsistent :
      (id : String) (d : Domain) (s : Store) (n : ℕ)
      → lookup id s.domains ≡ none
      → is_taken d.domain s ≡ false
      → IsConsistent s
      → IsConsistent (record s {
        domains = insert id d s.domains;
        by_domain = insert d.domain id s.by_domain;
        drawn = n;
      })
  create_step-IsConsistent id d s n fresh free h = record {
    indexed = λ name j at. elim (lookup-insert_cases name d.domain id s.by_domain at) [
      | inl (here, now) ↦ (d, rw (← now) (lookup-insert_self id d s.domains), here)
      | inr (there, before) ↦
          let (e, stored, named) = h.indexed name j before in
          elim (same_or_not id j) [
            | inl clash ↦ cc (clash, fresh, stored)
            | inr other ↦ (e, lookup-insert_ne d s.domains other ∙ stored, named)
          ]
    ];
    live_indexed = λ j e at on. elim (lookup-insert_cases j id d s.domains at) [
      | inl (here, now) ↦ rw (← now, ← here) (lookup-insert_self d.domain id s.by_domain)
      | inr (there, before) ↦
          let old = h.live_indexed j e before on in
          elim (same_or_not d.domain e.domain) [
            | inr other ↦ lookup-insert_ne id s.by_domain other ∙ old
            | inl clash ↦ cc (
              is_taken_of_live s d.domain j e (ap (λ k. lookup k s.by_domain) clash ∙ old) before
                  on,
              free,
            )
          ]
    ];
    verifiable = λ j v at.
        let (e, stored) = h.verifiable j v at in
        elim (same_or_not id j) [
          | inl clash ↦ cc (clash, fresh, stored)
          | inr other ↦ (e, lookup-insert_ne d s.domains other ∙ stored)
        ];
  }

  check_new-free :
      (d : Domain) (wildcard : Bool) (s : Store) (u : Unit {0})
      → check_new d wildcard s ≡ ok u
      → is_taken (registered_name d.domain) s ≡ false
  unfolding check_new
  check_new-free d wildcard s u h = ground arith

  -- `Create` keeps the indexes of the registry consistent if the identifier that it draws is not in
  -- use.
  pub create-IsConsistent :
      (d : Domain) (wildcard : Bool) (s : Store)
      → lookup (src.random_id s.drawn) s.domains ≡ none
      → IsConsistent s
      → IsConsistent (create src d wildcard s).0
  unfolding create new_domain
  create-IsConsistent d wildcard s fresh h = elim (Result-cases (check_new d wildcard s)) [
    | inl (m, refused) ↦ rw (refused, create) h
    | inr (u, admitted) ↦
        rw (admitted, create)
          (create_step-IsConsistent _ _ s _ fresh (check_new-free d wildcard s u admitted) h)
  ]

pub get-eq-some :
    (id : String) (s : Store) (d : Domain)
    → get id s ≡ some d
    → (lookup id s.domains ≡ some d) × (d.deleted_at ≡ none)
unfolding get
get-eq-some id s d h = (ground arith, ground arith)

-- In a consistent registry two domains that `Get` returns and that have one name are the same
-- domain under the same identifier.
pub live_name_unique :
    (s : Store) (i j : String) (d e : Domain)
    → IsConsistent s
    → get i s ≡ some d
    → get j s ≡ some e
    → d.domain ≡ e.domain
    → (i ≡ j) × (d ≡ e)
live_name_unique s i j d e h at at' same =
    let (here, on) = get-eq-some i s d at in
    let (there, on') = get-eq-some j s e at' in
    let first = h.live_indexed i d here on in
    let second = h.live_indexed j e there on' in
    let ids : i ≡ j = cc (first, second, same) in (ids, cc (here, there, ids))
