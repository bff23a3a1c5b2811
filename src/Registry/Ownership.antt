-- ===== src/Registry/Ownership.antt =====
-- The steps of the registry, and the tokens that verify the ownership of a domain.
use stack_forge.Base.{
  ℕ, ◌+◌, String, ◌≡◌, ◌≢◌, ◌↔◌, refl, sym, ◌∙◌, ap, Bool, true, inl, inr, Bool-cases, some,
  Option-cases, arith, ok, Result-cases, ◌==◌, eq_iff, ok-injective,
}
use stack_forge.Maps.{
  StringMap, lookup, insert, lookup_or, lookup-insert_self, lookup-insert_ne, lookup-insert_cases,
  same_or_not,
}
use stack_forge.Registry.{
  Domain, empty_domain, Verification, Source, Store, new_store, is_live, check_new, new_domain,
  new_verification, create, delete, verification_token, mark_verified, get,
}

module _ (src : Source) where
  -- One call of a method that changes the registry.
  pub data Step (s : Store) : Store → Type 0 where
    created : (d : Domain) (wildcard : Bool) → Step s (create src d wildcard s).0
    deleted : (id : String) → Step s (delete src id s).0
    asked : (id : String) → Step s (verification_token src id s).0
    marked : (id token : String) → Step s (mark_verified src id token s).0

  pub data Reach : Store → Type 0 where
    start : Reach new_store
    next : {s t : Store} → Reach s → Step s t → Reach t

  -- A domain that counts as verified has a verification on record.
  abbrev pub IsProven : Store → Type 0
  IsProven s =
      (id : String) (d : Domain)
      → lookup id s.domains ≡ some d
      → d.ownership_status ≡ "verified"
      → (v : Verification) × (lookup id s.verifications ≡ some v)

  pending-ne-verified : ◌≢◌ {A = String} "pending" "verified"
  pending-ne-verified = ground (arith, eq_iff "pending" "verified")

  -- A domain overwritten or added, with the verifications as they were.
  IsProven-insert :
      (s : Store) (id : String) (d : Domain) (names : StringMap String) (n : ℕ)
      → (d.ownership_status ≡ "verified"
          → (v : Verification) × (lookup id s.verifications ≡ some v))
      → IsProven s
      → IsProven (record s { domains = insert id d s.domains; by_domain = names; drawn = n })
  IsProven-insert s id d names n own h j e at proven =
      elim (lookup-insert_cases j id d s.domains at) [
        | inl (here, now) ↦ let (v, known) = own (cc (now, proven)) in (v, rw (← here) known)
        | inr (there, before) ↦ h j e before proven
      ]

  create-IsProven :
      (d : Domain) (wildcard : Bool) (s : Store) → IsProven s → IsProven (create src d wildcard s).0
  unfolding create new_domain
  create-IsProven d wildcard s h = elim (Result-cases (check_new d wildcard s)) [
    | inl (m, refused) ↦ rw (refused, create) h
    | inr (u, admitted) ↦
        rw (admitted, create)
          (IsProven-insert s (src.random_id s.drawn) (new_domain src (src.random_id s.drawn) d)
            (insert (new_domain src (src.random_id s.drawn) d).domain (src.random_id s.drawn)
              s.by_domain)
            (s.drawn + 1) (λ e. absurd (pending-ne-verified e)) h)
  ]

  delete-IsProven : (id : String) (s : Store) → IsProven s → IsProven (delete src id s).0
  unfolding delete
  delete-IsProven id s h = elim (Option-cases (lookup id s.domains)) [
    | inl missing ↦ rw (missing, delete) h
    | inr (d, found) ↦
        rw (found, delete)
          (IsProven-insert s id
            (record d {
              deleted_at = some src.now;
              routing_status = "disabled";
              updated_at = src.now;
            })
            s.by_domain s.drawn (h id d found) h)
  ]

  mark_verified-IsProven :
      (id token : String) (s : Store) → IsProven s → IsProven (mark_verified src id token s).0
  unfolding mark_verified
  mark_verified-IsProven id token s h = elim (Option-cases (lookup id s.verifications)) [
    | inl missing ↦ rw (missing, mark_verified) h
    | inr (v, known) ↦ elim (Bool-cases (src.digest token == v.token_hash)) [
      | inr wrong ↦ rw (known, wrong, mark_verified) h
      | inl right ↦
          rw (known, right, mark_verified)
            (IsProven-insert s id
              (record (lookup_or empty_domain id s.domains) {
                ownership_status = "verified";
                updated_at = src.now;
              })
              s.by_domain s.drawn (λ e. (v, known)) h)
    ]
  ]

  IsProven-ask :
      (s : Store) (id : String) (v : Verification) (n : ℕ)
      → IsProven s
      → IsProven (record s { verifications = insert id v s.verifications; drawn = n })
  IsProven-ask s id v n h j e at proven = elim (same_or_not id j) [
    | inl here ↦ (v, rw (← here) (lookup-insert_self id v s.verifications))
    | inr there ↦
        let (u, known) = h j e at proven in (u, lookup-insert_ne v s.verifications there ∙ known)
  ]

  verification_token-IsProven :
      (id : String) (s : Store) → IsProven s → IsProven (verification_token src id s).0
  unfolding verification_token
  verification_token-IsProven id s h = elim (Option-cases (lookup id s.domains)) [
    | inl missing ↦ rw (missing, verification_token) h
    | inr (d, found) ↦ elim (Bool-cases (is_live d)) [
      | inr gone ↦ rw (found, gone, verification_token) h
      | inl live ↦ elim (Result-cases (src.random_token s.drawn)) [
        | inl (m, fault) ↦ rw (found, live, fault, verification_token) h
        | inr (token, drawn) ↦
            rw (found, live, drawn, verification_token)
              (IsProven-ask s id (new_verification src id d token) (s.drawn + 1) h)
      ]
    ]
  ]

  Step-IsProven : {s t : Store} → Step s t → IsProven s → IsProven t
  Step-IsProven {s} (created d wildcard) h = create-IsProven d wildcard s h
  Step-IsProven {s} (deleted id) h = delete-IsProven id s h
  Step-IsProven {s} (asked id) h = verification_token-IsProven id s h
  Step-IsProven {s} (marked id token) h = mark_verified-IsProven id token s h

  IsProven-new_store : IsProven new_store
  unfolding lookup
  IsProven-new_store id d at proven = cc

  -- In every registry that the methods build from the empty one, a domain whose ownership is
  -- verified has had a verification token drawn for it.
  pub Reach-IsProven :
      (s : Store)
      → Reach s
      → (id : String) (d : Domain) → lookup id s.domains ≡ some d
      → d.ownership_status ≡ "verified"
      → (v : Verification) × (lookup id s.verifications ≡ some v)
  Reach-IsProven _ start = IsProven-new_store
  Reach-IsProven _ (next r step) = Step-IsProven step (Reach-IsProven _ r)

  -- `MarkVerified` succeeds exactly for a token with the digest that is on record.
  mark_verified_iff :
      (id token : String) (s : Store)
      → ((mark_verified src id token s).1 ≡ ok tt) ↔ (
          (v : Verification) × (lookup id s.verifications ≡ some v)
          × (src.digest token ≡ v.token_hash))
  unfolding mark_verified
  mark_verified_iff id token s = elim (Option-cases (lookup id s.verifications)) [
    | inl missing ↦ rw (missing, mark_verified) (λ h. cc, λ (v, known, same). cc)
    | inr (v, known) ↦ elim (Bool-cases (src.digest token == v.token_hash)) [
      | inr wrong ↦
          rw (known, wrong, mark_verified)
            (
              λ h. cc,
              λ (u, now, same).
                  cc (wrong, (eq_iff (src.digest token) v.token_hash).1 (cc (now, same))),
            )
      | inl right ↦
          rw (known, right, mark_verified)
            (λ h. (v, refl, (eq_iff (src.digest token) v.token_hash).0 right), λ h. refl)
    ]
  ]

  -- What `VerificationToken` leaves when it succeeds.
  drawn_token :
      (id : String) (s s' : Store) (v : Verification)
      → verification_token src id s ≡ (s', ok v)
      → (d : Domain) × (lookup id s'.domains ≡ some d)
        × (is_live d ≡ true)
        × (lookup id s'.verifications ≡ some v)
        × (src.digest v.token ≡ v.token_hash)
  unfolding verification_token new_verification
  drawn_token id s s' v h = elim (Option-cases (lookup id s.domains)) [
    | inl missing ↦ cc (rw (missing, verification_token) at h)
    | inr (d, found) ↦ elim (Bool-cases (is_live d)) [
      | inr gone ↦ cc (rw (found, gone, verification_token) at h)
      | inl live ↦ elim (Result-cases (src.random_token s.drawn)) [
        | inl (m, fault) ↦ cc (rw (found, live, fault, verification_token) at h)
        | inr (token, drawn) ↦
            let k = rw (found, live, drawn, verification_token) at h in
            let left = ap (λ p. p.0) k in
            let made = ok-injective (ap (λ p. p.1) k) in
            (
              d,
              ap (λ t. lookup id t.domains) (sym left) ∙ found,
              live,
              ap (λ t. lookup id t.verifications) (sym left)
                  ∙ (lookup-insert_self id (new_verification src id d token) s.verifications
                      ∙ ap some made),
              ap (λ u. src.digest u.token) (sym made) ∙ ap (λ u. u.token_hash) made,
            )
      ]
    ]
  ]

  marks :
      (id token : String) (s : Store) (v : Verification) (d : Domain)
      → lookup id s.domains ≡ some d
      → is_live d ≡ true
      → lookup id s.verifications ≡ some v
      → src.digest token ≡ v.token_hash
      → (e : Domain) × (get id (mark_verified src id token s).0 ≡ some e)
        × (e.ownership_status ≡ "verified")
  unfolding mark_verified get
  marks id token s v d found live known same =
      let e = record d { ownership_status = "verified"; updated_at = src.now } in
      rw
        (
          known,
          (eq_iff (src.digest token) v.token_hash).1 same,
          found,
          mark_verified,
          get,
          lookup_or,
        )
        (rw (lookup-insert_self id e s.domains) (rw live (e, refl, refl)))

  -- When `VerificationToken` returns a token for a domain, `MarkVerified` with that token makes
  -- `Get` return the domain with its ownership verified.
  pub mark_verified-verification_token :
      (id : String) (s s' : Store) (v : Verification)
      → verification_token src id s ≡ (s', ok v)
      → (d : Domain) × (get id (mark_verified src id v.token s').0 ≡ some d)
        × (d.ownership_status ≡ "verified")
  mark_verified-verification_token id s s' v h =
      let (d, found, live, known, same) = drawn_token id s s' v h in
      marks id v.token s' v d found live known same
