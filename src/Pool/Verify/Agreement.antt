-- ===== src/Pool/Verify/Agreement.antt =====
-- The resolvers that `VerifyDNSWithOptions` asks, and the entry that it returns.
use stack_forge.Base.{
  ℕ, suc, String, ◌≡◌, ◌↔◌, refl, ◌⊎◌, inl, inr, none, List, [], ◌∷◌, set, All, ok, Result-cases,
}
use stack_forge.Host.{Host, Codec}
use stack_forge.Pool.{Entry, Store, World, save, find}
use stack_forge.Pool.Verify.{
  Resolver, VerifyOptions, verify_entry, chosen, failures_from, verify_dns,
}

abbrev pub Confirms : Entry → Resolver → Type 0
Confirms e r = verify_entry e r ≡ ok tt

List-cases : {A : Type 0} (xs : List A) → (xs ≡ []) ⊎ ((y : A) × (ys : List A) × (xs ≡ y ∷ ys))
List-cases [] = inl refl
List-cases (y ∷ ys) = inr (y, ys, refl)

failures_from-eq-nil :
    (names : List String) (e : Entry) (i : ℕ) (rs : List Resolver)
    → (failures_from names e i rs ≡ []) ↔ All (Confirms e) rs
unfolding failures_from
failures_from-eq-nil names e i [] = (λ h. tt, λ h. refl)
failures_from-eq-nil names e i (r ∷ rs) =
    let (to, from) = failures_from-eq-nil names e (suc i) rs in
    elim (Result-cases (verify_entry e r)) [
      | inl (m, bad) ↦ rw (bad, failures_from) (λ h. cc, λ h. cc)
      | inr (u, good) ↦ rw (good, failures_from) (λ h. (refl, to h), λ h. from h.1)
    ]

-- The verified form of an entry.
abbrev pub verified : ℕ → Entry → Entry
verified now e = record e {
  dns_status = "verified";
  verification_status = "verified";
  last_error = "";
  updated_at = now;
}

module _ {S : Type 0} (codec : Codec Store) (host : Host codec.Bytes) (net : Resolver) where
  -- For a domain that is found, `VerifyDNSWithOptions` marks the entry verified without an error
  -- exactly when every resolver confirms it and the pool can be saved.
  pub verify_dns_iff :
      (opts : VerifyOptions) (w : World codec.Bytes S) (e : Entry) (i : ℕ) (s : Store)
      → find codec host opts.path opts.domain w ≡ ok (e, i, s)
      → ((verify_dns codec host net opts w).1
          ≡ record { entry = verified host.now e; error = none })
        ↔ (All (Confirms e) (chosen net opts.resolvers)
            × ((save codec host opts.path
                  (record { entries = set s.entries i (verified host.now e) })
                  w).1
                ≡ ok tt))
  unfolding verify_dns
  verify_dns_iff opts w e i s found =
      let (to, from) = failures_from-eq-nil opts.names e 0 (chosen net opts.resolvers) in
      rw (found, verify_dns)
        (elim (List-cases (failures_from opts.names e 0 (chosen net opts.resolvers))) [
          | inr (m, ms, some_failed) ↦ rw (some_failed, verify_dns) (λ h. cc, λ h. cc (from h.0))
          | inl all_fine ↦
              rw (all_fine, verify_dns)
                (elim (Result-cases
                  (save codec host opts.path
                    (record { entries = set s.entries i (verified host.now e) }) w).1) [
                      | inl (m, bad) ↦ rw (bad, verify_dns) (λ h. cc, λ h. cc h.1)
                      | inr (u, good) ↦ rw (good, verify_dns) (λ h. (to all_fine, refl), λ h. refl)
                    ])
        ])
