-- ===== src/Sql/Tokens.antt =====
-- Verification tokens in the SQLite store, where the database works.
use stack_forge.Base.{
  ℕ, ◌+◌, String, ◌≡◌, inl, inr, refl, ◌∙◌, none, some, Option-cases, Result-cases, List, [], ◌∷◌,
  arith, ok, eq_refl, ok-injective,
}
use stack_forge.Registry.{Domain, Source, Verification, new_verification}
use stack_forge.Sql.{Proof, Tables, Engine, get, proof_of, record_proof}
use stack_forge.Sql.Sqlite.{
  token_hash_of, replace_proof, store_proof, verification_token, mark_verified, read_hash,
}

abbrev pub Works : Engine → Type 0
Works engine = (n : ℕ) → engine.fault n ≡ none

token_hash_of-replace_proof :
    (p : Proof) (proofs : List Proof)
    → token_hash_of p.domain_id (replace_proof p proofs) ≡ some p.token_hash
unfolding token_hash_of replace_proof
token_hash_of-replace_proof p [] = rw eq_refl refl
token_hash_of-replace_proof p (q ∷ proofs) =
    let rest = token_hash_of-replace_proof p proofs in ground (arith, eq_refl p.domain_id)

module _ (src : Source) (engine : Engine) (works : Works engine) where
  get-same :
      (key : String) (t t' : Tables)
      → t'.domains ≡ t.domains
      → (get engine key t').1 ≡ (get engine key t).1
  unfolding get
  get-same key t t' same = rw (works t.sent, works t'.sent, same) refl

  record_proof-ok : (now : ℕ) (id : String) (t : Tables) → (record_proof engine now id t).1 ≡ ok tt
  unfolding record_proof
  record_proof-ok now id t = rw (record_proof, works t.sent) refl

  store_proof-ok :
      (p : Proof) (t : Tables)
      → (store_proof src engine p t).1 ≡ none
      → ((store_proof src engine p t).0.domains ≡ t.domains)
        × (token_hash_of p.domain_id (store_proof src engine p t).0.verifications
            ≡ some p.token_hash)
  unfolding store_proof
  store_proof-ok p t stored =
      let once = works t.sent in
      let reads = token_hash_of-replace_proof p t.verifications in (ground arith, ground arith)

  -- What a drawn token leaves behind.
  abbrev IsDrawn : String → Tables → Verification → Tables → Type 0
  IsDrawn key t v t' =
      (d : Domain) × ((get engine key t).1 ≡ some d)
      × (t'.domains ≡ t.domains)
      × (token_hash_of d.id t'.verifications ≡ some (src.digest v.token))

  verification_token-IsDrawn :
      (key : String) (t : Tables) (v : Verification)
      → (verification_token src engine key t).1 ≡ ok v
      → IsDrawn key t v (verification_token src engine key t).0
  unfolding verification_token new_verification proof_of get
  verification_token-IsDrawn key t v h = elim (Option-cases (get engine key t).1) [
    | inl missing ↦ cc (rw (verification_token, missing) at h)
    | inr (d, found) ↦ elim (Result-cases (src.random_token (get engine key t).0.drawn)) [
      | inl (e, broken) ↦ cc (rw (verification_token, found, broken) at h)
      | inr (token, drawn) ↦
          let t1 = (get engine key t).0 in
          let w = new_verification src d.id d token in
          let p = proof_of (src.random_id (t1.drawn + 1)) w in
          let t3 = record t1 { drawn = t1.drawn + 1 + 1 } in
          elim (Option-cases (store_proof src engine p t3).1) [
            | inr (e, fault) ↦ cc (rw (verification_token, found, drawn, fault) at h)
            | inl stored ↦
                let (kept, reads) = store_proof-ok p t3 stored in
                let same : w ≡ v =
                  ok-injective (rw (verification_token, found, drawn, stored) at h) in
                (
                  d,
                  found,
                  rw (verification_token, found, drawn) kept,
                  rw (verification_token, found, drawn, ← same) reads,
                )
          ]
    ]
  ]

  verify_known :
      (key token : String) (t : Tables) (d : Domain)
      → (get engine key t).1 ≡ some d
      → token_hash_of d.id t.verifications ≡ some (src.digest token)
      → (mark_verified src engine key token t).1 ≡ ok tt
  unfolding mark_verified read_hash get
  verify_known key token t d found known =
      rw (mark_verified, found, read_hash, works (t.sent + 1), known, eq_refl)
        (record_proof-ok src.now d.id _)

  -- The token that `VerificationToken` of the SQLite store returns is one that `MarkVerified`
  -- accepts next, for the same key, where no statement fails.
  pub mark_verified-token :
      (key : String) (t : Tables) (v : Verification)
      → (verification_token src engine key t).1 ≡ ok v
      → (mark_verified src engine key v.token (verification_token src engine key t).0).1 ≡ ok tt
  mark_verified-token key t v h =
      let (d, found, same, known) = verification_token-IsDrawn key t v h in
      verify_known key v.token _ d (get-same key t _ same ∙ found) known
