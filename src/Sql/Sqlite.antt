-- ===== src/Sql/Sqlite.antt =====
-- `SQLiteStore` of internal/controlplane/domain/sqlite.go: the methods that differ from those of
-- the other SQL store. `Get`, `List` and `Delete` send the statements of the parent module.
use stack_forge.Base.{
  ◌+◌, String, Bool, not, ◌&&◌, ◌||◌, Option, none, some, List, [], ◌∷◌, any, eqb, if◌then◌else◌,
  ◌==◌, Result, ok, err, ◌>>◌, fail_if,
}
use stack_forge.Text.{trim_space}
use stack_forge.DomainName.{validate_name}
use stack_forge.Registry.{Domain, Verification, Source, new_domain, new_verification}
use stack_forge.Sql.{
  Proof, Tables, Engine, count_sent, row_of, proof_of, insert_domain, get, record_proof,
}

-- `emptyToNil`
unfoldable pub empty_to_nil : String → Option String
empty_to_nil s = if trim_space s == "" then none else some s

-- The tests of `Create`
unfoldable pub check_new : Domain → Bool → Result (Unit {0})
check_new d allow_wildcard = do
  validate_name d.domain allow_wildcard
  fail_if (d.tenant_id == "" || d.target_service_name == "" || eqb d.target_service_port 0)
      "tenant_id, target_service_name, and target_service_port are required"

-- `ON CONFLICT(domain_id) DO UPDATE`, on the first row of the domain
unfoldable pub replace_proof : Proof → List Proof → List Proof
replace_proof new [] = new ∷ []
replace_proof new (p ∷ proofs) =
    if p.domain_id == new.domain_id then new ∷ proofs else p ∷ replace_proof new proofs

-- The primary key, against the rows of other domains.
unfoldable pub proof_clashes : Proof → List Proof → Bool
proof_clashes new proofs = any (λ p. p.id == new.id && not (p.domain_id == new.domain_id)) proofs

unfoldable pub token_hash_of : String → List Proof → Option String
token_hash_of id [] = none
token_hash_of id (p ∷ proofs) =
    if p.domain_id == id then some p.token_hash else token_hash_of id proofs

module _ (src : Source) (engine : Engine) where
  -- `Create`
  unfoldable pub create : Domain → Bool → Tables → Tables × Result Domain
  create d allow_wildcard t = elim (check_new d allow_wildcard) [
    | err m ↦ (t, err m)
    | ok _ ↦
        let new = new_domain src (src.random_id t.drawn) d in
        let (t', fault) =
          insert_domain engine (row_of empty_to_nil none new) (record t { drawn = t.drawn + 1 }) in
        (t', elim fault [ some e ↦ err e | none ↦ ok new ])
  ]

  -- `INSERT INTO domain_verifications`
  unfoldable pub store_proof : Proof → Tables → Tables × Option String
  store_proof new t = elim (engine.fault t.sent) [
    | some e ↦ (count_sent t, some e)
    | none ↦
        if proof_clashes new t.verifications
        then (count_sent t, some engine.conflict)
        else (record (count_sent t) { verifications = replace_proof new t.verifications }, none)
  ]

  -- `VerificationToken`; callers ignore the value that the code returns beside an error.
  unfoldable pub verification_token : String → Tables → Tables × Result Verification
  verification_token key t =
      let (t1, found) = get engine key t in
      elim found [
        | none ↦ (t1, err "domain not found")
        | some d ↦
            let t2 = record t1 { drawn = t1.drawn + 1 } in
            elim (src.random_token t1.drawn) [
              | err m ↦ (t2, err m)
              | ok token ↦
                  let v = new_verification src d.id d token in
                  let (t3, fault) =
                    store_proof (proof_of (src.random_id t2.drawn) v)
                      (record t2 { drawn = t2.drawn + 1 }) in
                  (t3, elim fault [ some e ↦ err e | none ↦ ok v ])
            ]
      ]

  -- `SELECT token_hash … WHERE domain_id=?`
  unfoldable pub read_hash : String → Tables → Option String
  read_hash id t = elim (engine.fault t.sent) [
    | some e ↦ none
    | none ↦ token_hash_of id t.verifications
  ]

  -- `MarkVerified`
  unfoldable pub mark_verified : String → String → Tables → Tables × Result (Unit {0})
  mark_verified key token t =
      let (t1, found) = get engine key t in
      elim found [
        | none ↦ (t1, err "domain not found")
        | some d ↦
            let t2 = count_sent t1 in
            elim (read_hash d.id t1) [
              | none ↦ (t2, err "verification token not generated")
              | some h ↦
                  if not (src.digest token == h)
                  then (t2, err "verification token mismatch")
                  else record_proof engine src.now d.id t2
            ]
      ]
