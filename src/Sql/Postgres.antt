-- ===== src/Sql/Postgres.antt =====
-- `PostgresStore` of internal/controlplane/domain/postgres.go: the methods that differ from those
-- of the other SQL store. `Get`, `List` and `Delete` send the statements of the parent module.
use stack_forge.Base.{
  ◌+◌, String, Bool, not, Option, none, some, List, [], ◌∷◌, ltb, if◌then◌else◌, ◌==◌, Result, ok,
  err,
}
use stack_forge.Registry.{Domain, Verification, Source, new_domain, new_verification}
use stack_forge.Sql.{
  Proof, Tables, Engine, count_sent, row_of, proof_of, insert_domain, get, record_proof,
}
use stack_forge.Sql.Sqlite.{check_new}

-- `nullString`
unfoldable pub null_string : String → Option String
null_string s = if s == "" then none else some s

-- `ON CONFLICT (id) DO UPDATE`: the row of that identifier keeps its domain.
unfoldable pub put_proof : Proof → List Proof → List Proof
put_proof new [] = new ∷ []
put_proof new (p ∷ proofs) =
    if p.id == new.id
    then record p {
      txt_name = new.txt_name;
      token_hash = new.token_hash;
      created_at = new.created_at;
      verified_at = none;
    }
      ∷ proofs
    else p ∷ put_proof new proofs

-- `ORDER BY created_at DESC LIMIT 1`; of rows with one time the first, which SQL leaves open.
unfoldable pub latest_proof : String → List Proof → Option Proof
latest_proof id [] = none
latest_proof id (p ∷ proofs) =
    let rest = latest_proof id proofs in
    if p.domain_id == id
    then elim rest [
      | none ↦ some p
      | some q ↦ if ltb p.created_at q.created_at then some q else some p
    ]
    else rest

module _ (src : Source) (engine : Engine) where
  -- `Create`; the row takes the time of deletion that the caller gives.
  unfoldable pub create : Domain → Bool → Tables → Tables × Result Domain
  create d allow_wildcard t = elim (check_new d allow_wildcard) [
    | err m ↦ (t, err m)
    | ok _ ↦
        let new = new_domain src (src.random_id t.drawn) d in
        let (t', fault) =
          insert_domain engine (row_of null_string new.deleted_at new)
            (record t { drawn = t.drawn + 1 }) in
        (t', elim fault [ some e ↦ err e | none ↦ ok new ])
  ]

  -- `INSERT INTO domain_verifications`
  unfoldable pub store_proof : Proof → Tables → Tables × Option String
  store_proof new t = elim (engine.fault t.sent) [
    | some e ↦ (count_sent t, some e)
    | none ↦ (record (count_sent t) { verifications = put_proof new t.verifications }, none)
  ]

  -- `VerificationToken`; callers ignore the value that the code returns beside an error.
  unfoldable pub verification_token : String → Tables → Tables × Result Verification
  verification_token key t =
      let (t1, found) = get engine key t in
      elim found [
        | none ↦ (t1, err "domain not found")
        | some d ↦
            let t2 = record t1 { drawn = t1.drawn + 1 } in
            elim (src.random_token t1.drawn) [
              | err m ↦ (t2, err m)
              | ok token ↦
                  let v = new_verification src d.id d token in
                  let (t3, fault) =
                    store_proof (proof_of (src.random_id t2.drawn) v)
                      (record t2 { drawn = t2.drawn + 1 }) in
                  (t3, elim fault [ some e ↦ err e | none ↦ ok v ])
            ]
      ]

  -- `SELECT token_hash … WHERE domain_id=$1`
  unfoldable pub read_proof : String → Tables → Option Proof
  read_proof id t = elim (engine.fault t.sent) [
    | some e ↦ none
    | none ↦ latest_proof id t.verifications
  ]

  -- `MarkVerified`
  unfoldable pub mark_verified : String → String → Tables → Tables × Result (Unit {0})
  mark_verified key token t =
      let (t1, found) = get engine key t in
      elim found [
        | none ↦ (t1, err "domain not found")
        | some d ↦
            let t2 = count_sent t1 in
            elim (read_proof d.id t1) [
              | none ↦ (t2, err "verification token not generated")
              | some p ↦
                  if not (src.digest token == p.token_hash)
                  then (t2, err "verification token mismatch")
                  else record_proof engine src.now d.id t2
            ]
      ]
