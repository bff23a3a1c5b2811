-- ===== src/Sql/Stores.antt =====
-- The two SQL stores of internal/controlplane/domain as implementations of `Repository`.
use stack_forge.Base.{
  ◌+◌, String, ◌≡◌, inl, inr, refl, ap, Bool, none, some, Option-cases, Bool-cases, Result-cases,
  arith, ◌==◌,
}
use stack_forge.Registry.{Domain, Source, new_domain, new_verification}
use stack_forge.Sql.{Proof, Tables, Engine, get, delete, row_of, proof_of, scan_domain, count_sent}
use stack_forge.Sql.Sqlite
use stack_forge.Sql.Sqlite.{check_new}
use stack_forge.Sql.Postgres
use stack_forge.Sql.Catalogue.{find_named}
use stack_forge.Sql.Refinement.{
  live_view, view, insert_domain-Leaves, get-view, delete-Leaves, record_proof-Leaves,
}
use stack_forge.Sql.Repository.{Repository, Implements, Outcome, Created, Drawn, Proven}

module _ (src : Source) (engine : Engine) where
  abbrev pub sqlite_store : Repository Tables
  sqlite_store = record {
    create = Sqlite.create src engine;
    get = get engine;
    delete = delete engine src.now;
    verification_token = Sqlite.verification_token src engine;
    mark_verified = Sqlite.mark_verified src engine;
  }

  abbrev pub postgres_store : Repository Tables
  postgres_store = record {
    create = Postgres.create src engine;
    get = get engine;
    delete = delete engine src.now;
    verification_token = Postgres.verification_token src engine;
    mark_verified = Postgres.mark_verified src engine;
  }

  get-keeps : (key : String) (t : Tables) → view (get engine key t).0 ≡ view t
  unfolding get
  get-keeps key t = refl

  get-found :
      (key : String) (t : Tables) (d : Domain)
      → (get engine key t).1 ≡ some d
      → find_named key (view t) ≡ some d
  get-found key t d found = elim (get-view engine key t) [
    | inl gone ↦ cc (gone, found)
    | inr same ↦ cc (same, found)
  ]

  sqlite_create-Outcome :
      (d : Domain) (w : Bool) (t : Tables) → Outcome view Created t (Sqlite.create src engine d w t)
  unfolding Sqlite.create row_of scan_domain
  sqlite_create-Outcome d w t = elim (Result-cases (check_new d w)) [
    | inl (e, refused) ↦ inl (e, rw (Sqlite.create, refused) refl, rw (Sqlite.create, refused) refl)
    | inr (u, admitted) ↦
        let new = new_domain src (src.random_id t.drawn) d in
        let r = row_of Sqlite.empty_to_nil none new in
        elim (insert_domain-Leaves engine r (record t { drawn = t.drawn + 1 }) refl) [
          | inl (e, fault, same) ↦
              inl (e, rw (Sqlite.create, admitted, fault) refl, rw (Sqlite.create, admitted) same)
          | inr (works, free, more) ↦ inr (
            new,
            rw (Sqlite.create, admitted, works) refl,
            (scan_domain r, refl, refl, free, rw (Sqlite.create, admitted) more),
          )
        ]
  ]

  sqlite_store_proof-keeps :
      (p : Proof) (t : Tables) → (Sqlite.store_proof src engine p t).0.domains ≡ t.domains
  unfolding Sqlite.store_proof
  sqlite_store_proof-keeps p t = ground arith

  sqlite_token-Outcome :
      (key : String) (t : Tables)
      → Outcome view (Drawn key) t (Sqlite.verification_token src engine key t)
  unfolding Sqlite.verification_token new_verification get
  sqlite_token-Outcome key t = elim (Option-cases (get engine key t).1) [
    | inl missing ↦ inl (
      "domain not found",
      rw (Sqlite.verification_token, missing) refl,
      rw (Sqlite.verification_token, missing) (get-keeps key t),
    )
    | inr (d, found) ↦ elim (Result-cases (src.random_token (get engine key t).0.drawn)) [
      | inl (e, broken) ↦ inl (
        e,
        rw (Sqlite.verification_token, found, broken) refl,
        rw (Sqlite.verification_token, found, broken) (get-keeps key t),
      )
      | inr (token, drawn) ↦
          let t1 = (get engine key t).0 in
          let v = new_verification src d.id d token in
          let p = proof_of (src.random_id (t1.drawn + 1)) v in
          let t3 = record t1 { drawn = t1.drawn + 1 + 1 } in
          let kept = ap live_view (sqlite_store_proof-keeps p t3) in
          elim (Option-cases (Sqlite.store_proof src engine p t3).1) [
            | inr (e, fault) ↦ inl (
              e,
              rw (Sqlite.verification_token, found, drawn, fault) refl,
              rw (Sqlite.verification_token, found, drawn) kept,
            )
            | inl works ↦ inr (
              v,
              rw (Sqlite.verification_token, found, drawn, works) refl,
              (d, get-found key t d found, refl, rw (Sqlite.verification_token, found, drawn) kept),
            )
          ]
    ]
  ]

  sqlite_verify-Outcome :
      (key token : String) (t : Tables)
      → Outcome view (Proven src.now key) t (Sqlite.mark_verified src engine key token t)
  unfolding Sqlite.mark_verified get
  sqlite_verify-Outcome key token t = elim (Option-cases (get engine key t).1) [
    | inl missing ↦ inl (
      "domain not found",
      rw (Sqlite.mark_verified, missing) refl,
      rw (Sqlite.mark_verified, missing) (get-keeps key t),
    )
    | inr (d, found) ↦
        let t1 = (get engine key t).0 in
        elim (Option-cases (Sqlite.read_hash src engine d.id t1)) [
          | inl absent ↦ inl (
            "verification token not generated",
            rw (Sqlite.mark_verified, found, absent) refl,
            rw (Sqlite.mark_verified, found, absent) (get-keeps key t),
          )
          | inr (h, known) ↦ elim (Bool-cases (src.digest token == h)) [
            | inr wrong ↦ inl (
              "verification token mismatch",
              rw (Sqlite.mark_verified, found, known, wrong) refl,
              rw (Sqlite.mark_verified, found, known, wrong) (get-keeps key t),
            )
            | inl right ↦ elim (record_proof-Leaves engine src.now d.id (count_sent t1)) [
              | inl (e, fault, same) ↦ inl (
                e,
                rw (Sqlite.mark_verified, found, known, right, fault) refl,
                rw (Sqlite.mark_verified, found, known, right) same,
              )
              | inr (done, works, changed) ↦ inr (
                done,
                rw (Sqlite.mark_verified, found, known, right, works) refl,
                (
                  d,
                  get-found key t d found,
                  rw (Sqlite.mark_verified, found, known, right) changed,
                ),
              )
            ]
          ]
        ]
  ]

  postgres_create-Outcome :
      (d : Domain) (w : Bool) (t : Tables)
      → d.deleted_at ≡ none
      → Outcome view Created t (Postgres.create src engine d w t)
  unfolding Postgres.create row_of scan_domain new_domain
  postgres_create-Outcome d w t fresh = elim (Result-cases (check_new d w)) [
    | inl (e, refused) ↦
        inl (e, rw (Postgres.create, refused) refl, rw (Postgres.create, refused) refl)
    | inr (u, admitted) ↦
        let new = new_domain src (src.random_id t.drawn) d in
        let r = row_of Postgres.null_string new.deleted_at new in
        elim (insert_domain-Leaves engine r (record t { drawn = t.drawn + 1 }) (rw fresh refl)) [
          | inl (e, fault, same) ↦
              inl
                (e, rw (Postgres.create, admitted, fault) refl, rw (Postgres.create, admitted) same)
          | inr (works, free, more) ↦ inr (
            new,
            rw (Postgres.create, admitted, works) refl,
            (scan_domain r, refl, refl, free, rw (Postgres.create, admitted) more),
          )
        ]
  ]

  postgres_store_proof-keeps :
      (p : Proof) (t : Tables) → (Postgres.store_proof src engine p t).0.domains ≡ t.domains
  unfolding Postgres.store_proof
  postgres_store_proof-keeps p t = ground arith

  postgres_token-Outcome :
      (key : String) (t : Tables)
      → Outcome view (Drawn key) t (Postgres.verification_token src engine key t)
  unfolding Postgres.verification_token new_verification get
  postgres_token-Outcome key t = elim (Option-cases (get engine key t).1) [
    | inl missing ↦ inl (
      "domain not found",
      rw (Postgres.verification_token, missing) refl,
      rw (Postgres.verification_token, missing) (get-keeps key t),
    )
    | inr (d, found) ↦ elim (Result-cases (src.random_token (get engine key t).0.drawn)) [
      | inl (e, broken) ↦ inl (
        e,
        rw (Postgres.verification_token, found, broken) refl,
        rw (Postgres.verification_token, found, broken) (get-keeps key t),
      )
      | inr (token, drawn) ↦
          let t1 = (get engine key t).0 in
          let v = new_verification src d.id d token in
          let p = proof_of (src.random_id (t1.drawn + 1)) v in
          let t3 = record t1 { drawn = t1.drawn + 1 + 1 } in
          let kept = ap live_view (postgres_store_proof-keeps p t3) in
          elim (Option-cases (Postgres.store_proof src engine p t3).1) [
            | inr (e, fault) ↦ inl (
              e,
              rw (Postgres.verification_token, found, drawn, fault) refl,
              rw (Postgres.verification_token, found, drawn) kept,
            )
            | inl works ↦ inr (
              v,
              rw (Postgres.verification_token, found, drawn, works) refl,
              (
                d,
                get-found key t d found,
                refl,
                rw (Postgres.verification_token, found, drawn) kept,
              ),
            )
          ]
    ]
  ]

  postgres_verify-Outcome :
      (key token : String) (t : Tables)
      → Outcome view (Proven src.now key) t (Postgres.mark_verified src engine key token t)
  unfolding Postgres.mark_verified get
  postgres_verify-Outcome key token t = elim (Option-cases (get engine key t).1) [
    | inl missing ↦ inl (
      "domain not found",
      rw (Postgres.mark_verified, missing) refl,
      rw (Postgres.mark_verified, missing) (get-keeps key t),
    )
    | inr (d, found) ↦
        let t1 = (get engine key t).0 in
        elim (Option-cases (Postgres.read_proof src engine d.id t1)) [
          | inl absent ↦ inl (
            "verification token not generated",
            rw (Postgres.mark_verified, found, absent) refl,
            rw (Postgres.mark_verified, found, absent) (get-keeps key t),
          )
          | inr (h, known) ↦ elim (Bool-cases (src.digest token == h.token_hash)) [
            | inr wrong ↦ inl (
              "verification token mismatch",
              rw (Postgres.mark_verified, found, known, wrong) refl,
              rw (Postgres.mark_verified, found, known, wrong) (get-keeps key t),
            )
            | inl right ↦ elim (record_proof-Leaves engine src.now d.id (count_sent t1)) [
              | inl (e, fault, same) ↦ inl (
                e,
                rw (Postgres.mark_verified, found, known, right, fault) refl,
                rw (Postgres.mark_verified, found, known, right) same,
              )
              | inr (done, works, changed) ↦ inr (
                done,
                rw (Postgres.mark_verified, found, known, right, works) refl,
                (
                  d,
                  get-found key t d found,
                  rw (Postgres.mark_verified, found, known, right) changed,
                ),
              )
            ]
          ]
        ]
  ]

  -- Whichever statements fail, a method of the store in SQLite either returns an error and leaves
  -- the live domains as they were, or changes them as the catalogue does: a new domain takes a free
  -- name, a deletion drops what the key names, a token is for the domain that the key finds, and a
  -- verification proves that domain. `Get` finds what the catalogue finds, or nothing. A new domain
  -- is one without a time of deletion.
  pub sqlite_store-Implements : Implements view src.now sqlite_store
  sqlite_store-Implements = record {
    creates = λ d w t fresh. sqlite_create-Outcome d w t;
    gets = λ key t. (get-keeps key t, get-view engine key t);
    deletes = λ key t. delete-Leaves engine src.now key t;
    draws = sqlite_token-Outcome;
    proves = sqlite_verify-Outcome;
  }

  -- Whichever statements fail, a method of the store in PostgreSQL either returns an error and
  -- leaves the live domains as they were, or changes them as the catalogue does: a new domain takes
  -- a free name, a deletion drops what the key names, a token is for the domain that the key finds,
  -- and a verification proves that domain. `Get` finds what the catalogue finds, or nothing. A new
  -- domain is one without a time of deletion.
  pub postgres_store-Implements : Implements view src.now postgres_store
  postgres_store-Implements = record {
    creates = postgres_create-Outcome;
    gets = λ key t. (get-keeps key t, get-view engine key t);
    deletes = λ key t. delete-Leaves engine src.now key t;
    draws = postgres_token-Outcome;
    proves = postgres_verify-Outcome;
  }
