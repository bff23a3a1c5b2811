-- ===== src/Rollback/Guards.antt =====
-- When `Apply` runs the restore command of a record.
use stack_forge.Base.{
  ℕ, String, ◌≡◌, ◌⊎◌, inl, inr, refl, Bool, true, false, Bool-cases, Option, some, Option-cases,
  ◌==◌, ok, Result-cases,
}
use stack_forge.Host.{Codec, Host, Files}
use stack_forge.Rollback.{Record, Executor, load, restore, apply}

module _ (codec : Codec Record) (host : Host codec.Bytes) (format_time : ℕ → String) {S : Type 0}
    (state_dir id : String) (confirmed : Bool) (exec : Option (Executor S))
    (files : Files codec.Bytes) (s : S) where
  -- The record may be applied: it was reviewed, it is meant for automatic use, and there is a node.
  pub record IsCleared (r : Record) (run : Executor S) : Type 0 where
    pub loaded : load codec host format_time state_dir id files ≡ ok r
    pub reviewed : confirmed ≡ true
    pub automatic : r.safe_automatic ≡ true
    pub executor : exec ≡ some run
    pub addressed : r.node_address == "" ≡ false

  restore_state :
      (r : Record) (run : Executor S)
      → (restore codec host format_time state_dir id r run files s).0.1
        ≡ (run r.node_address r.restore_command s).0
  unfolding restore
  restore_state r run = elim (Option-cases (run r.node_address r.restore_command s).1.1) [
    | inl fine ↦ rw (fine, restore) refl
    | inr (e, fault) ↦ rw (fault, restore) refl
  ]

  apply-IsCleared :
      (r : Record) (run : Executor S)
      → IsCleared r run
      → (apply codec host format_time state_dir id confirmed exec files s).0.1
        ≡ (run r.node_address r.restore_command s).0
  unfolding apply
  apply-IsCleared r run h =
      rw (h.loaded, h.reviewed, h.automatic, h.executor, h.addressed, apply) (restore_state r run)

  -- `Apply` of a rollback runs nothing, writes nothing and returns an error, unless the record can
  -- be loaded, the call is confirmed, the record is meant for automatic use, and there are an
  -- executor and an address: then it sends that node the restore command of the record, and nothing
  -- else.
  pub apply_cases :
      ((apply codec host format_time state_dir id confirmed exec files s).0 ≡ (files, s)
        × ((e : String) × ((apply codec host format_time state_dir id confirmed exec files
                s).1.error
              ≡ some e)))
      ⊎ ((r : Record) × ((run : Executor S) × (IsCleared r run
              × ((apply codec host format_time state_dir id confirmed exec files s).0.1
                  ≡ (run r.node_address r.restore_command s).0))))
  unfolding apply
  apply_cases = elim (Result-cases (load codec host format_time state_dir id files)) [
    | inl (e, missing) ↦ inl (rw (missing, apply) (refl, (e, refl)))
    | inr (r, loaded) ↦ elim (Bool-cases confirmed) [
      | inr unread ↦ inl (rw (loaded, unread, apply) (refl, (_, refl)))
      | inl reviewed ↦ elim (Bool-cases r.safe_automatic) [
        | inr manual ↦ inl (rw (loaded, reviewed, manual, apply) (refl, (_, refl)))
        | inl automatic ↦ elim (Option-cases exec) [
          | inl offline ↦ inl (rw (loaded, reviewed, automatic, offline, apply) (refl, (_, refl)))
          | inr (run, executor) ↦ elim (Bool-cases (r.node_address == "")) [
            | inl nowhere ↦
                inl (rw (loaded, reviewed, automatic, executor, nowhere, apply) (refl, (_, refl)))
            | inr addressed ↦
                let cleared : IsCleared r run = record {
                  loaded = loaded;
                  reviewed = reviewed;
                  automatic = automatic;
                  executor = executor;
                  addressed = addressed;
                } in
                inr (r, (run, (cleared, apply-IsCleared r run cleared)))
          ]
        ]
      ]
    ]
  ]
