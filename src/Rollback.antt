-- ===== src/Rollback.antt =====
-- Rollback records, internal/stackforge/rollback/rollback.go. The format of a time is a parameter.
pub mod Guards
use Prim.Native.String.{◌++◌ as ◌<>◌}
use stack_forge.Base.{
  from_error, ℕ, String, Bool, not, Option, none, some, List, [], ◌∷◌, eqb, if◌then◌else◌, ◌==◌,
  Result, ok, err,
}
use stack_forge.Paths.{join_path}
use stack_forge.Host.{Codec, Host, Files, read_path, write_file}

pub record Record : Type 0 where
  pub id : String
  pub node : String
  pub node_address : String
  pub component : String
  pub changed_files : List String
  pub backup_files : List String
  pub restore_command : String
  pub manual_instructions : String
  pub created_at : ℕ
  pub reason : String
  pub status : String
  pub safe_automatic : Bool

pub record ApplyReport : Type 0 where
  pub id : String
  pub status : String
  pub warnings : List String
  pub applied_at : ℕ

-- What `Apply` returns: a report unless the record or the confirmation is missing, and an error.
pub record Applied : Type 0 where
  pub report : Option ApplyReport
  pub error : Option String

-- `Executor.Run` for a node and a command: the text on standard error, and an error.
abbrev pub Executor : Type 0 → Type 0
Executor S = String → String → S → S × (String × Option String)

-- `filepath.Join(stateDir, "rollback", id+".json")`
abbrev pub record_path : String → String → String
record_path state_dir id = join_path (state_dir ∷ "rollback" ∷ (id <> ".json") ∷ [])

module _ (codec : Codec Record) (host : Host codec.Bytes) (format_time : ℕ → String) where
  -- `NewID`
  unfoldable pub new_id : String → String → String
  new_id node component = format_time host.now <> ("-" <> (node <> ("-" <> component)))

  -- The record with the defaults of `Save`.
  unfoldable pub completed : Record → Record
  completed r = record r {
    id = if r.id == "" then new_id r.node r.component else r.id;
    created_at = if eqb r.created_at 0 then host.now else r.created_at;
    status = if r.status == "" then "available" else r.status;
  }

  -- `Save`
  unfoldable pub save : String → Record → Files codec.Bytes → Files codec.Bytes × Result (Unit {0})
  save state_dir r files =
      let out = completed r in
      elim (host.mkdir_fault (join_path (state_dir ∷ "rollback" ∷ []))) [
        | some e ↦ (files, err e)
        | none ↦ elim (codec.encode out) [
          | err e ↦ (files, err e)
          | ok b ↦
              let (files', fault) = write_file host (record_path state_dir out.id) b files in
              (files', from_error fault)
        ]
      ]

  -- `Load`
  unfoldable pub load : String → String → Files codec.Bytes → Result Record
  load state_dir id files = elim (read_path (record_path state_dir id) files) [
    | none ↦ err "file does not exist"
    | some b ↦ elim (host.read_fault (record_path state_dir id)) [
      | some e ↦ err e
      | none ↦ codec.decode b
    ]
  ]

  -- A report beside an error.
  abbrev pub stopped : String → String → List String → String → Applied
  stopped id status warnings error = record {
    report = some (record { id = id; status = status; warnings = warnings; applied_at = host.now });
    error = some error;
  }

  module _ {S : Type 0} where
    -- From the call of the executor on.
    unfoldable pub restore :
        String
        → String
        → Record
        → Executor S
        → Files codec.Bytes
        → S
        → (Files codec.Bytes × S) × Applied
    restore state_dir id r run files s =
        let (s', (stderr, fault)) = run r.node_address r.restore_command s in
        elim fault [
          | some e ↦ ((files, s'), stopped id "failed" (stderr ∷ []) e)
          | none ↦ (
            ((save state_dir (record r { status = "applied" }) files).0, s'),
            record {
              report =
                  some
                    (record { id = id; status = "applied"; warnings = []; applied_at = host.now });
              error = none;
            },
          )
        ]

    -- `Apply`; the executor may be nil.
    unfoldable pub apply :
        String
        → String
        → Bool
        → Option (Executor S)
        → Files codec.Bytes
        → S
        → (Files codec.Bytes × S) × Applied
    apply state_dir id confirmed exec files s = elim (load state_dir id files) [
      | err e ↦ ((files, s), record { report = none; error = some e })
      | ok r ↦
          if not confirmed
          then (
            (files, s),
            record {
              report = none;
              error = some ("rollback apply requires --yes after reviewing rollback " <> id);
            },
          )
          else if not r.safe_automatic
          then (
            (files, s),
            stopped id "refused" (r.manual_instructions ∷ []) (
                "rollback "
                <> (id <> (" is not safe for automatic apply: " <> r.manual_instructions))),
          )
          else elim exec [
            | none ↦ (
              (files, s),
              stopped id "refused"
                  ("no live executor configured; provide --config so StackForge can connect to the node"
                    ∷ [])
                  ("rollback " <> (id <> " requires live executor context")),
            )
            | some run ↦
                if r.node_address == ""
                then (
                  (files, s),
                  stopped id "refused" ("rollback record is missing node_address" ∷ [])
                      ("rollback " <> (id <> " is missing node address")),
                )
                else restore state_dir id r run files s
          ]
    ]
