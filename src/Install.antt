-- ===== src/Install.antt =====
-- The installer, internal/stackforge/install/install.go: its steps, its report, and what it takes
-- from its surroundings.
pub mod Commands
pub mod Plan
pub mod Services
pub mod Steps
pub mod Start
pub mod Run
pub mod Progress
pub mod Outcome
pub mod Resume
pub mod Recovery
use Prim.Native.String.{◌++◌ as ◌<>◌}
use stack_forge.Base.{
  ℕ, String, Bool, true, false, not, Option, none, some, List, [], ◌∷◌, ◌++◌, is_empty,
  if◌then◌else◌, ◌==◌, Result, ok, err,
}
use stack_forge.Text.{to_upper, is_set}
use stack_forge.Config.{Config}
use stack_forge.Inventory.{Inventory}
use stack_forge.Remote.{Executor}
use stack_forge.Rollback.{Record}
use stack_forge.Secrets.{Secrets, Vault}

pub data Status : Type 0 where
  status_pending : Status
  status_skipped : Status
  status_running : Status
  status_ok : Status
  status_failed : Status
  status_dry_run : Status

-- The text of a status.
unfoldable pub status_text : Status → String
status_text status_pending = "pending"
status_text status_skipped = "skipped"
status_text status_running = "running"
status_text status_ok = "ok"
status_text status_failed = "failed"
status_text status_dry_run = "dry-run"

-- What a step acts on: the nodes and files, and the secrets that all steps share.
pub record Live (S : Type 0) : Type 0 where
  pub world : S
  pub secrets : Secrets

-- The text that `Check` returns besides is not used by the installer.
pub record Step (S : Type 0) : Type 0 where
  pub id : String
  pub name : String
  pub node : String
  pub role : String
  pub dry_run_description : String
  pub check : Live S → Live S × Result Bool
  pub apply : Live S → Live S × Option String
  pub verify : Option (Live S → Live S × Option String)
  pub rollback : String
  pub rollback_id : String
  pub changed_files : List String
  pub backup_files : List String
  pub failure_recovery : String
  pub idempotency_key : String
  pub status : Status
  pub error : String

pub record StepRecord : Type 0 where
  pub id : String
  pub name : String
  pub node : String
  pub role : String
  pub status : Status
  pub error : String
  pub at : ℕ
  pub rollback : String
  pub rollback_id : String
  pub changed_files : List String
  pub backup_files : List String
  pub recovery : String
  pub idempotency_key : String
  pub dry_run_description : String

pub record Report : Type 0 where
  pub cluster : String
  pub started_at : ℕ
  pub completed_at : ℕ
  pub failed_steps : List StepRecord
  pub steps : List StepRecord
  pub suggested_recovery : List String
  pub warnings : List String

-- The secrets of `Options` are not options here: `Run` sets them before it plans.
pub record Options (S : Type 0) : Type 0 where
  pub config : Config
  pub dry_run : Bool
  pub resume : Bool
  pub allow_no_firewall : Bool
  pub allow_example_config : Bool
  pub allow_public_ssh : Bool
  pub confirm_production : Bool
  pub executor : Option (Executor S)

-- The files of the state directory, the clock and base64, with a state that stands for the nodes
-- too.
pub record World (S : Type 0) : Type 0 where
  pub now : ℕ
  pub format_time : ℕ → String
  pub base64 : String → String
  -- `os.MkdirAll` of the directory of the logs
  pub make_logs : S → S × Option String
  pub vault : Vault S
  -- inventory.yaml
  pub load_inventory : S → Result Inventory
  pub write_inventory : Inventory → S → S × Option String
  -- install-report.json with its copy, and the Markdown text
  pub load_report : S → Result Report
  pub write_report : Report → String → S → S
  -- the file of a rollback record
  pub write_rollback : Record → S → S × Option String

-- `Step{}`; a check and an apply are always given.
abbrev pub empty_step : {S : Type 0} → Step S
empty_step = record {
  id = "";
  name = "";
  node = "";
  role = "";
  dry_run_description = "";
  check = λ live. (live, ok false);
  apply = λ live. (live, none);
  verify = none;
  rollback = "";
  rollback_id = "";
  changed_files = [];
  backup_files = [];
  failure_recovery = "";
  idempotency_key = "";
  status = status_pending;
  error = "";
}

module _ {S : Type 0} (now : ℕ) where
  -- The record of a step, at the time of the call
  unfoldable pub record_of : Step S → StepRecord
  record_of s = record {
    id = s.id;
    name = s.name;
    node = s.node;
    role = s.role;
    status = s.status;
    error = s.error;
    at = now;
    rollback = s.rollback;
    rollback_id = s.rollback_id;
    changed_files = s.changed_files;
    backup_files = s.backup_files;
    recovery = s.failure_recovery;
    idempotency_key = s.idempotency_key;
    dry_run_description = s.dry_run_description;
  }

  -- `record`
  unfoldable pub add_record : Step S → Report → Report
  add_record s r = record r { steps = r.steps ++ (record_of s ∷ []) }

  -- `fail`
  unfoldable pub fail : Step S → Report → Report
  fail s r = record r {
    failed_steps = r.failed_steps ++ (record_of s ∷ []);
    suggested_recovery =
        (r.suggested_recovery
          ++ (if is_set s.failure_recovery then s.failure_recovery ∷ [] else []))
        ++ (s.rollback
            ∷ "Inspect logs with journalctl/systemctl on the failed node, then run stackforge install --resume."
            ∷ []);
  }

unfoldable pub step_lines : List StepRecord → String
step_lines [] = ""
step_lines (s ∷ steps) =
    "- "
    <> (to_upper (status_text s.status)
        <> (" `"
            <> (s.id
                <> ("` on `"
                    <> (s.node
                        <> ("`"
                            <> ((if is_set s.error then ": " <> s.error else "")
                                <> ("\n" <> step_lines steps))))))))

unfoldable pub item_lines : List String → String
item_lines [] = ""
item_lines (item ∷ items) = "- " <> (item <> ("\n" <> item_lines items))

-- The Markdown text of `writeReports`
unfoldable pub report_text : Report → String
report_text r =
    "# StackForge Install Report\n\n"
    <> ("Cluster: "
        <> (r.cluster
            <> ("\n\n"
                <> (step_lines r.steps
                    <> (if is_empty r.suggested_recovery
                        then ""
                        else "\n## Suggested Recovery\n" <> item_lines r.suggested_recovery)))))

-- `writeReports`
unfoldable pub write_reports : {S : Type 0} → World S → Report → S → S
write_reports w r s = w.write_report r (report_text r) s
