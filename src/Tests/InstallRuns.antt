-- ===== src/Tests/InstallRuns.antt =====
-- The installer, the secrets, backup and restore at concrete inputs.
use stack_forge.Base.{
  ◌⊎◌, ◌↔◌, ℕ, ◌+◌, String, ◌≡◌, refl, Bool, true, false, none, some, Option, List, [], ◌∷◌, inl,
  All, ok, err,
}
use stack_forge.Text.{texts}
use stack_forge.Maps.{lookup, insert}
use stack_forge.Host.{Files}
use stack_forge.Shell.{Reads, shell_quote, shell_quote-Reads}
use stack_forge.Secrets.{Secrets, Vault, load_or_generate, generate, given_key}
use stack_forge.Secrets.Reload.{load_or_generate-again}
use stack_forge.Install.{Step, Options, World, empty_step}
use stack_forge.Install.Run.{Progress, run_steps, completed_in}
use stack_forge.Install.Outcome.{Ended, run_steps-Ended}
use stack_forge.Install.Resume.{IsQuiet, run_steps-IsQuiet, resume_of_dry_run-IsQuiet}
use stack_forge.Install.Steps.{
  plan, finish, all_steps, node_steps, role_steps, role_step, first_time,
}
use stack_forge.Install.Start.{initial_inventory}
use stack_forge.Install.Recovery.{IsRecoverable, plan-IsRecoverable}
use stack_forge.Firewall as Firewall
use stack_forge.Backup.{Machine, Manifest}
use stack_forge.Backup as Backup
use stack_forge.Backup.Checks.{IsIntact, verify_iff}
use stack_forge.Backup.Restore.{RestoreOptions, restore_with_detailed_options, restore_live}
use stack_forge.Backup.Guards.{IsCleared, restore-IsGuarded}
use stack_forge.Backup.Accounts.{IsAccounted, restore_live-IsAccounted}
use stack_forge.Tests.ClusterRuns.{small}

shell_quote-Reads_example : Reads (shell_quote "it's") "it's"
shell_quote-Reads_example = shell_quote-Reads "it's"

-- Secrets that are in the file or not yet; every token is the same.
abbrev vault : Vault (Option Secrets)
vault = record {
  read = λ s. elim s [ none ↦ none | some sec ↦ some (ok sec) ];
  write = λ sec s. (some sec, none);
  token = λ n s. (s, ok "token");
  now = 7;
}

abbrev made : Secrets
made = record {
  consul_gossip_key = "token";
  consul_bootstrap_token = "token";
  nomad_bootstrap_token = "token";
  stack_forge_admin_api_key = "k1";
  database_password = "token";
  traefik_dashboard_password = "";
  internal_service_token = "token";
  created_at = 7;
}

made-generated : (load_or_generate vault ("k1" ∷ []) false none).1 ≡ ok (made, true)
unfolding load_or_generate generate given_key texts
made-generated = refl

load_or_generate-again_example :
    load_or_generate vault [] true (load_or_generate vault ("k1" ∷ []) false none).0
    ≡ ((load_or_generate vault ("k1" ∷ []) false none).0, ok (made, false))
load_or_generate-again_example =
    load_or_generate-again vault ("k1" ∷ []) [] false true none made true (λ sec s h. refl)
      made-generated

-- The state counts the steps that were applied.
abbrev world : World ℕ
world = record {
  now = 7;
  format_time = λ n. "t";
  base64 = λ s. s;
  make_logs = λ s. (s, none);
  vault = record {
    read = λ s. some (ok made);
    write = λ sec s. (s, none);
    token = λ n s. (s, ok "token");
    now = 7;
  };
  load_inventory = λ s. err "no inventory";
  write_inventory = λ inv s. (s, none);
  load_report = λ s. err "no report";
  write_report = λ r text s. s;
  write_rollback = λ r s. (s, none);
}

abbrev options : Bool → Options ℕ
options dry = record {
  config = small;
  dry_run = dry;
  resume = false;
  allow_no_firewall = false;
  allow_example_config = false;
  allow_public_ssh = true;
  confirm_production = false;
  executor = none;
}

abbrev counting : String → Step ℕ
counting id = record empty_step {
  id = id;
  apply = λ live. (record live { world = live.world + 1 }, none);
}

abbrev failing : Step ℕ
failing = record empty_step { id = "bad"; apply = λ live. (live, some "exit status 1") }

abbrev work : List (Step ℕ)
work = counting "a" ∷ failing ∷ counting "b" ∷ []

abbrev begin : Progress ℕ
begin = record {
  live = record { world = 0; secrets = made };
  inventory = initial_inventory small;
  report = record {
    cluster = "prod-1";
    started_at = 7;
    completed_at = 0;
    failed_steps = [];
    steps = [];
    suggested_recovery = [];
    warnings = [];
  };
}

run_steps-Ended_example :
    Ended world
      (options false)
      work
      begin.report
      (run_steps world (options false) [] work begin).1
      (run_steps world (options false) [] work begin).0.report
run_steps-Ended_example = run_steps-Ended world (options false) [] work begin

run_steps-IsQuiet_example :
    IsQuiet world (options true) begin (run_steps world (options true) [] work begin)
run_steps-IsQuiet_example = run_steps-IsQuiet world (options true) [] work begin (inl refl)

resume_of_dry_run-IsQuiet_example : IsQuiet world (options false) begin (
    run_steps world
      (options false)
      (completed_in (run_steps world (options true) [] work begin).0.report.steps [])
      work
      begin)
resume_of_dry_run-IsQuiet_example =
    resume_of_dry_run-IsQuiet world (options true) (options false) work begin begin refl refl

abbrev planned : List (Step ℕ) × List String
planned = elim (plan world (options false) made) [ err e ↦ ([], []) | ok found ↦ found ]

planned-plan : plan world (options false) made ≡ ok (planned.0, planned.1)
unfolding texts plan finish all_steps node_steps role_steps role_step first_time lookup insert
    Firewall.build_plan Firewall.validate Firewall.plan_rules Firewall.refuse_open Firewall.open_one
    Firewall.is_open Firewall.ssh_rules Firewall.on_nodes Firewall.node_names Firewall.is_refused
    Firewall.web_rules Firewall.admin_rules Firewall.on_nodes_each Firewall.internal_rules
    Firewall.private_source Firewall.dashboard_rules
planned-plan = refl

plan-IsRecoverable_example : All (IsRecoverable world (options false)) planned.0
plan-IsRecoverable_example =
    plan-IsRecoverable world (options false) made planned.0 planned.1 planned-plan

-- A machine that reads and writes every file; nothing can be decoded.
abbrev pub machine : Machine
machine = record {
  read_fault = λ path. none;
  mkdir_fault = λ path. none;
  write_fault = λ path text. none;
  torn = λ path text. none;
  now = 7;
  format_time = λ n. "t";
  digest = λ s. s;
  base64 = λ s. s;
  encode_manifest = λ man. ok "manifest";
  decode_manifest = λ text. err "no manifest";
  encode_report = λ r. "report";
  decode_inventory = λ text. (initial_inventory small, none);
  encode_inventory = λ inv. ok "inventory";
}

abbrev disk : Files String
disk = ("/b/database.dump", "dump") ∷ []

abbrev manifest : Manifest
manifest = record {
  backup_id = "t";
  cluster_name = "prod-1";
  timestamp = 7;
  components = "database" ∷ [];
  file_paths = ("database.dump", "/b/database.dump") ∷ [];
  checksums = ("database.dump", "dump") ∷ [];
  warnings = [];
  errors = [];
  planned_commands = [];
  created_by = "stackforge";
  stack_forge_version = "dev";
}

verify_iff_example :
    (Backup.verify machine "/b" manifest disk ≡ none)
    ↔ All (IsIntact machine "/b" manifest.file_paths disk) manifest.checksums
verify_iff_example = verify_iff machine "/b" manifest disk

abbrev restoring : RestoreOptions ℕ
restoring = record {
  state_dir = "/s";
  backup_id = "t";
  yes = true;
  dry_run = false;
  executor =
      some (λ node cmd s. (s + 1, (record { stdout = ""; stderr = ""; exit_code = 0 }, none)));
}

restore-IsGuarded_example :
    ((restore_with_detailed_options machine restoring disk 0).0.1 ≡ 0)
    ⊎ IsCleared machine restoring disk
restore-IsGuarded_example = restore-IsGuarded machine restoring disk 0

-- A database on a node, and a component without one
abbrev targets : List Backup.CommandPlan
targets =
    record { component = "database"; node = "10.0.0.5"; command = ""; output = "database.dump" }
    ∷ record { component = "consul"; node = ""; command = ""; output = "consul.snapshot" }
    ∷ []

restore_live-IsAccounted_example :
    IsAccounted machine "/b" restoring targets disk 0
      (restore_live machine restoring "/b" targets disk 0).1
restore_live-IsAccounted_example = restore_live-IsAccounted machine "/b" restoring targets disk 0
