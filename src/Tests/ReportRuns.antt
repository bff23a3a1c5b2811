-- ===== src/Tests/ReportRuns.antt =====
-- Runs of the verification and the validation of a cluster.
use stack_forge.Base.{List, refl, ℕ, String, ◌≡◌, ◌↔◌, true, false, none, some, [], Result, ok, suc}
use stack_forge.Host.{Files}
use stack_forge.Remote.{Executor}
use stack_forge.Tests.ClusterRuns.{stock}
use stack_forge.Tests.InstallRuns.{machine}
use stack_forge.Verification as Verification
use stack_forge.Verification.Agreement.{IsInOrder, run_iff}
use stack_forge.Validation as Validation
use stack_forge.Validation.{parse_preflight, new_report}
use stack_forge.Components as Components
use stack_forge.Components.Planned.{HasMatch, plan_install_iff}
use stack_forge.Text.{texts}

-- It counts its calls, and each node gives one answer.
abbrev answering : String → Executor ℕ
answering stdout address command s =
    (suc s, (record { stdout = stdout; stderr = ""; exit_code = 0 }, none))

abbrev secret_mode : String → Files String → Result ℕ
secret_mode path files = ok 384

run_iff_example :
    ((Verification.run machine secret_mode "/s"
        (some stock)
        (some (answering "firewall=ufw"))
        []
        0).1.safe
      ≡ true)
    ↔ IsInOrder machine secret_mode "/s" (some stock) (some (answering "firewall=ufw")) [] 0
run_iff_example =
    run_iff machine secret_mode "/s" (some stock) (some (answering "firewall=ufw")) [] 0

abbrev live : Validation.Options
live = record {
  dry_run = false;
  live = true;
  production = false;
  allow_no_firewall = false;
  allow_example_config = false;
  allow_public_ssh = true;
  confirm_production = false;
}

abbrev parse_int : String → ℕ
parse_int s = 30000

no_choice : Components.normalize_component " All " ≡ "all"
unfolding Components.normalize_component texts
no_choice = refl

plan_install_iff_example :
    ((items : List Components.InstallItem) × (Components.plan_install
          (some stock)
          " All "
          "n1"
          false
        ≡ ok items))
    ↔ HasMatch (some stock) "n1"
plan_install_iff_example = plan_install_iff (some stock) " All " "n1" false no_choice
