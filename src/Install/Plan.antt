-- ===== src/Install/Plan.antt =====
-- `Plan` of internal/stackforge/install/install.go: the steps for each node.
use Prim.Native.String.{◌++◌ as ◌<>◌}
use stack_forge.Base.{
  ℕ, String, Bool, true, false, not, ◌&&◌, Option, none, some, List, [], ◌∷◌, eqb, if◌then◌else◌,
  ◌==◌, Result, ok, err,
}
use stack_forge.Text.{trim_space, split, cut, join, is_set}
use stack_forge.Text.Number.{show}
use stack_forge.Shell.{replace_char}
use stack_forge.Firewall as Firewall
use stack_forge.Remote.{Command, Output}
use stack_forge.Secrets.{Secrets}
use stack_forge.Install.{Live, Step, Options, World}

-- `filesForComponent`: the changed files and the backups
unfoldable pub files_for_component : String → List String × List String
files_for_component component =
    if component == "consul"
    then ("/etc/consul.d/stackforge.hcl" ∷ [], "/etc/consul.d.stackforge.<timestamp>.tgz" ∷ [])
    else if component == "nomad"
    then ("/etc/nomad.d/stackforge.hcl" ∷ [], "/etc/nomad.d.stackforge.<timestamp>.tgz" ∷ [])
    else if component == "traefik"
    then (
      "/etc/traefik/traefik.yaml" ∷ "/etc/systemd/system/traefik.service" ∷ [],
      "/etc/traefik.stackforge.<timestamp>.tgz" ∷ [],
    )
    else if component == "postgres"
    then (
      "/etc/postgresql/*/main/postgresql.conf" ∷ [],
      "/etc/postgresql/*.stackforge.<timestamp>.tgz" ∷ [],
    )
    else ([], [])

-- The body of the loop of `updateBootstrapSecrets`: the secrets, and whether one changed
unfoldable pub update_line : String → Secrets × Bool → Secrets × Bool
update_line line (sec, changed) = elim (cut "=" (trim_space line)) [
  | none ↦ (sec, changed)
  | some (key, value) ↦
      if value == ""
      then (sec, changed)
      else if key == "STACKFORGE_CONSUL_BOOTSTRAP_TOKEN"
      then (record sec { consul_bootstrap_token = value }, true)
      else if key == "STACKFORGE_NOMAD_BOOTSTRAP_TOKEN"
      then (record sec { nomad_bootstrap_token = value }, true)
      else (sec, changed)
]

unfoldable pub update_lines : List String → Secrets × Bool → Secrets × Bool
update_lines [] state = state
update_lines (line ∷ lines) state = update_lines lines (update_line line state)

-- `updateBootstrapSecrets`
unfoldable pub update_bootstrap_secrets : Secrets → String → Secrets × Bool
update_bootstrap_secrets sec stdout = update_lines (split "\n" stdout) (sec, false)

-- `firewallDryRun`
unfoldable pub rule_lines : List Firewall.Rule → List String
rule_lines [] = []
rule_lines (r ∷ rs) =
    (r.node
      <> (" "
          <> (r.protocol
              <> ("/"
                  <> (show r.port
                      <> (" from "
                          <> (r.source
                              <> (" exposure=" <> (r.exposure <> (" reason=" <> r.purpose))))))))))
    ∷ rule_lines rs

unfoldable pub firewall_dry_run : Firewall.Plan → String
firewall_dry_run plan =
    join "\n" (("apply firewall mode " <> (plan.mode <> " with rules:")) ∷ rule_lines plan.rules)

abbrev pub executor_required : String
executor_required = "remote executor is required for live install"

module _ {S : Type 0} (w : World S) (opts : Options S) where
  -- A call of the executor for an address; without one the error is that of the steps.
  unfoldable pub call_node : String → Command → Live S → Live S × Result (Output × Option String)
  call_node addr cmd live = elim opts.executor [
    | none ↦ (live, err executor_required)
    | some run ↦ let (s, answer) = run addr cmd live.world in (record live { world = s }, ok answer)
  ]

  -- The outcome of a check: an error of the command means that there is work.
  unfoldable pub check_outcome : Result (Output × Option String) → Result Bool
  check_outcome (err e) = err e
  check_outcome (ok (out, none)) = ok (eqb out.exit_code 0)
  check_outcome (ok (out, some e)) = ok false

  -- The outcome of an apply of the first steps, and of a verification.
  unfoldable pub run_outcome : Result (Output × Option String) → Option String
  run_outcome (err e) = some e
  run_outcome (ok (out, fault)) = fault

  unfoldable pub verify_outcome : Result (Output × Option String) → Option String
  verify_outcome (err e) = some e
  verify_outcome (ok (out, none)) = none
  verify_outcome (ok (out, some e)) = some (e <> (": " <> trim_space out.stderr))

  -- The closures `check`, `run` and `verify` of `Plan`
  unfoldable pub check : String → String → Bool → Live S → Live S × Result Bool
  check addr command sudo live =
      let (live', r) =
        call_node addr (record { command = command; sudo = sudo; timeout = 30; secrets = [] })
          live in
      (live', check_outcome r)

  unfoldable pub run : String → String → Bool → Live S → Live S × Option String
  run addr command sudo live =
      let (live', r) =
        call_node addr (record { command = command; sudo = sudo; timeout = 300; secrets = [] })
          live in
      (live', run_outcome r)

  unfoldable pub verify : String → String → Bool → Live S → Live S × Option String
  verify addr command sudo live =
      let (live', r) =
        call_node addr (record { command = command; sudo = sudo; timeout = 45; secrets = [] })
          live in
      (live', verify_outcome r)

  -- What `Apply` of `remoteStep` does with the answer: new bootstrap tokens are kept and saved.
  unfoldable pub keep_tokens : Result (Output × Option String) → Live S → Live S × Option String
  keep_tokens (err e) live = (live, some e)
  keep_tokens (ok (out, some e)) live = (
    live,
    some (if is_set (trim_space out.stderr) then e <> (": " <> trim_space out.stderr) else e),
  )
  keep_tokens (ok (out, none)) live =
      let (sec, changed) = update_bootstrap_secrets live.secrets out.stdout in
      (
        if changed
            then record { world = (w.vault.write sec live.world).0; secrets = sec }
            else record live { secrets = sec },
        none,
      )

  -- `rollback.NewID`
  unfoldable pub new_id : String → String → String
  new_id node component = w.format_time w.now <> ("-" <> (node <> ("-" <> component)))

  -- `remoteStep`; the commands were made from the secrets that `Plan` had.
  unfoldable pub remote_step :
      String → String → Step S → String → String → String → List String → Step S
  remote_step node addr step check_command apply_command verify_command secret_values =
      let command : String → ℕ → Command = λ text seconds. record {
        command = text;
        sudo = true;
        timeout = seconds;
        secrets = secret_values;
      } in
      record step {
        rollback_id =
            if not (is_set step.rollback_id) && is_set step.role && not (step.node == "local")
            then new_id node (replace_char "/" "-" step.role)
            else step.rollback_id;
        check = λ live.
            let (live', r) = call_node addr (command check_command 45) live in
            (live', check_outcome r);
        apply = λ live.
            let (live', r) = call_node addr (command apply_command 600) live in keep_tokens r live';
        verify = some (λ live.
            let (live', r) = call_node addr (command verify_command 90) live in
            (live', verify_outcome r));
      }
