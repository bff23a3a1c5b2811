-- ===== src/Install/Steps.antt =====
-- The loops of `Plan` in internal/stackforge/install/install.go over the nodes and their roles.
use Prim.Native.String.{◌++◌ as ◌<>◌}
use stack_forge.Base.{
  String, Bool, true, false, not, ◌||◌, none, some, List, [], ◌∷◌, ◌++◌, if◌then◌else◌, ◌==◌,
  Result, ok, err,
}
use stack_forge.Maps.{StringMap, insert, lookup}
use stack_forge.Config.{NodeConfig}
use stack_forge.Firewall as Firewall
use stack_forge.Secrets.{Secrets}
use stack_forge.Install.{Step, Options, World, empty_step}
use stack_forge.Install.Services.{
  first_steps, firewall_step, consul_step, nomad_step, traefik_step, postgres_step,
  control_plane_step,
}

infixr 5 ◌&◌
-- Go's `+` on texts
abbrev ◌&◌ : String → String → String
s & t = s <> t

module _ {S : Type 0} (w : World S) (opts : Options S) where
  -- The last step of a plan
  unfoldable pub reports_step : Step S
  reports_step = record empty_step {
    id = "local:reports";
    name = "Generate install reports";
    node = "local";
    dry_run_description = "write install-report.json and STACKFORGE_INSTALL_REPORT.md";
    verify = some (λ live. (live, none));
    rollback = "Reports can be regenerated by rerunning install --resume.";
    failure_recovery = "Rerun stackforge install --resume to regenerate reports.";
    idempotency_key = "local/reports";
  }

  -- `if !componentSeen[component] { … }`
  unfoldable pub first_time :
      StringMap Bool → String → Step S → Result (StringMap Bool × (List (Step S) × List String))
  first_time seen component step = elim (lookup component seen) [
    | some _ ↦ ok (seen, ([], []))
    | none ↦ ok (insert component true seen, (step ∷ [], []))
  ]

  -- The case of the database
  unfoldable pub database_role :
      Secrets
      → NodeConfig
      → StringMap Bool
      → Result (StringMap Bool × (List (Step S) × List String))
  database_role sec n seen =
      let engine = opts.config.database.engine in
      elim (lookup engine seen) [
        | some _ ↦ ok (seen, ([], []))
        | none ↦
            if engine == "sqlite"
            then ok (
              insert engine true seen,
              (
                [],
                ("node " & n.name
                      & " has database role but database.engine=sqlite; skipping PostgreSQL install")
                    ∷ [],
              ),
            )
            else if not (engine == "postgres")
            then err (
                "live install supports PostgreSQL only; database.engine=" & engine
                & " is not implemented")
            else ok (insert engine true seen, (postgres_step w opts sec n ∷ [], []))
      ]

  -- The body of the loop over the roles of a node: the components that have a step, the steps and
  -- the warnings.
  unfoldable pub role_step :
      Secrets
      → NodeConfig
      → String
      → StringMap Bool
      → Result (StringMap Bool × (List (Step S) × List String))
  role_step sec n role seen =
      if role == "consul-server"
      then first_time seen "consul" (consul_step w opts sec n role)
      else if role == "nomad-server" || role == "nomad-client"
      then first_time seen "nomad" (nomad_step w opts sec n role)
      else if role == "traefik"
      then first_time seen "traefik" (traefik_step w opts sec n)
      else if role == "database"
      then database_role sec n seen
      else if role == "control-plane"
      then ok (seen, (control_plane_step w opts sec n ∷ [], []))
      else ok (seen, ([], []))

  -- The loop over the roles of a node
  unfoldable pub role_steps :
      Secrets → NodeConfig → List String → StringMap Bool → Result (List (Step S) × List String)
  role_steps sec n [] seen = ok ([], [])
  role_steps sec n (role ∷ roles) seen = elim (role_step sec n role seen) [
    | err e ↦ err e
    | ok (seen', (steps, warnings)) ↦ elim (role_steps sec n roles seen') [
      | err e ↦ err e
      | ok (more, others) ↦ ok (steps ++ more, warnings ++ others)
    ]
  ]

  -- The body of the loop over the nodes
  unfoldable pub node_steps :
      Secrets → Firewall.Plan → NodeConfig → Result (List (Step S) × List String)
  node_steps sec fw n = elim (role_steps sec n n.roles []) [
    | err e ↦ err e
    | ok (steps, warnings) ↦ ok (
      first_steps w opts n
          ++ ((if not opts.allow_no_firewall then firewall_step w opts fw n ∷ [] else []) ++ steps),
      warnings,
    )
  ]

  -- The loop over the nodes
  unfoldable pub all_steps :
      Secrets → Firewall.Plan → List NodeConfig → Result (List (Step S) × List String)
  all_steps sec fw [] = ok ([], [])
  all_steps sec fw (n ∷ nodes) = elim (node_steps sec fw n) [
    | err e ↦ err e
    | ok (steps, warnings) ↦ elim (all_steps sec fw nodes) [
      | err e ↦ err e
      | ok (more, others) ↦ ok (steps ++ more, warnings ++ others)
    ]
  ]

  -- The steps with the rules of the firewall, and the last one
  unfoldable pub finish :
      Secrets → Firewall.Plan → List String → Result (List (Step S) × List String)
  finish sec fw before = elim (all_steps sec fw opts.config.nodes) [
    | err e ↦ err e
    | ok (steps, warnings) ↦ ok (steps ++ (reports_step ∷ []), before ++ warnings)
  ]

  -- `Plan` with a firewall that could not be planned
  unfoldable pub plan_without : Bool → String → Secrets → Result (List (Step S) × List String)
  plan_without true e sec =
      finish sec (record { mode = ""; rules = []; warnings = [] })
        ("firewall validation bypassed by --allow-no-firewall" ∷ [])
  plan_without false e sec = err e

  -- `Plan`. Beside an error of the firewall plan no rule of it is used.
  unfoldable pub plan : Secrets → Result (List (Step S) × List String)
  plan sec = elim (Firewall.build_plan opts.config opts.allow_public_ssh) [
    | ok fw ↦ finish sec fw []
    | err e ↦ plan_without opts.allow_no_firewall e sec
  ]
