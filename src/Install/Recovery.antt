-- ===== src/Install/Recovery.antt =====
-- The rollback records of the steps that the installer plans.
use Prim.Native.String.{◌++◌ as ◌<>◌}
use text.Mathlib.TextLemmas.{nil-append, cons-append, cons≢nil}
use stack_forge.Base.{
  Char, String, eq_iff, ◌≡◌, inl, inr, refl, Bool, true, false, not, ◌||◌, List, [], ◌∷◌,
  Bool-cases, Option-cases, Result-cases, Result, ok, err, All, All-append, ◌==◌, if◌then◌else◌,
}
use stack_forge.Text.{is_set}
use stack_forge.Shell.{replace_char}
use stack_forge.Maps.{StringMap, lookup}
use stack_forge.Config.{NodeConfig}
use stack_forge.Firewall as Firewall
use stack_forge.Secrets.{Secrets, values}
use stack_forge.Install.{Step, Options, World}
use stack_forge.Install.Plan.{new_id, remote_step}
use stack_forge.Install.Services.{
  base_step, first_steps, firewall_step, service_step, consul_step, nomad_step, traefik_step,
  postgres_step, control_plane_step,
}
use stack_forge.Install.Steps.{
  reports_step, first_time, database_role, role_step, role_steps, node_steps, all_steps, finish,
  plan_without, plan,
}

is_set-cons : (c : Char) (s : String) → is_set (String.◌∷◌ c s) ≡ true
is_set-cons c s = elim (Bool-cases (String.◌∷◌ c s == "")) [
  | inl same ↦ absurd (cons≢nil ((eq_iff (String.◌∷◌ c s) "").0 same))
  | inr other ↦ rw other refl
]

is_set-dash : (s t : String) → is_set (s <> ("-" <> t)) ≡ true
is_set-dash String.[] t = rw (nil-append, cons-append "-" "" t) (is_set-cons "-" _)
is_set-dash (String.◌∷◌ c s) t = rw (cons-append c s) (is_set-cons c _)

module _ {S : Type 0} (w : World S) (opts : Options S) where
  -- A step with a role on a node has a rollback record.
  abbrev pub IsRecoverable : Step S → Type 0
  IsRecoverable s = is_set s.role ≡ true → s.node == "local" ≡ false → is_set s.rollback_id ≡ true

  remote_step-IsRecoverable :
      (node addr : String) (step : Step S) (check apply verify : String) (secrets : List String)
      → IsRecoverable (remote_step w opts node addr step check apply verify secrets)
  unfolding remote_step new_id
  remote_step-IsRecoverable node addr step check apply verify secrets role here =
      let dash =
        is_set-dash (w.format_time w.now) (node <> ("-" <> replace_char "/" "-" step.role)) in
      elim (Bool-cases (is_set step.rollback_id)) [
        | inl given ↦ rw (given, remote_step) given
        | inr blank ↦ rw (blank, role, here) dash
      ]

  -- What a part of the plan is made of, where it is made at all.
  abbrev AllRecoverable : {A : Type 0} → (A → List (Step S)) → Result A → Type 0
  AllRecoverable steps (err e) = Unit
  AllRecoverable steps (ok a) = All IsRecoverable (steps a)

  first_time-AllRecoverable :
      (seen : StringMap Bool) (component : String) (step : Step S)
      → IsRecoverable step
      → AllRecoverable (λ a. a.1.0) (first_time w opts seen component step)
  unfolding first_time
  first_time-AllRecoverable seen component step h = elim (Option-cases (lookup component seen)) [
    | inl new ↦ rw (first_time, new) (h, tt)
    | inr (b, old) ↦ rw (first_time, old) tt
  ]

  service_step-IsRecoverable :
      (sec : Secrets) (n : NodeConfig)
      (component role display check apply verify rollback recovery : String)
      → IsRecoverable
          (service_step w opts sec n component role display check apply verify rollback recovery)
  unfolding service_step
  service_step-IsRecoverable sec n component role display check apply verify rollback recovery =
      remote_step-IsRecoverable n.name n.address _ check apply verify (values sec)

  consul_step-IsRecoverable :
      (sec : Secrets) (n : NodeConfig) (role : String)
      → IsRecoverable (consul_step w opts sec n role)
  unfolding consul_step
  consul_step-IsRecoverable sec n role = service_step-IsRecoverable sec n _ role _ _ _ _ _ _

  nomad_step-IsRecoverable :
      (sec : Secrets) (n : NodeConfig) (role : String)
      → IsRecoverable (nomad_step w opts sec n role)
  unfolding nomad_step
  nomad_step-IsRecoverable sec n role = service_step-IsRecoverable sec n _ role _ _ _ _ _ _

  traefik_step-IsRecoverable :
      (sec : Secrets) (n : NodeConfig) → IsRecoverable (traefik_step w opts sec n)
  unfolding traefik_step
  traefik_step-IsRecoverable sec n = service_step-IsRecoverable sec n _ _ _ _ _ _ _ _

  postgres_step-IsRecoverable :
      (sec : Secrets) (n : NodeConfig) → IsRecoverable (postgres_step w opts sec n)
  unfolding postgres_step
  postgres_step-IsRecoverable sec n = service_step-IsRecoverable sec n _ _ _ _ _ _ _ _

  control_plane_step-IsRecoverable :
      (sec : Secrets) (n : NodeConfig) → IsRecoverable (control_plane_step w opts sec n)
  unfolding control_plane_step
  control_plane_step-IsRecoverable sec n = remote_step-IsRecoverable n.name n.address _ _ _ _ _

  abbrev step_part : StringMap Bool × (List (Step S) × List String) → List (Step S)
  step_part (seen, (steps, warnings)) = steps

  database_role-AllRecoverable :
      (sec : Secrets) (n : NodeConfig) (seen : StringMap Bool)
      → AllRecoverable step_part (database_role w opts sec n seen)
  unfolding database_role
  database_role-AllRecoverable sec n seen =
      let engine = opts.config.database.engine in
      elim (Option-cases (lookup engine seen)) [
        | inr (b, old) ↦ rw (database_role, old) tt
        | inl new ↦ elim (Bool-cases (engine == "sqlite")) [
          | inl sqlite ↦ rw (database_role, new, sqlite) tt
          | inr other ↦ elim (Bool-cases (engine == "postgres")) [
            | inl postgres ↦
                rw (database_role, new, other, postgres) (postgres_step-IsRecoverable sec n, tt)
            | inr unknown ↦ rw (database_role, new, other, unknown) tt
          ]
        ]
      ]

  role_step-AllRecoverable :
      (sec : Secrets) (n : NodeConfig) (role : String) (seen : StringMap Bool)
      → AllRecoverable step_part (role_step w opts sec n role seen)
  unfolding role_step
  role_step-AllRecoverable sec n role seen = elim (Bool-cases (role == "consul-server")) [
    | inl c ↦
        rw (role_step, c)
          (first_time-AllRecoverable seen "consul" _ (consul_step-IsRecoverable sec n role))
    | inr c ↦ elim (Bool-cases (role == "nomad-server" || role == "nomad-client")) [
      | inl d ↦
          rw (role_step, c, d)
            (first_time-AllRecoverable seen "nomad" _ (nomad_step-IsRecoverable sec n role))
      | inr d ↦ elim (Bool-cases (role == "traefik")) [
        | inl t ↦
            rw (role_step, c, d, t)
              (first_time-AllRecoverable seen "traefik" _ (traefik_step-IsRecoverable sec n))
        | inr t ↦
            rw (role_step, c, d, t)
              (elim (Bool-cases (role == "database")) [
                | inl e ↦ rw e (database_role-AllRecoverable sec n seen)
                | inr e ↦ rw e (elim (Bool-cases (role == "control-plane")) [
                  | inl f ↦ rw f (control_plane_step-IsRecoverable sec n, tt)
                  | inr f ↦ rw f tt
                ])
              ])
      ]
    ]
  ]

  role_steps-AllRecoverable :
      (sec : Secrets) (n : NodeConfig) (roles : List String) (seen : StringMap Bool)
      → AllRecoverable (λ a. a.0) (role_steps w opts sec n roles seen)
  unfolding role_steps
  role_steps-AllRecoverable sec n [] seen = tt
  role_steps-AllRecoverable sec n (role ∷ roles) seen =
      elim (Result-cases (role_step w opts sec n role seen)) [
        | inl (e, fault) ↦ rw (role_steps, fault) tt
        | inr ((seen', (steps, warnings)), made) ↦
            let first : All IsRecoverable steps =
              rw made at (role_step-AllRecoverable sec n role seen) in
            elim (Result-cases (role_steps w opts sec n roles seen')) [
              | inl (e, fault) ↦ rw (role_steps, made, fault) tt
              | inr ((more, others), rest) ↦
                  rw (role_steps, made, rest)
                    (All-append _ steps more first
                      (rw rest at (role_steps-AllRecoverable sec n roles seen')))
            ]
      ]

  -- The first steps have no role.
  first_steps-IsRecoverable : (n : NodeConfig) → All IsRecoverable (first_steps w opts n)
  unfolding first_steps base_step
  first_steps-IsRecoverable n = (λ h k. cc h, (λ h k. cc h, (λ h k. cc h, tt)))

  firewall_step-IsRecoverable :
      (fw : Firewall.Plan) (n : NodeConfig) → IsRecoverable (firewall_step w opts fw n)
  unfolding firewall_step new_id
  firewall_step-IsRecoverable fw n h k =
      is_set-dash (w.format_time w.now) (n.name <> ("-" <> "firewall"))

  maybe_firewall :
      (b : Bool) (fw : Firewall.Plan) (n : NodeConfig)
      → All IsRecoverable (if b then firewall_step w opts fw n ∷ [] else [])
  maybe_firewall true fw n = (firewall_step-IsRecoverable fw n, tt)
  maybe_firewall false fw n = tt

  node_steps-AllRecoverable :
      (sec : Secrets) (fw : Firewall.Plan) (n : NodeConfig)
      → AllRecoverable (λ a. a.0) (node_steps w opts sec fw n)
  unfolding node_steps
  node_steps-AllRecoverable sec fw n = elim (Result-cases (role_steps w opts sec n n.roles [])) [
    | inl (e, fault) ↦ rw (node_steps, fault) tt
    | inr ((steps, warnings), made) ↦
        let all : All IsRecoverable steps =
          rw made at (role_steps-AllRecoverable sec n n.roles []) in
        rw (node_steps, made)
          (All-append _ (first_steps w opts n) _ (first_steps-IsRecoverable n)
            (All-append _ _ steps (maybe_firewall (not opts.allow_no_firewall) fw n) all))
  ]

  all_steps-AllRecoverable :
      (sec : Secrets) (fw : Firewall.Plan) (nodes : List NodeConfig)
      → AllRecoverable (λ a. a.0) (all_steps w opts sec fw nodes)
  unfolding all_steps
  all_steps-AllRecoverable sec fw [] = tt
  all_steps-AllRecoverable sec fw (n ∷ nodes) = elim (Result-cases (node_steps w opts sec fw n)) [
    | inl (e, fault) ↦ rw (all_steps, fault) tt
    | inr ((steps, warnings), made) ↦
        let first : All IsRecoverable steps = rw made at (node_steps-AllRecoverable sec fw n) in
        elim (Result-cases (all_steps w opts sec fw nodes)) [
          | inl (e, fault) ↦ rw (all_steps, made, fault) tt
          | inr ((more, others), rest) ↦
              rw (all_steps, made, rest)
                (All-append _ steps more first (rw rest at (all_steps-AllRecoverable sec fw nodes)))
        ]
  ]

  finish-AllRecoverable :
      (sec : Secrets) (fw : Firewall.Plan) (before : List String)
      → AllRecoverable (λ a. a.0) (finish w opts sec fw before)
  unfolding finish reports_step
  finish-AllRecoverable sec fw before =
      elim (Result-cases (all_steps w opts sec fw opts.config.nodes)) [
        | inl (e, fault) ↦ rw (finish, fault) tt
        | inr ((steps, warnings), made) ↦
            rw (finish, made)
              (All-append _ steps _ (rw made at (all_steps-AllRecoverable sec fw opts.config.nodes))
                (λ h k. cc h, tt))
      ]

  plan_without-AllRecoverable :
      (b : Bool) (e : String) (sec : Secrets)
      → AllRecoverable (λ a. a.0) (plan_without w opts b e sec)
  unfolding plan_without
  plan_without-AllRecoverable true e sec = finish-AllRecoverable sec _ _
  plan_without-AllRecoverable false e sec = tt

  -- In a plan, every step that has a role, on a node that is not named local, has a rollback record
  -- to be saved before it is applied.
  pub plan-IsRecoverable :
      (sec : Secrets) (steps : List (Step S)) (warnings : List String)
      → plan w opts sec ≡ ok (steps, warnings)
      → All IsRecoverable steps
  unfolding plan
  plan-IsRecoverable sec steps warnings h =
      elim (Result-cases (Firewall.build_plan opts.config opts.allow_public_ssh)) [
        | inr (fw, built) ↦
            let made : finish w opts sec fw [] ≡ ok (steps, warnings) = rw (plan, built) at h in
            rw made at (finish-AllRecoverable sec fw [])
        | inl (e, refused) ↦
            let made : plan_without w opts opts.allow_no_firewall e sec ≡ ok (steps, warnings) =
              rw (plan, refused) at h in
            rw made at (plan_without-AllRecoverable opts.allow_no_firewall e sec)
      ]
