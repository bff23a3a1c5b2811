-- ===== src/Firewall/Exposure.antt =====
-- When a plan is built, and which of its rules have `0.0.0.0/0` or `::/0` for their source.
use stack_forge.Base.{
  String, ◌≡◌, ◌↔◌, refl, Bool, true, false, ◌⊎◌, inl, inr, Bool-cases, none, Option-cases, List,
  [], ◌∷◌, All, All-map, arith, if◌then◌else◌, ok, is_empty,
}
use stack_forge.Config.{Config}
use stack_forge.Firewall.{Plan, is_open, plan_rules, open_one, refuse_open, build_plan}
use stack_forge.Firewall.Rules.{IsMeant, IsClosed, plan_rules-IsMeant, IsMeant-validate}

open_one_iff : (cidrs : List String) → (open_one cidrs ≡ none) ↔ All IsClosed cidrs
unfolding open_one
open_one_iff [] = (λ h. tt, λ h. refl)
open_one_iff (c ∷ cidrs) = elim (Bool-cases (is_open c)) [
  | inl wide ↦ rw (wide, open_one) (λ h. cc, λ (h, _). cc h)
  | inr closed ↦
      rw (closed, open_one)
        (λ h. (refl, (open_one_iff cidrs).0 h), λ (_, h). (open_one_iff cidrs).1 h)
]

refuse_open_iff :
    (cidrs : List String) (s t : String) → (refuse_open cidrs s t ≡ ok tt) ↔ All IsClosed cidrs
unfolding refuse_open
refuse_open_iff cidrs s t = elim (Option-cases (open_one cidrs)) [
  | inl closed ↦ rw (closed, refuse_open) (λ h. (open_one_iff cidrs).0 closed, λ h. refl)
  | inr (c, wide) ↦ rw (wide, refuse_open) (λ h. cc, λ h. cc (wide, (open_one_iff cidrs).1 h))
]

-- What the configuration must be for a plan to be built.
pub record IsPlannable (c : Config) (allow : Bool) : Type 0 where
  pub ssh_given : is_empty c.network.allowed_ssh_cidrs ≡ false
  pub admin_given : is_empty c.network.allowed_admin_cidrs ≡ false
  pub admin_closed : All IsClosed c.network.allowed_admin_cidrs
  pub ssh_closed : All (λ s. IsClosed s ⊎ (allow ≡ true)) c.network.allowed_ssh_cidrs

ssh-IsClosed_iff :
    (allow : Bool) (cidrs : List String)
    → All IsClosed (if allow then [] else cidrs) ↔ All (λ s. IsClosed s ⊎ (allow ≡ true)) cidrs
ssh-IsClosed_iff true cidrs = (λ h. allowed cidrs, λ h. tt)
  where
    allowed : (cidrs : List String) → All (λ s. IsClosed s ⊎ (true ≡ true)) cidrs
    allowed [] = tt
    allowed (c ∷ cidrs) = (inr refl, allowed cidrs)
ssh-IsClosed_iff false cidrs = (
  All-map cidrs (λ c h. inl h),
  All-map cidrs (λ c h. elim h [ inl closed ↦ closed | inr never ↦ cc ]),
)

IsPlannable-build_plan :
    (c : Config) (allow : Bool)
    → IsPlannable c allow
    → build_plan c allow ≡ ok (record { mode = "ufw"; rules = plan_rules c; warnings = [] })
unfolding build_plan
IsPlannable-build_plan c allow h =
    rw
      (
        h.ssh_given,
        h.admin_given,
        (refuse_open_iff c.network.allowed_admin_cidrs "allowed_admin_cidrs must not include " "").1
            h.admin_closed,
        (refuse_open_iff (if allow then [] else c.network.allowed_ssh_cidrs)
              "allowed_ssh_cidrs contains " "; use --allow-public-ssh only after explicit review").1
            ((ssh-IsClosed_iff allow c.network.allowed_ssh_cidrs).1 h.ssh_closed),
        IsMeant-validate allow (plan_rules c)
            (plan_rules-IsMeant allow c h.admin_closed h.ssh_closed),
      )
      refl

build_plan_lem :
    (c : Config) (allow : Bool) (p : Plan)
    → build_plan c allow ≡ ok p
    → (is_empty c.network.allowed_ssh_cidrs ≡ false)
      × (is_empty c.network.allowed_admin_cidrs ≡ false)
      × (refuse_open c.network.allowed_admin_cidrs "allowed_admin_cidrs must not include " ""
          ≡ ok tt)
      × (refuse_open
            (if allow then [] else c.network.allowed_ssh_cidrs)
            "allowed_ssh_cidrs contains "
            "; use --allow-public-ssh only after explicit review"
          ≡ ok tt)
      × (plan_rules c ≡ p.rules)
unfolding build_plan
build_plan_lem c allow p h = ground arith

build_plan-IsPlannable :
    (c : Config) (allow : Bool) (p : Plan)
    → build_plan c allow ≡ ok p
    → IsPlannable c allow × (plan_rules c ≡ p.rules)
build_plan-IsPlannable c allow p h =
    let (ssh, admin, closed, hidden, rules) = build_plan_lem c allow p h in
    (
      record {
        ssh_given = ssh;
        admin_given = admin;
        admin_closed = (refuse_open_iff c.network.allowed_admin_cidrs _ _).0 closed;
        ssh_closed =
            (ssh-IsClosed_iff allow c.network.allowed_ssh_cidrs).0
              ((refuse_open_iff (if allow then [] else c.network.allowed_ssh_cidrs) _ _).0 hidden);
      },
      rules,
    )

-- `BuildPlanWithOptions` succeeds exactly when SSH and admin CIDRs are given, no admin CIDR is the
-- text `0.0.0.0/0` or `::/0`, and no SSH CIDR is one of the two unless public SSH is allowed: its
-- own call of `Validate` never fails.
pub build_plan_iff :
    (c : Config) (allow : Bool) → ((p : Plan) × (build_plan c allow ≡ ok p)) ↔ IsPlannable c allow
build_plan_iff c allow = (
  λ (p, h). (build_plan-IsPlannable c allow p h).0,
  λ h. (
    record { mode = "ufw"; rules = plan_rules c; warnings = [] },
    IsPlannable-build_plan c allow h,
  ),
)

-- In a plan that `BuildPlanWithOptions` returns, a rule whose source is the text `0.0.0.0/0` or
-- `::/0` is Traefik's for port 80 or 443, or, where public SSH is allowed, a rule for SSH. Other
-- texts for all addresses, such as `1.2.3.4/0`, are not covered.
pub build_plan-IsMeant :
    (c : Config) (allow : Bool) (p : Plan) → build_plan c allow ≡ ok p → All (IsMeant allow) p.rules
build_plan-IsMeant c allow p h =
    let (k, rules) = build_plan-IsPlannable c allow p h in
    rw (← rules) (plan_rules-IsMeant allow c k.admin_closed k.ssh_closed)
