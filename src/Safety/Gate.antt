-- ===== src/Safety/Gate.antt =====
-- What passing the gate means.
use stack_forge.Base.{
  ◌≡◌, ◌↔◌, refl, sym, ◌∙◌, Bool, true, false, not, ◌&&◌, ◌||◌, inl, inr, Bool-cases, Option, none,
  some, ◌==◌, List, [], ◌∷◌, ◌++◌, String, all, arith,
}
use stack_forge.Text.{trim_space, equal_fold, is_set}
use stack_forge.Config.{Config}
use stack_forge.Safety.{
  Options, Report, Finding, add, add_if, is_example_cluster_name, example_config_value,
  database_public, internal_api_public, cloudflare_enabled, is_open, check, error, errors,
}

add_if-safe :
    (b : Bool) (code message : String) (r : Report)
    → (add_if b "error" code message r).safe ≡ (not b && r.safe)
unfolding add_if add
add_if-safe true code message r = refl
add_if-safe false code message r = refl

add_if-warning :
    (b : Bool) (code message : String) (r : Report)
    → (add_if b "warning" code message r).safe ≡ r.safe
unfolding add_if add
add_if-warning true code message r = refl
add_if-warning false code message r = refl

-- What a configuration must be for the gate to open.
pub record IsSafe (c : Config) (o : Options) : Type 0 where
  pub confirmed :
      (o.production || equal_fold c.cluster.environment "production") && not o.confirm_production
      ≡ false
  pub named : not o.allow_example_config && is_example_cluster_name c.cluster.name ≡ false
  pub real : o.live && not o.allow_example_config && is_set (example_config_value c) ≡ false
  pub admin_closed : is_open c.network.allowed_admin_cidrs ≡ false
  pub ssh_closed : is_open c.network.allowed_ssh_cidrs && not o.allow_public_ssh ≡ false
  pub guarded : c.traefik.dashboard_enabled && not c.traefik.dashboard_basic_auth ≡ false
  pub database_private : database_public c ≡ false
  pub apis_private : internal_api_public c ≡ false
  pub token_named : cloudflare_enabled c && (trim_space c.cloudflare.api_token_env == "") ≡ false

check-safe :
    (c : Config) (o : Options)
    → (check (some c) o).safe ≡ (
        not (cloudflare_enabled c && (trim_space c.cloudflare.api_token_env == ""))
        && (not (internal_api_public c)
            && (not (database_public c)
                && (not (c.traefik.dashboard_enabled && not c.traefik.dashboard_basic_auth)
                    && (not (is_open c.network.allowed_ssh_cidrs && not o.allow_public_ssh)
                        && (not (is_open c.network.allowed_admin_cidrs)
                            && (not (
                                  o.live
                                  && not o.allow_example_config
                                  && is_set (example_config_value c))
                                && (not (
                                      not o.allow_example_config
                                      && is_example_cluster_name c.cluster.name)
                                    && (not (
                                          (o.production
                                            || equal_fold c.cluster.environment "production")
                                          && not o.confirm_production)
                                        && true)))))))))
unfolding check
check-safe c o = simp (add_if-safe, add_if-warning)

-- A report is safe as long as no finding is an error.
abbrev pub IsConsistent : Report → Type 0
IsConsistent r = r.safe ≡ all (λ f. not (f.severity == "error")) r.findings

all-append :
    {A : Type 0} (p : A → Bool) (xs : List A) (x : A) → all p (xs ++ (x ∷ [])) ≡ (all p xs && p x)
all-append p [] x = ground arith
all-append p (y ∷ xs) x = rw (all-append p xs x) (ground arith)

add_if-IsConsistent :
    (b : Bool) (severity code message : String) (r : Report)
    → IsConsistent r
    → IsConsistent (add_if b severity code message r)
unfolding add_if add
add_if-IsConsistent true severity code message r h =
    rw (all-append {A = Finding} (λ f. not (f.severity == "error")), h) (ground arith)
add_if-IsConsistent false severity code message r h = h

pub check-IsConsistent : (c : Config) (o : Options) → IsConsistent (check (some c) o)
unfolding check
check-IsConsistent c o = add_if-IsConsistent _ _ _ _ _ (
    add_if-IsConsistent _ _ _ _ _ (
      add_if-IsConsistent _ _ _ _ _ (
        add_if-IsConsistent _ _ _ _ _ (
          add_if-IsConsistent _ _ _ _ _ (
            add_if-IsConsistent _ _ _ _ _ (
              add_if-IsConsistent _ _ _ _ _ (
                add_if-IsConsistent _ _ _ _ _
                  (add_if-IsConsistent _ _ _ _ _ (add_if-IsConsistent _ _ _ _ _ refl)))))))))

not-and : (b c : Bool) → (not b && c) ≡ true → (b ≡ false) × (c ≡ true)
not-and true c h = cc
not-and false c h = (refl, h)

pub errors_none : (c : Option Config) (o : Options) → errors c o ≡ none → (check c o).safe ≡ true
unfolding errors error
errors_none c o h = elim (Bool-cases (check c o).safe) [
  | inl e ↦ e
  | inr e ↦ cc (rw (e, error, errors) at h)
]

pub none_errors : (c : Option Config) (o : Options) → (check c o).safe ≡ true → errors c o ≡ none
unfolding errors error
none_errors c o h = rw (h, error, errors) refl

-- `Errors` returns nil exactly for a configuration that satisfies every test of the gate.
pub errors_iff : (c : Config) (o : Options) → (errors (some c) o ≡ none) ↔ IsSafe c o
errors_iff c o = (
  λ h.
      let s0 = sym (check-safe c o) ∙ errors_none (some c) o h in
      let (token, s1) = not-and _ _ s0 in
      let (apis, s2) = not-and _ _ s1 in
      let (database, s3) = not-and _ _ s2 in
      let (guarded, s4) = not-and _ _ s3 in
      let (ssh, s5) = not-and _ _ s4 in
      let (admin, s6) = not-and _ _ s5 in
      let (real, s7) = not-and _ _ s6 in
      let (named, s8) = not-and _ _ s7 in
      let (confirmed, _) = not-and _ _ s8 in
      record {
        confirmed = confirmed;
        named = named;
        real = real;
        admin_closed = admin;
        ssh_closed = ssh;
        guarded = guarded;
        database_private = database;
        apis_private = apis;
        token_named = token;
      },
  λ k. none_errors (some c) o (
      check-safe c o
      ∙ rw
          (
            k.token_named, k.apis_private, k.database_private, k.guarded, k.ssh_closed,
            k.admin_closed, k.real, k.named, k.confirmed,
          )
          refl),
)
