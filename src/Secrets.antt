-- ===== src/Secrets.antt =====
-- The generated secrets, internal/stackforge/secrets/secrets.go. A method of a nil pointer returns
-- its zero value, which the callers here test before.
pub mod Reload
use Prim.Native.String.{◌++◌ as ◌<>◌}
use stack_forge.Base.{
  ℕ, String, Bool, true, false, not, ◌&&◌, Option, none, some, List, [], ◌∷◌, ◌++◌, if◌then◌else◌,
  ◌==◌, Result, ok, err, ◌>>=◌,
}
use stack_forge.Text.{trim_space, join, is_set}
use stack_forge.Shell.{shell_quote}
use stack_forge.Remote.{Command, redact}

pub record Secrets : Type 0 where
  pub consul_gossip_key : String
  pub consul_bootstrap_token : String
  pub nomad_bootstrap_token : String
  pub stack_forge_admin_api_key : String
  pub database_password : String
  pub traefik_dashboard_password : String
  pub internal_service_token : String
  pub created_at : ℕ

-- The file of the secrets and the source of random tokens, with a state that stands for both.
pub record Vault (S : Type 0) : Type 0 where
  -- `os.ReadFile`, and what `yaml.Unmarshal` makes of the contents
  pub read : S → Option (Result Secrets)
  -- `os.MkdirAll`, `yaml.Marshal` and `os.WriteFile`
  pub write : Secrets → S → S × Option String
  -- `token(n)`
  pub token : ℕ → S → S × Result String
  pub now : ℕ

-- An admin key of the configuration that is used as it is.
unfoldable pub given_key : List String → Option String
given_key [] = none
given_key (key ∷ keys) =
    if is_set (trim_space key) && not (key == "change-me") && not (key == "generated-by-install")
    then some key
    else none

module _ {S : Type 0} (vault : Vault S) where
  -- A chain of draws, where the first that fails ends it.
  abbrev Draw : Type 0 → Type 0
  Draw A = S → S × Result A

  infixl 5 ◌then_draw◌
  abbrev ◌then_draw◌ : {A B : Type 0} → Draw A → (A → Draw B) → Draw B
  (first then_draw next) s =
      let (s', r) = first s in elim r [ err e ↦ (s', err e) | ok a ↦ next a s' ]

  abbrev answer : {A : Type 0} → A → Draw A
  answer a s = (s, ok a)

  -- The draws of `LoadOrGenerate`, in order.
  unfoldable pub generate : List String → Bool → S → S × Result Secrets
  generate admin_keys traefik_dashboard = vault.token 32 then_draw λ gossip.
      vault.token 32 then_draw λ consul. vault.token 32 then_draw λ nomad.
      (elim (given_key admin_keys) [ some key ↦ answer key | none ↦ vault.token 32 ])
      then_draw λ key. vault.token 30 then_draw λ password.
          (if traefik_dashboard then vault.token 24 else answer "") then_draw λ dashboard.
          vault.token 32 then_draw λ internal. answer (record {
            consul_gossip_key = gossip;
            consul_bootstrap_token = consul;
            nomad_bootstrap_token = nomad;
            stack_forge_admin_api_key = key;
            database_password = password;
            traefik_dashboard_password = dashboard;
            internal_service_token = internal;
            created_at = vault.now;
          })

  -- `LoadOrGenerate`; the flag tells whether the secrets were generated.
  unfoldable pub load_or_generate : List String → Bool → S → S × Result (Secrets × Bool)
  load_or_generate admin_keys traefik_dashboard s = elim (vault.read s) [
    | some (err e) ↦ (s, err e)
    | some (ok found) ↦ (s, ok (found, false))
    | none ↦
        let (s', made) = generate admin_keys traefik_dashboard s in
        elim made [
          | err e ↦ (s', err e)
          | ok new ↦
              let (s'', fault) = vault.write new s' in
              (s'', elim fault [ some e ↦ err e | none ↦ ok (new, true) ])
        ]
  ]

-- `Redact`
unfoldable pub redacted : String → String
redacted text = if text == "" then text else "[REDACTED]"

-- `Values`
unfoldable pub values : Secrets → List String
values s =
    s.consul_gossip_key ∷ s.consul_bootstrap_token ∷ s.nomad_bootstrap_token
    ∷ s.stack_forge_admin_api_key ∷ s.database_password ∷ s.traefik_dashboard_password
    ∷ s.internal_service_token ∷ []

-- `Env`
unfoldable pub env : String → Secrets → String
env database_url s =
    join "\n" (
      "STACKFORGE_ENV=production"
      ∷ ("STACKFORGE_ADMIN_API_KEYS=" <> shell_quote s.stack_forge_admin_api_key)
      ∷ ("STACKFORGE_INTERNAL_SERVICE_TOKEN=" <> shell_quote s.internal_service_token)
      ∷ ("CONSUL_HTTP_TOKEN=" <> shell_quote s.consul_bootstrap_token)
      ∷ ("NOMAD_TOKEN=" <> shell_quote s.nomad_bootstrap_token)
      ∷ ("STACKFORGE_DATABASE_PASSWORD=" <> shell_quote s.database_password)
      ∷ ((if is_set database_url then ("DATABASE_URL=" <> shell_quote database_url) ∷ [] else [])
          ++ (if is_set s.traefik_dashboard_password
              then ("TRAEFIK_DASHBOARD_PASSWORD=" <> shell_quote s.traefik_dashboard_password) ∷ []
              else [])))
    <> "\n"

module _ (base64 : String → String) where
  -- `DeployEnvCommand`
  unfoldable pub deploy_env_command : String → List String → Command
  deploy_env_command text secret_values = record {
    command =
        "install -d -m 0750 /etc/stackforge && printf %s "
        <> (shell_quote (base64 text)
            <> " | base64 -d > /etc/stackforge/stackforge.env && chown root:root /etc/stackforge/stackforge.env && chmod 0600 /etc/stackforge/stackforge.env");
    sudo = true;
    timeout = 30;
    secrets = base64 text ∷ secret_values;
  }

-- `VerifyRemoteEnvPermissionsCommand`
abbrev pub verify_remote_env_permissions_command : Command
verify_remote_env_permissions_command = record {
  command =
      "test -f /etc/stackforge/stackforge.env && stat -c '%U:%G %a' /etc/stackforge/stackforge.env | grep -Eq '^root:root 600$|^root:root 640$'";
  sudo = true;
  timeout = 15;
  secrets = [];
}

-- `RedactAll`
unfoldable pub redact_all : String → List String → String
redact_all text secret_values = redact text secret_values
