-- ===== src/Validation/Agreement.antt =====
-- What a report of a validation means.
use Prim.Native.String.{◌++◌ as ◌<>◌}
use stack_forge.Base.{
  ℕ, String, ◌≡◌, ◌⊎◌, Bool, true, false, not, ◌&&◌, Option, none, some, List, [], ◌∷◌, ok,
}
use stack_forge.Text.{is_set}
use stack_forge.Remote.{Executor}
use stack_forge.Config as Config
use stack_forge.Config.{Config, NodeConfig}
use stack_forge.Inventory.Observe.{parse_observation}
use stack_forge.Safety as Safety
use stack_forge.Safety.Gate as Gate
use stack_forge.Firewall as Firewall
use stack_forge.Validation.{Options, domain_looks_real, cloudflare_enabled, safety_options, ask}
use stack_forge.Validation.Checks.{IsReady}

-- What a validation asks of a configuration.
pub record IsSound (getenv : String → String) (c : Config) (o : Options) : Type 0 where
  pub gate : Gate.IsSafe c (safety_options o)
  pub domain : domain_looks_real c.control_plane.domain ≡ true
  pub dashboard :
      c.traefik.dashboard_enabled && not (domain_looks_real c.traefik.dashboard_domain) ≡ false
  pub token : cloudflare_enabled c ≡ true → is_set (getenv c.cloudflare.api_token_env) ≡ true
  pub firewall :
      ((plan : Firewall.Plan) × (Firewall.build_plan c false ≡ ok plan))
      ⊎ (o.allow_no_firewall ≡ true)

module _ {S : Type 0} (parse_int : String → ℕ) (c : Config) (o : Options) where
  -- What the nodes have to answer, each in its turn: in a dry run and without an executor nothing.
  abbrev pub AreReady : Bool → Option (Executor S) → List NodeConfig → S → Type 0
  AreReady true exec nodes s = Unit
  AreReady false none nodes s = Unit
  AreReady false (some exec) [] s = Unit
  AreReady false (some exec) (n ∷ nodes) s =
      (((ask parse_int c o exec n s).1.1 ≡ none)
        × IsReady parse_int (parse_observation (ask parse_int c o exec n s).1.0.stdout)
            o.allow_no_firewall)
      × AreReady false (some exec) nodes (ask parse_int c o exec n s).0

module _ {S : Type 0} (parse_int : String → ℕ) (getenv : String → String) where
  -- What the validation takes for a cluster that can be installed.
  abbrev pub IsInstallable : Option Config → Option (Executor S) → Options → S → Type 0
  IsInstallable none exec o s = ⊥
  IsInstallable (some c) exec o s =
      (Config.validate c ≡ ok tt)
      × IsSound getenv c o
      × AreReady parse_int c o o.dry_run exec c.nodes s
