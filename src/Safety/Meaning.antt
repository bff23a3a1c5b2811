-- ===== src/Safety/Meaning.antt =====
-- What the gate means for the single nodes and CIDRs of a configuration.
use stack_forge.Base.{String, ◌≡◌, ◌≢◌, ◌⊎◌, true, false, All}
use stack_forge.Text.{trim_space, equal_fold}
use stack_forge.Config.{Config, NodeConfig}
use stack_forge.Safety.{Options, is_example_ip, is_example_domain, is_placeholder_secret, has_role}

-- A CIDR that is none of the two for all addresses, spaces aside
abbrev pub IsNarrow : String → Type 0
IsNarrow c = (trim_space c ≢ "0.0.0.0/0") × (trim_space c ≢ "::/0")

-- A node's addresses, neither of which is in a block of RFC 5737
abbrev pub IsReal : NodeConfig → Type 0
IsReal n = (is_example_ip n.address ≡ false) × (is_example_ip n.public_address ≡ false)

-- What is true of a configuration that passes the gate.
pub record IsGuarded (c : Config) (o : Options) : Type 0 where
  pub confirmed :
      (o.production ≡ true) ⊎ (equal_fold c.cluster.environment "production" ≡ true)
      → o.confirm_production ≡ true
  pub admin : All IsNarrow c.network.allowed_admin_cidrs
  pub ssh : (o.allow_public_ssh ≡ true) ⊎ All IsNarrow c.network.allowed_ssh_cidrs
  pub dashboard : (c.traefik.dashboard_enabled ≡ false) ⊎ (c.traefik.dashboard_basic_auth ≡ true)
  pub databases :
      All
        (λ n.
          has_role n "database" ≡ true
          → (n.public_address ≡ "")
            ⊎ ((n.public_address ≢ n.address)
                × (c.network.allow_public_internal_communication ≡ false)))
        c.nodes
  pub apis :
      c.network.allow_public_internal_communication ≡ true
      → All
          (λ n.
            (has_role n "consul-server" ≡ true) ⊎ (has_role n "nomad-server" ≡ true)
            → n.public_address ≡ "")
          c.nodes
  pub real :
      o.live ≡ true
      → o.allow_example_config ≡ false
      → All IsReal c.nodes
        × (is_example_domain c.control_plane.domain ≡ false)
        × (is_example_domain c.traefik.dashboard_domain ≡ false)
        × (is_example_domain c.traefik.email ≡ false)
        × All (λ k. is_placeholder_secret k ≡ false) c.control_plane.admin_api_keys
