-- ===== src/Firewall/Rules.antt =====
-- The rules of a plan by their source, and what `Validate` makes of them. Only the texts `0.0.0.0/0`
-- and `::/0` count as open, as in the code; `1.2.3.4/0` does not.
use Prim.Native.String.{◌++◌ as ◌<>◌}
use stack_forge.Base.{
  ℕ, String, ◌≡◌, refl, Bool, true, false, ◌⊎◌, inl, inr, Bool-cases, none, List, [], ◌∷◌, any, All,
  All-append, arith, ◌==◌, eq_iff,
}
use stack_forge.Text.Laws.{has_suffix-append}
use stack_forge.Text.{has_suffix, contains, to_lower, texts}
use stack_forge.Config.{Config, NodeConfig}
use stack_forge.Firewall.{
  Rule, is_open, rule, on_nodes, on_nodes_each, ssh_rules, web_rules, admin_rules, internal_rules,
  dashboard_rules, plan_rules, is_refused, validate, node_names, private_source, exposure,
}

-- A rule whose source is one of the two texts is Traefik's port 80 or 443, or SSH where that is allowed.
abbrev pub IsMeant : Bool → Rule → Type 0
IsMeant allow r =
    (is_open r.source ≡ false)
    ⊎ (((r.role ≡ "traefik") × ((r.port ≡ 80) ⊎ (r.port ≡ 443)))
        ⊎ ((allow ≡ true) × (r.purpose ≡ "SSH")))

abbrev pub IsClosed : String → Type 0
IsClosed cidr = is_open cidr ≡ false

module _ (allow : Bool) where
  on_nodes-IsMeant :
      (nodes : List String) (r : Rule) → IsMeant allow r → All (IsMeant allow) (on_nodes nodes r)
  unfolding on_nodes
  on_nodes-IsMeant [] r h = tt
  on_nodes-IsMeant (node ∷ nodes) r h = (h, on_nodes-IsMeant nodes r h)

  on_nodes_each-IsMeant :
      (nodes : List String) (rs : List Rule)
      → All (IsMeant allow) rs
      → All (IsMeant allow) (on_nodes_each nodes rs)
  unfolding on_nodes_each
  on_nodes_each-IsMeant nodes [] h = tt
  on_nodes_each-IsMeant nodes (r ∷ rs) (h, hs) =
      All-append (IsMeant allow) (on_nodes nodes r) (on_nodes_each nodes rs)
        (on_nodes-IsMeant nodes r h) (on_nodes_each-IsMeant nodes rs hs)

  ssh_rules-IsMeant :
      (port : ℕ) (nodes cidrs : List String)
      → All (λ c. IsClosed c ⊎ (allow ≡ true)) cidrs
      → All (IsMeant allow) (ssh_rules port nodes cidrs)
  unfolding ssh_rules
  ssh_rules-IsMeant port nodes [] h = tt
  ssh_rules-IsMeant port nodes (c ∷ cidrs) (h, hs) =
      All-append (IsMeant allow) (on_nodes nodes (rule "ssh" port "tcp" c "SSH" (exposure c)))
        (ssh_rules port nodes cidrs)
        (on_nodes-IsMeant nodes (rule "ssh" port "tcp" c "SSH" (exposure c))
          (elim h [ inl closed ↦ inl closed | inr allowed ↦ inr (inr (allowed, refl)) ]))
        (ssh_rules-IsMeant port nodes cidrs hs)

  web_rules-IsMeant : (nodes : List String) → All (IsMeant allow) (web_rules nodes)
  unfolding web_rules
  web_rules-IsMeant [] = tt
  web_rules-IsMeant (node ∷ nodes) =
      (inr (inl (refl, inl refl)), (inr (inl (refl, inr refl)), web_rules-IsMeant nodes))

  admin_rules-IsMeant :
      (port : ℕ) (nodes cidrs : List String)
      → All IsClosed cidrs
      → All (IsMeant allow) (admin_rules port nodes cidrs)
  unfolding admin_rules
  admin_rules-IsMeant port nodes [] h = tt
  admin_rules-IsMeant port nodes (c ∷ cidrs) (h, hs) =
      All-append (IsMeant allow)
        (on_nodes_each nodes (
          rule "control-plane" port "tcp" c "StackForge API" (exposure c)
          ∷ rule "consul-server" 8500 "tcp" c "Consul HTTP/UI" (exposure c)
          ∷ rule "nomad-server" 4646 "tcp" c "Nomad HTTP/UI" (exposure c)
          ∷ []))
        (admin_rules port nodes cidrs) (on_nodes_each-IsMeant nodes _ (inl h, (inl h, (inl h, tt))))
        (admin_rules-IsMeant port nodes cidrs hs)

  dashboard_rules-IsMeant :
      (nodes cidrs : List String)
      → All IsClosed cidrs
      → All (IsMeant allow) (dashboard_rules nodes cidrs)
  unfolding dashboard_rules
  dashboard_rules-IsMeant nodes [] h = tt
  dashboard_rules-IsMeant nodes (c ∷ cidrs) (h, hs) =
      All-append (IsMeant allow)
        (on_nodes nodes (rule "traefik" 8080 "tcp" c "Traefik dashboard" (exposure c)))
        (dashboard_rules nodes cidrs)
        (on_nodes-IsMeant nodes (rule "traefik" 8080 "tcp" c "Traefik dashboard" (exposure c))
          (inl h))
        (dashboard_rules-IsMeant nodes cidrs hs)

  internal_rules-IsMeant :
      (private engine : String) (nodes : List String)
      → IsClosed private
      → All (IsMeant allow) (internal_rules private engine nodes)
  unfolding internal_rules
  internal_rules-IsMeant private engine nodes h =
      on_nodes_each-IsMeant nodes _
        (inl h, (inl h, (inl h, (inl h, (inl h, (inl h, (inl h, tt)))))))

-- No text that ends in `/32` is one of the two.
host_route-IsClosed : (s : String) → has_suffix s "/32" ≡ true → IsClosed s
unfolding is_open has_suffix
host_route-IsClosed s h = elim (Bool-cases (s == "0.0.0.0/0")) [
  | inl e ↦ cc (rw ((eq_iff s "0.0.0.0/0").0 e) at h)
  | inr e ↦ elim (Bool-cases (s == "::/0")) [
    | inl f ↦ cc (rw ((eq_iff s "::/0").0 f) at h)
    | inr f ↦ rw (e, f) refl
  ]
]

private_source_lem :
    (c : Config) (nodes : List NodeConfig) → c.nodes ≡ nodes → IsClosed (private_source c)
unfolding private_source is_open
private_source_lem c [] e = rw (e, private_source) refl
private_source_lem c (n ∷ []) e =
    rw (e, private_source)
      (host_route-IsClosed (n.address <> "/32") (has_suffix-append n.address "/32"))
private_source_lem c (n ∷ m ∷ nodes) e = rw (e, private_source) refl

pub plan_rules-IsMeant :
    (allow : Bool) (c : Config)
    → All IsClosed c.network.allowed_admin_cidrs
    → All (λ s. IsClosed s ⊎ (allow ≡ true)) c.network.allowed_ssh_cidrs
    → All (IsMeant allow) (plan_rules c)
unfolding plan_rules node_names
plan_rules-IsMeant allow c admin ssh =
    All-append (IsMeant allow) (ssh_rules c.ssh.port (node_names c) c.network.allowed_ssh_cidrs) _
      (ssh_rules-IsMeant allow c.ssh.port (node_names c) c.network.allowed_ssh_cidrs ssh)
      (All-append (IsMeant allow) (web_rules (node_names c)) _
        (web_rules-IsMeant allow (node_names c))
        (All-append (IsMeant allow)
          (admin_rules c.control_plane.api_port (node_names c) c.network.allowed_admin_cidrs) _
          (admin_rules-IsMeant allow c.control_plane.api_port (node_names c)
            c.network.allowed_admin_cidrs admin)
          (All-append (IsMeant allow)
            (internal_rules (private_source c) c.database.engine (node_names c)) _
            (internal_rules-IsMeant allow (private_source c) c.database.engine (node_names c)
              (private_source_lem c c.nodes refl))
            (elim (Bool-cases c.traefik.dashboard_enabled) [
              | inl on ↦
                  rw on (
                    dashboard_rules-IsMeant allow (node_names c) c.network.allowed_admin_cidrs
                      admin)
              | inr off ↦ rw off tt
            ]))))

ssh_names :
    any (contains (to_lower "SSH")) ("database" ∷ "nomad" ∷ "consul" ∷ "dashboard" ∷ []) ≡ false
unfolding texts
ssh_names = refl

-- A rule that is meant passes `Validate`.
IsMeant-is_refused : (allow : Bool) (r : Rule) → IsMeant allow r → is_refused r ≡ false
unfolding is_refused
IsMeant-is_refused allow r (inl closed) = rw closed refl
IsMeant-is_refused allow r (inr (inl (traefik, inl http))) = ground arith
IsMeant-is_refused allow r (inr (inl (traefik, inr https))) = ground arith
IsMeant-is_refused allow r (inr (inr (allowed, ssh))) = rw (ssh, ssh_names) (ground arith)

pub IsMeant-validate : (allow : Bool) (rs : List Rule) → All (IsMeant allow) rs → validate rs ≡ none
unfolding validate
IsMeant-validate allow [] h = refl
IsMeant-validate allow (r ∷ rs) (h, hs) =
    rw (IsMeant-is_refused allow r h) (IsMeant-validate allow rs hs)
