-- ===== src/Config/Quorum.antt =====
-- What a configuration that `Validate` accepts satisfies.
use stack_forge.Base.{
  ℕ, ◌+◌, ◌%◌, ◌≤◌, eqb, String, ◌≡◌, ◌≢◌, refl, sym, ◌∙◌, ap, Bool, true, false, not, ◌&&◌, ◌||◌,
  ◌⊎◌, inl, inr, Bool-cases, List, [], ◌∷◌, ◌++◌, All, arith, if◌then◌else◌, ◌==◌, eq_iff, eq_refl,
  ok, ok-injective, fail_if,
}
use stack_forge.Text.{is_set, occurrences}
use stack_forge.Net.{is_cidr}
use stack_forge.Maps.{StringMap, lookup, insert, lookup_or, lookup-insert, same_or_not}
use stack_forge.Config.{
  Config, NodeConfig, apply_defaults, add_roles, tally, check_cidrs, check_roles, or_default,
  or_port, validate,
}

-- How often a role stands in the lists of some nodes.
abbrev pub holders : String → List NodeConfig → ℕ
holders r [] = 0
holders r (n ∷ nodes) = occurrences r n.roles + holders r nodes

-- How many nodes name a role.
abbrev pub servers : String → List NodeConfig → ℕ
servers r [] = 0
servers r (n ∷ nodes) = (if eqb (occurrences r n.roles) 0 then 0 else 1) + servers r nodes

-- No node names the role twice.
abbrev pub IsOnce : String → List NodeConfig → Type 0
IsOnce r = All (λ n. occurrences r n.roles ≤ 1)

holders_once :
    (r : String) (nodes : List NodeConfig) → IsOnce r nodes → holders r nodes ≡ servers r nodes
holders_once r [] h = refl
holders_once r (n ∷ nodes) (h, hs) = let rest = holders_once r nodes hs in ground (arith, h, rest)

-- Where each node names a role at most once, an odd number of times is an odd number of nodes.
abbrev pub IsOdd : String → List NodeConfig → Type 0
IsOdd r nodes = (holders r nodes % 2 ≡ 1) × (IsOnce r nodes → servers r nodes % 2 ≡ 1)

IsOdd-of : (r : String) (nodes : List NodeConfig) → holders r nodes % 2 ≡ 1 → IsOdd r nodes
IsOdd-of r nodes h = (h, λ once. ap (λ n. n % 2) (sym (holders_once r nodes once)) ∙ h)

-- A node is named and addressed, and uses a public address inside only where that is allowed.
abbrev pub IsAdmissible : Bool → NodeConfig → Type 0
IsAdmissible allow_public n =
    (n.name ≢ "")
    × (n.address ≢ "")
    × ((allow_public ≡ true) ⊎ ((n.public_address ≡ "") ⊎ (n.public_address ≢ n.address)))

lookup_or-insert :
    (r s : String) (n : ℕ) (m : StringMap ℕ)
    → lookup_or 0 r (insert s n m) ≡ (if s == r then n else lookup_or 0 r m)
lookup_or-insert r s n m =
    rw (lookup_or, lookup-insert r s n m)
      (elim (Bool-cases (s == r)) [ inl e ↦ rw e refl | inr e ↦ rw e refl ])

lookup_or-add_roles :
    (r : String) (rs : List String) (m : StringMap ℕ)
    → lookup_or 0 r (add_roles rs m) ≡ lookup_or 0 r m + occurrences r rs
unfolding add_roles
lookup_or-add_roles r [] m = omega arith
lookup_or-add_roles r (s ∷ rs) m =
    rw (lookup_or-add_roles r rs, lookup_or-insert)
      (elim (same_or_not s r) [
        | inl same ↦ rw (same, eq_refl r) (omega arith)
        | inr other ↦ elim (Bool-cases (s == r)) [
          | inl e ↦ absurd (other ((eq_iff s r).0 e))
          | inr e ↦ rw e (omega arith)
        ]
      ])

-- When the loop over the nodes succeeds, each node is admissible and each role is counted.
tally_lem :
    (allow_public : Bool) (nodes : List NodeConfig) (m m' : StringMap ℕ)
    → tally allow_public nodes m ≡ ok m'
    → All (IsAdmissible allow_public) nodes
      × ((r : String) → lookup_or 0 r m' ≡ lookup_or 0 r m + holders r nodes)
unfolding tally
tally_lem allow_public [] m m' h = (tt, λ r. rw (ok-injective h) (omega arith))
tally_lem allow_public (n ∷ nodes) m m' h =
    elim (Bool-cases ((n.name == "") || (n.address == ""))) [
      | inl nameless ↦ cc (rw (nameless, tally) at h)
      | inr named ↦
          elim (Bool-cases
            (not allow_public && is_set n.public_address && (n.public_address == n.address))) [
              | inl exposed ↦ cc (rw (named, exposed, tally) at h)
              | inr hidden ↦
                  let (rest, counted) =
                    tally_lem allow_public nodes (add_roles n.roles m) m'
                      (rw (named, hidden, tally) at h) in
                  (
                    (
                      (
                        λ e. ground (arith, eq_iff n.name ""),
                        λ e. ground (arith, eq_iff n.address ""),
                        ground
                            (arith, eq_iff n.public_address "", eq_iff n.public_address n.address),
                      ),
                      rest,
                    ),
                    λ r. counted r ∙ omega (arith, lookup_or-add_roles r n.roles m),
                  )
            ]
    ]

tally_new :
    (allow_public : Bool) (nodes : List NodeConfig) (m : StringMap ℕ)
    → tally allow_public nodes [] ≡ ok m
    → All (IsAdmissible allow_public) nodes × ((r : String) → lookup_or 0 r m ≡ holders r nodes)
unfolding lookup
tally_new allow_public nodes m h =
    let (admissible, counted) = tally_lem allow_public nodes [] m h in
    (admissible, λ r. counted r ∙ omega arith)

check_cidrs_lem :
    (cidrs : List String) → check_cidrs cidrs ≡ ok tt → All (λ c. is_cidr c ≡ true) cidrs
unfolding check_cidrs
check_cidrs_lem [] h = tt
check_cidrs_lem (c ∷ cidrs) h = elim (Bool-cases (is_cidr c)) [
  | inl good ↦ (good, check_cidrs_lem cidrs (rw (good, check_cidrs) at h))
  | inr bad ↦ cc (rw (bad, check_cidrs) at h)
]

fail_if-ok : (b : Bool) (e : String) {x : Unit {0}} → fail_if b e ≡ ok x → b ≡ false
fail_if-ok true e h = cc
fail_if-ok false e h = refl

-- What `Validate` promises of a configuration that it accepts.
pub record IsSound (c : Config) : Type 0 where
  pub admissible : All (IsAdmissible c.network.allow_public_internal_communication) c.nodes
  pub consul_odd : IsOdd "consul-server" c.nodes
  pub nomad_odd : IsOdd "nomad-server" c.nodes
  pub controlled : holders "control-plane" c.nodes ≢ 0
  pub stored : (c.database.engine ≡ "sqlite") ⊎ (holders "database" c.nodes ≢ 0)
  pub guarded : (c.traefik.dashboard_enabled ≡ false) ⊎ (c.traefik.dashboard_basic_auth ≡ true)
  pub ranges :
      All (λ r. is_cidr r ≡ true) (c.network.allowed_admin_cidrs ++ c.network.allowed_ssh_cidrs)

check_roles_lem :
    (c : Config) (m : StringMap ℕ)
    → check_roles c m ≡ ok tt
    → ((c.database.engine ≡ "sqlite") ⊎ (lookup_or 0 "database" m ≢ 0))
      × (lookup_or 0 "control-plane" m ≢ 0)
      × (lookup_or 0 "consul-server" m % 2 ≡ 1)
      × (lookup_or 0 "nomad-server" m % 2 ≡ 1)
unfolding check_roles
check_roles_lem c m h = ground (arith, eq_iff c.database.engine "sqlite")

validate_lem :
    (c : Config)
    → validate c ≡ ok tt
    → (m : StringMap ℕ) × (tally c.network.allow_public_internal_communication c.nodes [] ≡ ok m)
      × (check_roles c m ≡ ok tt)
      × ((c.traefik.dashboard_enabled ≡ false) ⊎ (c.traefik.dashboard_basic_auth ≡ true))
      × (check_cidrs (c.network.allowed_admin_cidrs ++ c.network.allowed_ssh_cidrs) ≡ ok tt)
unfolding validate
validate_lem c h = ground arith

-- The nodes of a configuration that `Validate` accepts name the role consul-server an odd number of
-- times, and so the role nomad-server; where no node names such a role twice, an odd number of
-- nodes has it. There is a control-plane node, and a database node unless the engine is sqlite;
-- nodes are named, addressed and use no public address inside unless that is allowed; an enabled
-- dashboard has basic auth, and the CIDRs are proper.
pub validate-IsSound : (c : Config) → validate c ≡ ok tt → IsSound c
validate-IsSound c h =
    let (m, tallied, roles, guarded, ranges) = validate_lem c h in
    let (admissible, count) =
      tally_new c.network.allow_public_internal_communication c.nodes m tallied in
    let (stored, controlled, consul, nomad) = check_roles_lem c m roles in
    record {
      admissible = admissible;
      consul_odd =
          IsOdd-of "consul-server" c.nodes (ap (λ n. n % 2) (sym (count "consul-server")) ∙ consul);
      nomad_odd =
          IsOdd-of "nomad-server" c.nodes (ap (λ n. n % 2) (sym (count "nomad-server")) ∙ nomad);
      controlled = λ e. controlled (count "control-plane" ∙ e);
      stored = elim stored [ inl e ↦ inl e | inr there ↦ inr (λ e. there (count "database" ∙ e)) ];
      guarded = guarded;
      ranges =
          check_cidrs_lem (c.network.allowed_admin_cidrs ++ c.network.allowed_ssh_cidrs) ranges;
    }

or_default_idem : (s d : String) → or_default (or_default s d) d ≡ or_default s d
or_default_idem s d = elim (Bool-cases (s == "")) [
  | inl e ↦ rw e (elim (Bool-cases (d == "")) [ inl f ↦ rw f refl | inr f ↦ rw f refl ])
  | inr e ↦ rw (e, e) refl
]

or_port_idem : (n d : ℕ) → or_port (or_port n d) d ≡ or_port n d
or_port_idem n d = ground arith

-- Applying the defaults of a configuration twice is applying them once.
apply_defaults_idem : (c : Config) → apply_defaults (apply_defaults c) ≡ apply_defaults c
unfolding apply_defaults
apply_defaults_idem c = simp (or_default_idem, or_port_idem)
