-- ===== src/Verification/Roles.antt =====
-- What a node has to say for each of its roles.
use stack_forge.Base.{
  String, ◌≡◌, refl, Bool, true, false, ◌&&◌, ◌||◌, ◌==◌, Extends, ◌&>◌, restate, if-Extends,
}
use stack_forge.Text.{contains, is_set}
use stack_forge.Maps.{StringMap, lookup_or}
use stack_forge.Inventory.{Node}
use stack_forge.Verification.{
  Report, add, expect, has_role, is_healthy_value, check_control_plane, check_database,
  check_consul, check_nomad, check_traefik, check_node,
}

-- What a node has to report for each of its roles.
module _ (facts : StringMap String) where
  abbrev pub Says : String → String → Type 0
  Says k v = (lookup_or "" k facts == v) ≡ true

  pub record IsControlPlaneUp : Type 0 where
    pub service : Says "stackforge_service" "active"
    pub health : is_healthy_value (lookup_or "" "stackforge_health" facts) ≡ true
    pub guarded : Says "stackforge_api_code" "401"
    pub secret : Says "remote_env_mode" "600"

  pub record IsDatabaseUp : Type 0 where
    pub service : Says "postgres_service" "active"
    pub answers : Says "postgres_query" "1"
    pub migrated :
        (lookup_or "" "postgres_migrations" facts == "t"
          || lookup_or "" "postgres_migrations" facts == "true")
        ≡ true
    pub closed : Says "postgres_public" "no"

  pub record IsServerUp (service members : String) : Type 0 where
    pub active : Says service "active"
    pub joined : is_set (lookup_or "" members facts) ≡ true

  pub record IsTraefikUp : Type 0 where
    pub service : Says "traefik_service" "active"
    pub ports :
        (contains (lookup_or "" "traefik_ports" facts) ":80"
          && contains (lookup_or "" "traefik_ports" facts) ":443")
        ≡ true

pub record IsHealthy (n : Node) (facts : StringMap String) : Type 0 where
  pub control_plane : has_role n "control-plane" ≡ true → IsControlPlaneUp facts
  pub database : has_role n "database" ≡ true → IsDatabaseUp facts
  pub consul :
      has_role n "consul-server" ≡ true → IsServerUp facts "consul_service" "consul_members"
  pub nomad : has_role n "nomad-server" ≡ true → IsServerUp facts "nomad_service" "nomad_leader"
  pub traefik : has_role n "traefik" ≡ true → IsTraefikUp facts
  pub firewall : Says facts "firewall" "ufw"

abbrev pub is_ok : Report → Bool
is_ok r = r.safe

-- A report is safe behind a check exactly if it was safe before and the check holds.
abbrev pub Adds : Type 0 → Report → Report → Type 0
Adds P before after = Extends is_ok P before after

expect-Adds :
    (node name message : String) (b : Bool) (r : Report)
    → Adds (b ≡ true) r (expect node name b message r)
unfolding expect add
expect-Adds node name message true r = record { iff = (λ h. (refl, h), λ (b, h). h) }
expect-Adds node name message false r = record { iff = (λ h. cc h, λ (b, h). cc b) }

module _ (node : String) (facts : StringMap String) (r : Report) where
  check_control_plane-Adds : Adds (IsControlPlaneUp facts) r (check_control_plane node facts r)
  unfolding check_control_plane
  check_control_plane-Adds =
      restate (λ (((a, b), c), d). record { service = a; health = b; guarded = c; secret = d })
        (λ up. (((up.service, up.health), up.guarded), up.secret))
        (expect-Adds _ _ _ _ _
          &> expect-Adds _ _ _ _ _
          &> expect-Adds _ _ _ _ _
          &> expect-Adds _ _ _ _ _)

  check_database-Adds : Adds (IsDatabaseUp facts) r (check_database node facts r)
  unfolding check_database
  check_database-Adds =
      restate (λ (((a, b), c), d). record { service = a; answers = b; migrated = c; closed = d })
        (λ up. (((up.service, up.answers), up.migrated), up.closed))
        (expect-Adds _ _ _ _ _
          &> expect-Adds _ _ _ _ _
          &> expect-Adds _ _ _ _ _
          &> expect-Adds _ _ _ _ _)

  check_consul-Adds :
      Adds (IsServerUp facts "consul_service" "consul_members") r (check_consul node facts r)
  unfolding check_consul
  check_consul-Adds =
      restate (λ (a, b). record { active = a; joined = b }) (λ up. (up.active, up.joined))
        (expect-Adds _ _ _ _ _ &> expect-Adds _ _ _ _ _)

  check_nomad-Adds :
      Adds (IsServerUp facts "nomad_service" "nomad_leader") r (check_nomad node facts r)
  unfolding check_nomad
  check_nomad-Adds =
      restate (λ (a, b). record { active = a; joined = b }) (λ up. (up.active, up.joined))
        (expect-Adds _ _ _ _ _ &> expect-Adds _ _ _ _ _)

  check_traefik-Adds : Adds (IsTraefikUp facts) r (check_traefik node facts r)
  unfolding check_traefik
  check_traefik-Adds =
      restate (λ (a, b). record { service = a; ports = b }) (λ up. (up.service, up.ports))
        (expect-Adds _ _ _ _ _ &> expect-Adds _ _ _ _ _)

pub check_node-Adds :
    (n : Node) (facts : StringMap String) (r : Report)
    → Adds (IsHealthy n facts) r (check_node n facts r)
unfolding check_node
check_node-Adds n facts r =
    restate
      (λ (((((a, b), c), d), e), f). record {
        control_plane = a;
        database = b;
        consul = c;
        nomad = d;
        traefik = e;
        firewall = f;
      })
      (λ up. (((((up.control_plane, up.database), up.consul), up.nomad), up.traefik), up.firewall))
      (if-Extends (has_role n "control-plane") (check_control_plane-Adds n.name facts r)
        &> if-Extends (has_role n "database") (check_database-Adds n.name facts _)
        &> if-Extends (has_role n "consul-server") (check_consul-Adds n.name facts _)
        &> if-Extends (has_role n "nomad-server") (check_nomad-Adds n.name facts _)
        &> if-Extends (has_role n "traefik") (check_traefik-Adds n.name facts _)
        &> expect-Adds _ _ _ _ _)
