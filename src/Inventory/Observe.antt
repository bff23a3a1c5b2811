-- ===== src/Inventory/Observe.antt =====
-- What a node reports of itself, internal/stackforge/inventory/observe.go.
use Prim.Native.String.{◌++◌ as ◌<>◌}
use stack_forge.Base.{
  ℕ, String, not, ◌&&◌, Option, none, some, List, [], ◌∷◌, ◌++◌, if◌then◌else◌, ◌==◌,
}
use stack_forge.Text.{trim_space, split, cut, is_set}
use stack_forge.Maps.{StringMap, lookup_or, insert}
use stack_forge.Inventory.{Inventory, Node, normalize, mark_health_check}

-- `parseObservation`
unfoldable pub parse_lines : List String → StringMap String → StringMap String
parse_lines [] m = m
parse_lines (line ∷ lines) m = elim (cut "=" line) [
  | none ↦ parse_lines lines m
  | some (key, value) ↦ parse_lines lines (insert (trim_space key) (trim_space value) m)
]

unfoldable pub parse_observation : String → StringMap String
parse_observation stdout = parse_lines (split "\n" stdout) []

set_ones : List String → List String
set_ones [] = []
set_ones (s ∷ ss) =
    let rest = set_ones ss in if trim_space s == "" then rest else trim_space s ∷ rest

-- `splitCSV`
unfoldable pub split_csv : String → List String
unfolding set_ones
split_csv s = set_ones (split "," s)

-- `setIf`
unfoldable pub set_if : String → String → StringMap String → StringMap String
set_if k v m = if trim_space v == "" then m else insert k (trim_space v) m

-- `valueOr`
unfoldable pub value_or : String → String → String
value_or v fallback = if trim_space v == "" then fallback else trim_space v

-- The node as the loop of `ApplyObservation` leaves it.
unfoldable pub observe_node : ℕ → StringMap String → List String → Node → Node
observe_node now facts warnings n =
    let at : String → String = λ k. lookup_or "" k facts in
    record n {
      os_name = at "os_name";
      os_version = at "os_version";
      kernel = at "kernel";
      observed_ips = split_csv (at "observed_ips");
      firewall = value_or (at "firewall") "unknown";
      listening = split_csv (at "listening");
      last_observed = now;
      warnings = n.warnings ++ warnings;
      versions = set_if "postgres" (at "postgres_version") (
          set_if "traefik" (at "traefik_version") (
            set_if "nomad" (at "nomad_version")
              (set_if "consul" (at "consul_version") n.versions)));
      services = set_if "stackforge-control-plane" (at "stackforge_service") (
          set_if "postgres" (at "postgres_service") (
            set_if "traefik" (at "traefik_service") (
              set_if "nomad" (at "nomad_service")
                (set_if "consul" (at "consul_service") n.services))));
      leaders = set_if "nomad" (at "nomad_leader") (set_if "consul" (at "consul_leader") n.leaders);
      components = set_if "stackforge_health" (at "stackforge_health") (
          set_if "nomad_nodes" (at "nomad_nodes")
            (set_if "consul_members" (at "consul_members") n.components));
      health_status = "observed";
    }

-- The loops that copy a node's versions and services, under the node's name. Go ranges over the map
-- in no fixed order, which the distinct keys make irrelevant.
unfoldable pub copy_entries : String → StringMap String → StringMap String → StringMap String
copy_entries node [] m = m
copy_entries node ((k, v) ∷ entries) m =
    copy_entries node entries (if is_set v then insert (node <> ("/" <> k)) v m else m)

-- What the loop of `ApplyObservation` does for a node of the name.
unfoldable pub observe_at : ℕ → StringMap String → List String → Node → Inventory → Inventory
observe_at now facts warnings n inv =
    let seen = observe_node now facts warnings n in
    record inv {
      component_versions = copy_entries seen.name seen.versions inv.component_versions;
      service_status = copy_entries seen.name seen.services inv.service_status;
      firewall_mode =
          if is_set seen.firewall && not (seen.firewall == "unknown")
          then seen.firewall
          else inv.firewall_mode;
    }

-- The loop of `ApplyObservation`: the nodes, and the inventory around them.
unfoldable pub observe_nodes :
    ℕ → String → StringMap String → List String → List Node → Inventory → List Node × Inventory
observe_nodes now name facts warnings [] inv = ([], inv)
observe_nodes now name facts warnings (n ∷ nodes) inv =
    if not (n.name == name)
    then (let (rest, inv') = observe_nodes now name facts warnings nodes inv in (n ∷ rest, inv'))
    else let (rest, inv') =
        observe_nodes now name facts warnings nodes (observe_at now facts warnings n inv) in
      (observe_node now facts warnings n ∷ rest, inv')

-- `ApplyObservation`
unfoldable pub apply_observation : ℕ → String → String → List String → Inventory → Inventory
apply_observation now name stdout warnings inv =
    let before = normalize inv in
    let (nodes, after) =
      observe_nodes now name (parse_observation stdout) warnings before.nodes before in
    mark_health_check now "observed" warnings (record after { nodes = nodes })

-- The executor of `Refresh`: a state, and for the address of a node the output and an error.
abbrev pub Executor : Type 0 → Type 0
Executor S = String → S → S × (String × Option String)

module _ {S : Type 0} (run : Executor S) (now : ℕ) where
  -- The loop of `Refresh` over the nodes that the inventory had when it began.
  unfoldable pub refresh_each :
      List Node → List String → Inventory → S → S × (Inventory × List String)
  refresh_each [] warnings inv s = (s, (inv, warnings))
  refresh_each (n ∷ nodes) warnings inv s =
      let (s', (stdout, fault)) = run n.private_ip s in
      let own : List String = elim fault [
        | none ↦ []
        | some e ↦ ("inventory refresh failed for " <> (n.name <> (": " <> e))) ∷ []
      ] in
      refresh_each nodes (warnings ++ own) (apply_observation now n.name stdout own inv) s'

-- `Refresh`; the executor may be nil.
unfoldable pub refresh :
    {S : Type 0} → Option (Executor S) → ℕ → Inventory → S → S × (Inventory × List String)
refresh none now inv s =
    let warnings = "inventory refresh skipped: no live executor configured" ∷ [] in
    (s, (mark_health_check now "inventory-only" warnings (normalize inv), warnings))
refresh (some run) now inv s = refresh_each run now (normalize inv).nodes [] (normalize inv) s
