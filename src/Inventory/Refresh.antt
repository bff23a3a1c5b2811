-- ===== src/Inventory/Refresh.antt =====
-- What refreshing an inventory keeps.
use Prim.Native.String.{◌++◌ as ◌<>◌}
use stack_forge.Base.{
  ℕ, String, ◌≡◌, refl, ◌∙◌, ap, Bool-cases, inl, inr, Option, none, some, List, [], ◌∷◌, ◌++◌,
  ◌==◌,
}
use stack_forge.Maps.{StringMap}
use stack_forge.Inventory.{
  Inventory, Node, normalize, normalize_nodes, normalize_node, mark_health_check,
}
use stack_forge.Inventory.Warnings.{IsClean, mark-IsClean, health, dedupe_warnings-IsClean}
use stack_forge.Inventory.Observe.{
  observe_node, observe_at, observe_nodes, apply_observation, Executor, refresh_each, refresh,
  parse_observation,
}

-- What names a node: its name, its private address and its roles.
abbrev pub identities : List Node → List (String × (String × List String))
identities [] = []
identities (n ∷ nodes) = (n.name, (n.private_ip, n.roles)) ∷ identities nodes

normalize_nodes-identities :
    (nodes : List Node) → identities (normalize_nodes nodes) ≡ identities nodes
unfolding normalize_nodes normalize_node
normalize_nodes-identities [] = refl
normalize_nodes-identities (n ∷ nodes) =
    ap ((n.name, (n.private_ip, n.roles)) ∷◌) (normalize_nodes-identities nodes)

normalize-identities : (inv : Inventory) → identities (normalize inv).nodes ≡ identities inv.nodes
unfolding normalize
normalize-identities inv = normalize_nodes-identities inv.nodes

normalize-IsClean : (inv : Inventory) → IsClean (normalize inv).warnings
unfolding normalize
normalize-IsClean inv = dedupe_warnings-IsClean inv.warnings

module _ (now : ℕ) (name : String) (facts : StringMap String) (warnings : List String) where
  observe_nodes-identities :
      (nodes : List Node) (inv : Inventory)
      → identities (observe_nodes now name facts warnings nodes inv).0 ≡ identities nodes
  unfolding observe_nodes observe_node
  observe_nodes-identities [] inv = refl
  observe_nodes-identities (n ∷ nodes) inv = elim (Bool-cases (n.name == name)) [
    | inr other ↦
        rw other (ap ((n.name, (n.private_ip, n.roles)) ∷◌) (observe_nodes-identities nodes inv))
    | inl same ↦ rw same (
        ap ((n.name, (n.private_ip, n.roles)) ∷◌)
          (observe_nodes-identities nodes (observe_at now facts warnings n inv)))
  ]

apply_observation-identities :
    (now : ℕ) (name stdout : String) (ws : List String) (inv : Inventory)
    → identities (apply_observation now name stdout ws inv).nodes ≡ identities inv.nodes
unfolding apply_observation mark_health_check normalize
apply_observation-identities now name stdout ws inv =
    normalize_nodes-identities _
    ∙ (observe_nodes-identities now name (parse_observation stdout) ws (normalize inv).nodes
          (normalize inv)
        ∙ normalize-identities inv)

apply_observation-IsClean :
    (now : ℕ) (name stdout : String) (ws : List String) (inv : Inventory)
    → IsClean (apply_observation now name stdout ws inv).warnings
unfolding apply_observation
apply_observation-IsClean now name stdout ws inv =
    mark-IsClean (mark_health_check now "observed" ws) (health now "observed" ws)
      (record (observe_nodes now name (parse_observation stdout) ws (normalize inv).nodes
        (normalize inv)).1 {
          nodes =
              (observe_nodes now name (parse_observation stdout) ws (normalize inv).nodes
                (normalize inv)).0;
        })

module _ {S : Type 0} (run : Executor S) (now : ℕ) where
  refresh_each_lem :
      (nodes : List Node) (ws : List String) (inv : Inventory) (s : S)
      → IsClean inv.warnings
      → (identities (refresh_each run now nodes ws inv s).1.0.nodes ≡ identities inv.nodes)
        × IsClean (refresh_each run now nodes ws inv s).1.0.warnings
  unfolding refresh_each
  refresh_each_lem [] ws inv s h = (refl, h)
  refresh_each_lem (n ∷ nodes) ws inv s h =
      let r = run n.private_ip s in
      let own : List String = elim r.1.1 [
        | none ↦ []
        | some e ↦ ("inventory refresh failed for " <> (n.name <> (": " <> e))) ∷ []
      ] in
      let seen = apply_observation now n.name r.1.0 own inv in
      let (same, clean) =
        refresh_each_lem nodes (ws ++ own) seen r.0
          (apply_observation-IsClean now n.name r.1.0 own inv) in
      (same ∙ apply_observation-identities now n.name r.1.0 own inv, clean)

-- `Refresh` keeps every node's name, private address and roles, in order, whatever the nodes report
-- and whichever of them fail, and leaves warnings that are trimmed, set, persistent and distinct.
pub refresh-keeps :
    {S : Type 0} (run : Option (Executor S)) (now : ℕ) (inv : Inventory) (s : S)
    → (identities (refresh run now inv s).1.0.nodes ≡ identities inv.nodes)
      × IsClean (refresh run now inv s).1.0.warnings
unfolding refresh mark_health_check
refresh-keeps none now inv s = (
  normalize-identities (normalize inv) ∙ normalize-identities inv,
  mark-IsClean
      (mark_health_check now "inventory-only"
        ("inventory refresh skipped: no live executor configured" ∷ []))
      (health now "inventory-only" ("inventory refresh skipped: no live executor configured" ∷ []))
      (normalize inv),
)
refresh-keeps (some run) now inv s =
    let (same, clean) =
      refresh_each_lem run now (normalize inv).nodes [] (normalize inv) s (normalize-IsClean inv) in
    (same ∙ normalize-identities inv, clean)
