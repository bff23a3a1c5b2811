-- ===== src/Components/Planned.antt =====
-- When an installation of all components can be planned.
use stack_forge.Base.{
  String, ◌≡◌, ◌↔◌, refl, Bool, true, false, not, inl, inr, Bool-cases, Option, none, some, List,
  [], ◌∷◌, ◌++◌, any, is_empty, All, ok,
}
use stack_forge.Text.{texts}
use stack_forge.Maps.{StringMap, lookup_or}
use stack_forge.Inventory.{Inventory, Node}
use stack_forge.Components.{
  InstallItem, new_item, normalize_component, install_command, ordered, seen_ones, mark_roles,
  components_for_node, plan_components, is_left_out, plan_nodes, plan_install,
}

abbrev IsKnown : String → Type 0
IsKnown c = (user : String) → (cmd : String) × (install_command c user ≡ ok cmd)

known : All IsKnown ("base-packages" ∷ ordered)
unfolding install_command normalize_component texts
known = (
  λ user. (_, refl),
  (
    λ user. (_, refl),
    (
      λ user. (_, refl),
      (λ user. (_, refl), (λ user. (_, refl), (λ user. (_, refl), (λ user. (_, refl), tt)))),
    ),
  ),
)

seen_ones-IsKnown :
    (seen : StringMap Bool) (cs : List String) → All IsKnown cs → All IsKnown (seen_ones seen cs)
unfolding seen_ones
seen_ones-IsKnown seen [] h = tt
seen_ones-IsKnown seen (c ∷ cs) (p, h) = elim (Bool-cases (lookup_or false c seen)) [
  | inl e ↦ rw e (p, seen_ones-IsKnown seen cs h)
  | inr e ↦ rw e (seen_ones-IsKnown seen cs h)
]

plan_components-ok :
    (n : Node) (dry : Bool) (cs : List String)
    → All IsKnown cs
    → (items : List InstallItem) × (plan_components n dry cs ≡ ok items)
unfolding plan_components
plan_components-ok n dry [] h = ([], refl)
plan_components-ok n dry (c ∷ cs) (p, h) =
    let (cmd, there) = p n.ssh.user in
    let (items, rest) = plan_components-ok n dry cs h in
    (new_item n c dry cmd ∷ items, rw (there, rest) refl)

-- The plan of one node for all components is not empty.
own-ok :
    (n : Node) (dry : Bool)
    → (items : List InstallItem) × (plan_components n dry (components_for_node n "all") ≡ ok items)
      × (is_empty items ≡ false)
unfolding components_for_node plan_components
own-ok n dry =
    let (base, others) = known in
    let (cmd, there) = base n.ssh.user in
    let (items, rest) =
      plan_components-ok n dry
        (seen_ones (mark_roles n.roles (("base-packages", true) ∷ [])) ordered)
        (seen_ones-IsKnown _ ordered others) in
    (new_item n "base-packages" dry cmd ∷ items, rw (there, rest) refl, refl)

append-full :
    (own items : List InstallItem) → is_empty own ≡ false → is_empty (own ++ items) ≡ false
append-full [] items h = cc h
append-full (i ∷ own) items h = refl

plan_nodes-ok :
    (name : String) (dry : Bool) (nodes : List Node)
    → (items : List InstallItem) × (plan_nodes "all" name dry nodes ≡ ok items)
      × (is_empty items ≡ not (any (λ n. not (is_left_out name n)) nodes))
unfolding plan_nodes
plan_nodes-ok name dry [] = ([], refl, refl)
plan_nodes-ok name dry (n ∷ nodes) =
    let (items, rest, size) = plan_nodes-ok name dry nodes in
    elim (Bool-cases (is_left_out name n)) [
      | inl e ↦ (items, rw e rest, rw e size)
      | inr e ↦
          let (own, planned, full) = own-ok n dry in
          (own ++ items, rw (e, planned, rest) refl, rw e (append-full own items full))
    ]

-- A node of the inventory is meant by the name, which is empty for every node.
abbrev pub HasMatch : Option Inventory → String → Type 0
HasMatch none name = ⊥
HasMatch (some inv) name = any (λ n. not (is_left_out name n)) inv.nodes ≡ true

-- A plan of all components is made exactly if there is an inventory with a node that the given name
-- means, which is any node for the empty name: no component that is chosen for a node is unknown.
pub plan_install_iff :
    (inv : Option Inventory) (given name : String) (dry : Bool)
    → normalize_component given ≡ "all"
    → ((items : List InstallItem) × (plan_install inv given name dry ≡ ok items))
      ↔ HasMatch inv name
unfolding plan_install
plan_install_iff none given name dry h = (λ (items, e). cc e, λ e. absurd e)
plan_install_iff (some inv) given name dry h =
    let (items, made, size) = plan_nodes-ok name dry inv.nodes in
    elim (Bool-cases (any (λ n. not (is_left_out name n)) inv.nodes)) [
      | inl e ↦ (λ k. e, λ k. (items, rw (h, made, size, e) refl))
      | inr e ↦ (λ (others, k). cc (rw (h, made, size, e) at k), λ k. cc (e, k))
    ]
