-- ===== src/Sql/Catalogue.antt =====
-- What `Repository` of internal/controlplane/domain promises, without tables: the live domains in
-- the order of their creation.
use stack_forge.Base.{
  ℕ, String, ◌≡◌, refl, Bool, false, ◌||◌, none, some, List, [], ◌∷◌, ◌++◌, any, arith, Option,
  if◌then◌else◌, ◌==◌, eq_iff,
}
use stack_forge.Registry.{Domain}

abbrev pub Catalogue : Type 0
Catalogue = List Domain

abbrev pub is_named : String → Domain → Bool
is_named key d = d.id == key || d.domain == key

-- A new domain is appended, unless its name or its identifier is in use.
unfoldable pub add : Domain → Catalogue → Catalogue
add d ds = ds ++ (d ∷ [])

-- The domains that the key names are dropped.
unfoldable pub drop_named : String → Catalogue → Catalogue
drop_named key [] = []
drop_named key (d ∷ ds) = if is_named key d then drop_named key ds else d ∷ drop_named key ds

-- The ownership of one domain is proven at a time.
unfoldable pub prove : ℕ → String → Catalogue → Catalogue
prove now id [] = []
prove now id (d ∷ ds) =
    (if d.id == id then record d { ownership_status = "verified"; updated_at = now } else d)
    ∷ prove now id ds

unfoldable pub find_named : String → Catalogue → Option Domain
find_named key [] = none
find_named key (d ∷ ds) = if is_named key d then some d else find_named key ds

abbrev pub has_name : String → Catalogue → Bool
has_name name = any (λ d. d.domain == name)

-- No two domains have one name.
abbrev pub IsUnique : Catalogue → Type 0
IsUnique [] = Unit
IsUnique (d ∷ ds) = (has_name d.domain ds ≡ false) × IsUnique ds

has_name-add :
    (name : String) (d : Domain) (ds : Catalogue)
    → has_name name (add d ds) ≡ (has_name name ds || d.domain == name)
unfolding add
has_name-add name d [] = ground arith
has_name-add name d (e ∷ ds) =
    let rest : has_name name (ds ++ (d ∷ [])) ≡ (has_name name ds || d.domain == name) =
      has_name-add name d ds in
    ground arith

pub add-IsUnique :
    (d : Domain) (ds : Catalogue) → has_name d.domain ds ≡ false → IsUnique ds → IsUnique (add d ds)
unfolding add
add-IsUnique d [] h u = (refl, tt)
add-IsUnique d (e ∷ ds) h (apart, u) =
    let also : has_name e.domain (ds ++ (d ∷ [])) ≡ (has_name e.domain ds || d.domain == e.domain) =
      has_name-add e.domain d ds in
    (
      ground (arith, eq_iff d.domain e.domain, eq_iff e.domain d.domain),
      add-IsUnique d ds (ground arith) u,
    )

has_name-drop_named :
    (name key : String) (ds : Catalogue)
    → has_name name ds ≡ false
    → has_name name (drop_named key ds) ≡ false
unfolding drop_named
has_name-drop_named name key [] h = refl
has_name-drop_named name key (d ∷ ds) h =
    let rest = has_name-drop_named name key ds (ground arith) in ground arith

pub drop_named-IsUnique :
    (key : String) (ds : Catalogue) → IsUnique ds → IsUnique (drop_named key ds)
unfolding drop_named
drop_named-IsUnique key [] u = tt
drop_named-IsUnique key (d ∷ ds) (apart, u) =
    ground (arith, has_name-drop_named d.domain key ds apart, drop_named-IsUnique key ds u)

has_name-prove :
    (name : String) (now : ℕ) (id : String) (ds : Catalogue)
    → has_name name (prove now id ds) ≡ has_name name ds
unfolding prove
has_name-prove name now id [] = refl
has_name-prove name now id (d ∷ ds) = let rest = has_name-prove name now id ds in ground arith

pub prove-IsUnique :
    (now : ℕ) (id : String) (ds : Catalogue) → IsUnique ds → IsUnique (prove now id ds)
unfolding prove
prove-IsUnique now id [] u = tt
prove-IsUnique now id (d ∷ ds) (apart, u) =
    let rest = prove-IsUnique now id ds u in
    let same = has_name-prove d.domain now id ds in ground arith
