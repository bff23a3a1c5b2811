-- ===== src/Paths.antt =====
-- Go's path/filepath on Unix: `Clean`, `Join` and `Dir`.
use Prim.Native.String
use stack_forge.Base.{
  String, Bool, false, not, ◌||◌, List, [], ◌∷◌, ◌≡◌, refl, if◌then◌else◌, ◌==◌, is_empty, ◌++◌,
}
use mathlib.Core.List.{reverse}
use stack_forge.Text.{split, join, has_prefix, texts}

head_is_up : List String → Bool
head_is_up [] = false
head_is_up (part ∷ parts) = part == ".."

pop : List String → List String
pop [] = []
pop (part ∷ parts) = parts

-- One part of a path; the parts that are kept stand with the last one first.
clean_part : Bool → List String → String → List String
clean_part rooted kept part =
    if part == "" || part == "."
    then kept
    else if not (part == "..")
    then part ∷ kept
    else if is_empty kept || head_is_up kept
    then if rooted then kept else part ∷ kept
    else pop kept

clean_parts : Bool → List String → List String → List String
clean_parts rooted kept [] = kept
clean_parts rooted kept (part ∷ parts) = clean_parts rooted (clean_part rooted kept part) parts

-- `filepath.Clean`
unfoldable pub clean : String → String
unfolding clean_parts clean_part head_is_up pop
clean path =
    let rooted = has_prefix path "/" in
    let text = join "/" (reverse (clean_parts rooted [] (split "/" path))) in
    if rooted then String.◌++◌ "/" text else if text == "" then "." else text

set_parts : List String → List String
set_parts [] = []
set_parts (part ∷ parts) = let rest = set_parts parts in if part == "" then rest else part ∷ rest

-- `filepath.Join`
unfoldable pub join_path : List String → String
unfolding clean set_parts
join_path parts = let kept = set_parts parts in if is_empty kept then "" else clean (join "/" kept)

all_but_last : List String → List String
all_but_last [] = []
all_but_last (part ∷ []) = []
all_but_last (part ∷ more) = part ∷ all_but_last more

-- `filepath.Dir`: what stands in front of the last slash, cleaned.
unfoldable pub dir : String → String
unfolding clean all_but_last
dir path = clean (join "/" (all_but_last (split "/" path) ++ "" ∷ []))

last_part : String → List String → String
last_part fallback [] = fallback
last_part fallback (part ∷ parts) = last_part part parts

-- `filepath.Base`: the last part of the path.
unfoldable pub base : String → String
unfolding set_parts last_part
base path = last_part (if path == "" then "." else "/") (set_parts (split "/" path))

paths_examples :
    (dir "/var/lib/pool.yaml" ≡ "/var/lib")
    × (dir "pool.yaml" ≡ ".")
    × (dir "/pool.yaml" ≡ "/")
    × (join_path ("a" ∷ "" ∷ "../b//c" ∷ []) ≡ "b/c")
    × (join_path ("" ∷ []) ≡ "")
    × (clean "/../a/./b/.." ≡ "/a")
    × (clean "../../x" ≡ "../../x")
    × (base "/etc/consul.d/" ≡ "consul.d")
    × (base "/" ≡ "/")
unfolding clean join_path dir base texts
paths_examples = (refl, refl, refl, refl, refl, refl, refl, refl, refl)
