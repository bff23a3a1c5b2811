-- ===== src/DomainName.antt =====
-- Public domain names: `ValidateName`, `rootDomain` and `subdomain` of
-- internal/controlplane/domain/domain.go.
pub mod Labels
use Prim.Native.String
use Prim.Native.String.{count, ◌++◌ as ◌<>◌}
use stack_forge.Base.{
  Char, code, String, Bool, true, false, not, ◌&&◌, ◌||◌, Option, none, some, List, [], ◌∷◌, leb,
  ltb, eqb, length, if◌then◌else◌, ◌==◌, Result, ok, err, ◌>>=◌, ◌>>◌, fail_if,
}
use stack_forge.Text.{
  trim_space, trim_suffix, trim_prefix, to_lower, has_prefix, has_suffix, contains, split, join,
  quoted,
}
use stack_forge.Net.{parse_ip, IpAddr}

is_alnum : Char → Bool
is_alnum c = (leb 97 (code c) && leb (code c) 122) || (leb 48 (code c) && leb (code c) 57)

-- What follows the first character of a label: letters, digits and inner dashes.
label_rest : String → Bool
label_rest String.[] = true
label_rest (String.◌∷◌ c String.[]) = is_alnum c
label_rest (String.◌∷◌ c s) = (is_alnum c || eqb (code c) 45) && label_rest s

-- `labelRe`, `^[a-z0-9]([a-z0-9-]{0,61}[a-z0-9])?$`
unfoldable pub is_label : String → Bool
unfolding label_rest is_alnum
is_label String.[] = false
is_label (String.◌∷◌ c s) = is_alnum c && label_rest s && leb (count s) 62

-- The loop over the labels.
unfoldable pub check_labels : List String → Result (Unit {0})
check_labels [] = ok tt
check_labels (part ∷ parts) =
    if is_label part then check_labels parts else err ("invalid domain label " <> quoted part)

abbrev pub is_ip : Option IpAddr → Bool
is_ip none = false
is_ip (some ip) = true

unfoldable pub canonical : String → String
canonical name = to_lower (trim_suffix (trim_space name) ".")

-- `ValidateName`
unfoldable pub validate_name : String → Bool → Result (Unit {0})
unfolding canonical
validate_name given allow_wildcard = do
  let name = canonical given
  fail_if (name == "" || name == "localhost" || not (contains name ".")) "invalid public domain"
  fail_if (is_ip (parse_ip name)) "IP addresses are not valid domains"
  fail_if (has_prefix name "*." && not allow_wildcard) "wildcard domains are disabled"
  fail_if (has_suffix name ".local" || has_suffix name ".internal" || has_suffix name ".localhost")
      "internal hostnames are rejected"
  check_labels (split "." (trim_prefix name "*."))

-- `parts[len(parts)-2:]`, for two parts at least
unfoldable pub last_two : List String → List String
last_two (a ∷ b ∷ c ∷ parts) = last_two (b ∷ c ∷ parts)
last_two parts = parts

-- `parts[:len(parts)-2]`, for two parts at least
unfoldable pub but_last_two : List String → List String
but_last_two (a ∷ b ∷ c ∷ parts) = a ∷ but_last_two (b ∷ c ∷ parts)
but_last_two parts = []

-- `rootDomain`
unfoldable pub root_domain : String → String
unfolding last_two
root_domain d =
    let parts = split "." d in if ltb (length parts) 2 then d else join "." (last_two parts)

-- `subdomain`
unfoldable pub subdomain : String → String
unfolding but_last_two
subdomain d =
    let parts = split "." d in if leb (length parts) 2 then "" else join "." (but_last_two parts)
