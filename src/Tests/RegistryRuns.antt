-- ===== src/Tests/RegistryRuns.antt =====
-- The registry, the server and reconciling at concrete inputs.
use stack_forge.Base.{◌↔◌, ℕ, String, ◌≡◌, refl, true, false, none, some, List, [], ◌∷◌, ok, ◌+◌}
use stack_forge.Text.{texts, contains, has_prefix, trim_prefix}
use stack_forge.Net.{addresses}
use stack_forge.DomainName.{
  is_label, check_labels, canonical, validate_name, last_two, but_last_two, root_domain, subdomain,
}
use stack_forge.Maps.{lookup, insert}
use stack_forge.Registry.{
  Domain, empty_domain, Verification, Source, Store, new_store, create, delete, verification_token,
  mark_verified, get, check_new, new_domain, is_taken, registered_name, new_verification,
}
use stack_forge.Registry.Invariant.{IsConsistent, IsConsistent-new_store, create-IsConsistent}
use stack_forge.Registry.Ownership.{
  Reach, start, next, created, asked, marked, Reach-IsProven, mark_verified-verification_token,
}
use stack_forge.Auth.{Authenticator, refused, authenticator, authorize, enabled, middleware}
use stack_forge.Auth.Keys.{IsKey, authorize_iff}
use stack_forge.Base.{Some}
use stack_forge.Server.{
  Route, create_domain, list_domains, verify_domain, handle, handle_act, handle_create,
  handle_token, handle_verify, serve,
}
use stack_forge.Server as Server
use stack_forge.Server.Safety.{serve_all, act_accepted, serve_unauthorized}
use stack_forge.Reconcile.{Clients, Outside, domain_with_clients}
use stack_forge.Reconcile.Refusals.{IsStaged, domain_with_clients-IsStaged}
use stack_forge.Cloudflare.{no_response}
use stack_forge.Backends.{unreachable}

abbrev src : Source
src = record { random_id = λ n. "d0"; random_token = λ n. ok "secret"; digest = λ s. s; now = 7 }

abbrev shop : Domain
shop = record empty_domain {
  tenant_id = "t1";
  domain = "Shop.Example.org";
  target_service_name = "shop";
  target_service_port = 80;
}

-- Everything below the methods of the registry.
registry_stack : Unit {0}
unfolding texts addresses is_label check_labels canonical validate_name last_two but_last_two
    root_domain subdomain lookup insert create delete verification_token mark_verified get check_new
    new_domain is_taken registered_name new_verification
registry_stack = tt

-- The registry with the one domain.
abbrev shops : Store
shops = (create src shop false new_store).0

abbrev stored : Domain
stored = new_domain src "d0" shop

unused : lookup "d0" new_store.domains ≡ none
unfolding lookup
unused = refl

create-IsConsistent_example : IsConsistent (create src shop false new_store).0
create-IsConsistent_example =
    create-IsConsistent src shop false new_store unused IsConsistent-new_store

-- The registry after the domain was created, drew a token and was verified with it.
abbrev verified_shops : Store
verified_shops = (mark_verified src "d0" "secret" (verification_token src "d0" shops).0).0

verified_shops-lookup :
    lookup "d0" verified_shops.domains
    ≡ some (record stored { ownership_status = "verified"; updated_at = 7 })
unfolding registry_stack
verified_shops-lookup = refl

verified_shops-Reach : Reach src verified_shops
verified_shops-Reach =
    next (next (next start (created shop false)) (asked "d0")) (marked "d0" "secret")

Reach-IsProven_example : (v : Verification) × (lookup "d0" verified_shops.verifications ≡ some v)
Reach-IsProven_example =
    Reach-IsProven src verified_shops verified_shops-Reach "d0"
      (record stored { ownership_status = "verified"; updated_at = 7 }) verified_shops-lookup refl

abbrev drawn : Verification
drawn = new_verification src "d0" stored "secret"

shops-verification_token :
    verification_token src "d0" shops ≡ ((verification_token src "d0" shops).0, ok drawn)
unfolding registry_stack
shops-verification_token = refl

mark_verified-verification_token_example :
    (d : Domain) × (get "d0"
        (mark_verified src "d0" drawn.token (verification_token src "d0" shops).0).0
      ≡ some d)
    × (d.ownership_status ≡ "verified")
mark_verified-verification_token_example =
    mark_verified-verification_token src "d0" shops (verification_token src "d0" shops).0 drawn
      shops-verification_token

authorize_iff_example :
    (authorize src.digest (authenticator src.digest (" k1 " ∷ [])) "Bearer k1" ≡ true) ↔ (
      (has_prefix "Bearer k1" "Bearer " ≡ true)
      × Some (IsKey src.digest (trim_prefix "Bearer k1" "Bearer ")) (" k1 " ∷ []))
authorize_iff_example = authorize_iff src.digest (" k1 " ∷ []) "Bearer k1"

abbrev keys : List String
keys = "k1" ∷ []

abbrev admins : Authenticator
admins = record { hashes = "k1" ∷ [] }

no_header : authorize src.digest (authenticator src.digest keys) "" ≡ false
unfolding authorize authenticator texts
no_header = refl

serve_unauthorized_example :
    ((serve src false (authenticator src.digest keys) "" list_domains shops).0 ≡ shops)
    × ((code : ℕ) × ((message : String) × ((serve src false
              (authenticator src.digest keys)
              ""
              list_domains
              shops).1
            ≡ refused code message)))
serve_unauthorized_example = serve_unauthorized src false keys "" list_domains shops no_header

-- A domain is created, asks for a token and is verified with it.
abbrev requests : List (String × Route)
requests =
    ("Bearer k1", create_domain (ok shop))
    ∷ ("Bearer k1", Server.verification_token "d0")
    ∷ ("Bearer k1", verify_domain "d0" "secret")
    ∷ []

dns_apply : contains "dns apply" "delete" ≡ false
unfolding texts
dns_apply = refl

accepted :
    (handle_act src false "d0" "dns apply" (serve_all src false admins requests new_store)).code
    ≡ 202
unfolding registry_stack serve middleware authorize enabled handle handle_create handle_token
    handle_verify handle_act
accepted = refl

act_accepted_example :
    (d : Domain) × (get "d0" (serve_all src false admins requests new_store) ≡ some d)
    × (d.ownership_status ≡ "verified")
    × ((v : Verification) × (lookup "d0"
            (serve_all src false admins requests new_store).verifications
          ≡ some v))
act_accepted_example = act_accepted src false admins requests "d0" "dns apply" dns_apply accepted

abbrev outside : Outside (Unit {0}) (Unit {0}) ℕ
outside = record {
  dns = λ r n. (n + 1, no_response "down");
  consul_http = λ r n. (n + 1, unreachable "down");
  nomad_http = λ r n. (n + 1, unreachable "down");
  encode_route = λ m. ok tt;
  decode_job = λ b. ok tt;
}

abbrev cloudflare_only : Clients
cloudflare_only = record {
  cloudflare = some (record { token = "t"; base_url = "" });
  consul = none;
  nomad = none;
}

domain_with_clients-IsStaged_example :
    IsStaged outside
      (record stored { ownership_status = "verified" })
      (some cloudflare_only)
      0
      (domain_with_clients outside
        (record stored { ownership_status = "verified" })
        (some cloudflare_only)
        0)
domain_with_clients-IsStaged_example =
    domain_with_clients-IsStaged outside (record stored { ownership_status = "verified" })
      (some cloudflare_only) 0
