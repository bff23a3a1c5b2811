-- ===== src/Tests/SqlRuns.antt =====
-- The SQL registries and the settings at concrete inputs.
use stack_forge.Base.{[], ◌∷◌, ◌≡◌, refl, false, none, ok}
use stack_forge.Text.{texts}
use stack_forge.Net.{addresses}
use stack_forge.DomainName.{
  is_label, check_labels, canonical, validate_name, last_two, but_last_two, root_domain, subdomain,
}
use stack_forge.Registry.{
  Domain, empty_domain, Verification, Source, registered_name, new_domain, new_verification,
}
use stack_forge.Sql.{
  Tables, Engine, empty_tables, row_of, proof_of, scan_domain, violates, insert_domain, get,
  first_match,
}
use stack_forge.Sql.Sqlite.{
  check_new, create, empty_to_nil, verification_token, mark_verified, store_proof, replace_proof,
  proof_clashes,
}
use stack_forge.Sql.Catalogue.{IsUnique}
use stack_forge.Sql.Refinement.{view}
use stack_forge.Sql.Repository.{Implements, call_create, call_token, call, calls}
use stack_forge.Sql.Histories.{names-IsUnique}
use stack_forge.Sql.Stores.{
  sqlite_store, postgres_store, sqlite_store-Implements, postgres_store-Implements,
}
use stack_forge.Sql.Tokens.{mark_verified-token}

abbrev src : Source
src = record { random_id = λ n. "d0"; random_token = λ n. ok "secret"; digest = λ s. s; now = 7 }

abbrev engine : Engine
engine = record { fault = λ n. none; conflict = "UNIQUE constraint failed" }

abbrev shop : Domain
shop = record empty_domain {
  tenant_id = "t1";
  domain = "Shop.Example.org";
  target_service_name = "shop";
  target_service_port = 80;
}

sqlite_store-Implements_example : Implements view 7 (sqlite_store src engine)
sqlite_store-Implements_example = sqlite_store-Implements src engine

postgres_store-Implements_example : Implements view 7 (postgres_store src engine)
postgres_store-Implements_example = postgres_store-Implements src engine

-- The tables with the one domain.
abbrev shops : Tables
shops = call (sqlite_store src engine) (call_create shop false) empty_tables

names-IsUnique_example :
    IsUnique (
      view (
        calls
          (sqlite_store src engine)
          (call_create shop false ∷ call_create shop false ∷ call_token "acme.io" ∷ [])
          empty_tables))
    × IsUnique (
        view (
          calls
            (postgres_store src engine)
            (call_create shop false ∷ call_create shop false ∷ call_token "acme.io" ∷ [])
            empty_tables))
names-IsUnique_example =
    names-IsUnique src engine
      (call_create shop false ∷ call_create shop false ∷ call_token "acme.io" ∷ [])
      (refl, (refl, (tt, tt)))

-- Everything below the methods of the SQLite store.
sql_stack : Unit {0}
unfolding texts addresses is_label check_labels canonical validate_name last_two but_last_two
    root_domain subdomain call new_domain new_verification row_of proof_of scan_domain violates
    insert_domain get first_match check_new create empty_to_nil verification_token mark_verified
    store_proof replace_proof proof_clashes registered_name
sql_stack = tt

-- The verification of the key for a token.
abbrev drawn : Verification
drawn = record {
  domain_id = "d0";
  txt_name = "_stackforge-verify.shop.example.org";
  token_hash = "secret";
  token = "secret";
  created_at = 7;
}

shops-token : (verification_token src engine "shop.example.org" shops).1 ≡ ok drawn
unfolding sql_stack
shops-token = refl

mark_verified-token_example :
    (mark_verified src engine "shop.example.org" "secret"
      (verification_token src engine "shop.example.org" shops).0).1
    ≡ ok tt
mark_verified-token_example =
    mark_verified-token src engine (λ n. refl) "shop.example.org" shops drawn shops-token
