-- ===== src/Tests/PoolRuns.antt =====
-- The domain pool and its DNS commands at concrete inputs.
use stack_forge.Base.{
  inl, ◌==◌, ◌↔◌, ◌||◌, String, ◌≡◌, refl, sym, Bool, true, false, none, some, List, [], ◌∷◌, ◌+◌,
  All, length, Result, ok, err, ok-injective,
}
use stack_forge.Text.{texts}
use stack_forge.Net.{addresses}
use stack_forge.DomainName as DomainName
use stack_forge.Pool as Pool
use stack_forge.DomainName.{is_label, check_labels, canonical, validate_name, last_two, is_ip}
use stack_forge.Host.{write_file, Codec, RoundTrips, Host, read_path, write_path}
use stack_forge.Cloudflare.{
  Client, Record, Service, response, records, Outcome, failed, api, read_reply, base, send,
  list_records, create_record, update_record, upsert_found, upsert_record, same_record, lookup_zone,
}
use stack_forge.Pool.{
  admit, validate_entry, fresh_entry, Entry, Store, World, load, save, find, find_from, add, remove,
  has_active, normalize,
}
use stack_forge.Pool.Unique.{UniqueActive, Holds, add-UniqueActive, remove-UniqueActive}
use stack_forge.Pool.Retry.{ApplyOptions, attempts, retry_count}
use stack_forge.Pool.Retry.Loop.{attempts-IsBounded, IsBounded, counted}
use stack_forge.Pool.Apply.{ApplyAllResult, apply_dns, apply_all, applying}
use stack_forge.Pool.Apply.Results.{
  IsTold, IsApplied, apply_dns-dry_run, apply_dns-IsApplied, apply_all-counts, count_enabled,
}
use stack_forge.Pool.Verify.{Resolver, VerifyOptions, verify_dns, chosen}
use stack_forge.Pool.Verify.Agreement.{Confirms, verified, verify_dns_iff}

abbrev plain : Codec Store
plain = record { Bytes = Store; encode = λ s. ok s; decode = λ s. ok s }

plain-RoundTrips : RoundTrips plain
plain-RoundTrips s b h = sym h

abbrev calm : Host Store
calm = record {
  read_fault = λ p. none;
  mkdir_fault = λ p. none;
  write_fault = λ p b. none;
  torn = λ p b. none;
  append_fault = λ p. none;
  now = 100;
  random_id = λ n. "id";
  getenv = λ k. "";
}

abbrev app : String → String → Entry
app id status = record {
  id = id;
  domain = "app.example.org";
  root_domain = "example.org";
  zone_id = "z1";
  provider = "cloudflare";
  provider_record_id = "";
  status = status;
  dns_status = "pending";
  verification_status = "pending";
  target_type = "traefik";
  target_value = "1.2.3.4";
  record_type = "A";
  proxied = false;
  created_at = 1;
  updated_at = 1;
  last_error = "";
}

abbrev pool_of : List Entry → World Store (Unit {0})
pool_of es = record {
  files = ("pool.yaml", record { entries = es }) ∷ [];
  audits = [];
  drawn = 0;
  remote = tt;
}

-- Everything below `Add` and `Remove`.
pool_stack : Unit {0}
unfolding texts addresses is_label check_labels canonical validate_name last_two load save find
    find_from add admit remove read_path write_path write_file normalize has_active validate_entry
    fresh_entry DomainName.root_domain Pool.root_domain
pool_stack = tt

pool-Holds :
    (P : List Entry → Type 0) (es : List Entry)
    → P es
    → Holds {S = Unit {0}} plain calm "pool.yaml" P (pool_of es)
unfolding load read_path
pool-Holds P es h s loaded = rw (← ok-injective loaded) h

one-UniqueActive : UniqueActive (app "a" "pending" ∷ [])
unfolding has_active
one-UniqueActive = (λ on. refl, tt)

-- `Add` of a second domain.
abbrev other : Entry
other = record (app "" "") { domain = "www.example.org"; target_value = "1.2.3.4" }

abbrev grown : Store
grown = record {
  entries =
      app "a" "pending"
      ∷ record other { id = "id"; status = "pending"; created_at = 100; updated_at = 100 }
      ∷ [];
}

grown-load :
    load {S = Unit {0}} plain calm "pool.yaml"
      (add plain calm "pool.yaml" other false false (pool_of (app "a" "pending" ∷ []))).0
    ≡ ok grown
unfolding pool_stack
grown-load = refl

add-UniqueActive_example : UniqueActive grown.entries
add-UniqueActive_example =
    add-UniqueActive plain calm "pool.yaml" other false false (pool_of (app "a" "pending" ∷ []))
      (inl (λ b. refl)) plain-RoundTrips
      (pool-Holds UniqueActive (app "a" "pending" ∷ []) one-UniqueActive) grown grown-load

abbrev shrunk : Store
shrunk = record { entries = record (app "a" "disabled") { updated_at = 100 } ∷ [] }

shrunk-load :
    load {S = Unit {0}} plain calm "pool.yaml"
      (remove plain calm "pool.yaml" "a" (pool_of (app "a" "pending" ∷ []))).0
    ≡ ok shrunk
unfolding pool_stack
shrunk-load = refl

remove-UniqueActive_example : UniqueActive shrunk.entries
remove-UniqueActive_example =
    remove-UniqueActive plain calm "pool.yaml" "a" (pool_of (app "a" "pending" ∷ []))
      (inl (λ b. refl)) plain-RoundTrips
      (pool-Holds UniqueActive (app "a" "pending" ∷ []) one-UniqueActive) shrunk shrunk-load

-- The pool after `Add`, `Remove` and `Add` again of one domain.
abbrev twice : World Store (Unit {0})
twice = pool_of (app "a" "disabled" ∷ app "b" "pending" ∷ [])

twice-load :
    load {S = Unit {0}} plain calm "pool.yaml" twice
    ≡ ok (record { entries = app "a" "disabled" ∷ app "b" "pending" ∷ [] })
unfolding load read_path
twice-load = refl

shadowed : has_active "app.example.org" (app "b" "pending" ∷ []) ≡ true
unfolding has_active
shadowed = refl

named_a :
    (app "a" "disabled").domain == normalize "app.example.org"
      || (app "a" "disabled").id == "app.example.org"
    ≡ true
unfolding normalize texts
named_a = refl

abbrev still_on : Store
still_on = record {
  entries = record (app "a" "disabled") { updated_at = 100 } ∷ app "b" "pending" ∷ [];
}

still_on-load :
    load {S = Unit {0}} plain calm "pool.yaml"
      (remove plain calm "pool.yaml" "app.example.org" twice).0
    ≡ ok still_on
unfolding pool_stack
still_on-load = refl

-- A service that has the record of the entry in every zone.
abbrev found_record : Record
found_record = record {
  id = "r1";
  kind = "A";
  name = "app.example.org";
  content = "1.2.3.4";
  proxied = false;
}

abbrev settled : Service (Unit {0})
settled q s = (
  s,
  response 200
      (some (record { success = true; errors = []; result = records (found_record ∷ []) })),
)

abbrev client : Client
client = record { token = "t"; base_url = "" }

abbrev options : Bool → ApplyOptions
options dry = record {
  path = "pool.yaml";
  audit_path = "audit.log";
  client = some client;
  dry_run = dry;
  token_env = "";
  max_retries = 1;
  retry_delay = 5;
}

-- Everything below `ApplyDNS`.
dns_stack : Unit {0}
unfolding texts applying read_path write_path write_file find_from normalize read_reply base send
    list_records create_record update_record upsert_found upsert_record same_record lookup_zone
    attempts retry_count
dns_stack = tt

apply_dns-fine :
    (apply_dns plain calm settled (options false) "a" (pool_of (app "a" "disabled" ∷ []))).1.error
    ≡ none
unfolding dns_stack
apply_dns-fine = refl

-- Also a disabled entry is applied.
apply_dns-IsApplied_example :
    IsApplied plain calm settled
      (apply_dns plain calm settled (options false) "a" (pool_of (app "a" "disabled" ∷ []))).1
apply_dns-IsApplied_example =
    apply_dns-IsApplied plain calm settled (options false) "a" (pool_of (app "a" "disabled" ∷ []))
      refl apply_dns-fine

apply_dns-dry_run_example :
    IsTold plain calm settled "audit.log"
      (pool_of (app "a" "pending" ∷ []))
      (apply_dns plain calm settled (options true) "a" (pool_of (app "a" "pending" ∷ []))).0
apply_dns-dry_run_example =
    apply_dns-dry_run plain calm settled (options true) "a" (pool_of (app "a" "pending" ∷ [])) refl

abbrev counts : Result ApplyAllResult → ApplyAllResult
counts r = elim r [
  | ok a ↦ a
  | err m ↦ record { applied = []; failures = []; errors = []; dry_run = false }
]

abbrev both : World Store (Unit {0})
both = pool_of (app "a" "pending" ∷ app "b" "disabled" ∷ [])

abbrev all_of_both : ApplyAllResult
unfolding dns_stack
all_of_both = counts (apply_all plain calm settled (options false) both).1

both-load :
    load {S = Unit {0}} plain calm "pool.yaml" both
    ≡ ok (record { entries = app "a" "pending" ∷ app "b" "disabled" ∷ [] })
unfolding load read_path
both-load = refl

both-apply_all : (apply_all plain calm settled (options false) both).1 ≡ ok all_of_both
unfolding dns_stack all_of_both
both-apply_all = refl

apply_all-counts_example :
    (length all_of_both.applied + length all_of_both.failures
      ≡ count_enabled plain calm settled (app "a" "pending" ∷ app "b" "disabled" ∷ []))
    × (length all_of_both.errors ≡ length all_of_both.failures)
apply_all-counts_example =
    apply_all-counts plain calm settled (options false) both
      (record { entries = app "a" "pending" ∷ app "b" "disabled" ∷ [] }) all_of_both both-load
      both-apply_all

-- A call that is always rate limited.
abbrev limited : Unit {0} → Unit {0} × Outcome String
limited s = (s, failed (api 429 ""))

attempts-IsBounded_example : IsBounded 2 0 (attempts (λ n. n + 1) (counted limited) 2 0 (tt, 0))
attempts-IsBounded_example = attempts-IsBounded (λ n. n + 1) limited 2 0 0 tt

abbrev agreeing : Resolver
agreeing = record { lookup_host = λ d. ok ("1.2.3.4" ∷ []); lookup_cname = λ d. err "no such host" }

abbrev asked : VerifyOptions
asked = record { path = "pool.yaml"; domain = "a"; resolvers = []; names = [] }

asked-find :
    find {S = Unit {0}} plain calm "pool.yaml" "a" (pool_of (app "a" "pending" ∷ []))
    ≡ ok (app "a" "pending", 0, record { entries = app "a" "pending" ∷ [] })
unfolding dns_stack
asked-find = refl

verify_dns_iff_example :
    ((verify_dns {S = Unit {0}} plain calm agreeing asked (pool_of (app "a" "pending" ∷ []))).1
      ≡ record { entry = verified 100 (app "a" "pending"); error = none })
    ↔ (All (Confirms (app "a" "pending")) (chosen agreeing [])
        × ((save {S = Unit {0}} plain calm "pool.yaml"
              (record { entries = verified 100 (app "a" "pending") ∷ [] })
              (pool_of (app "a" "pending" ∷ []))).1
            ≡ ok tt))
verify_dns_iff_example =
    verify_dns_iff plain calm agreeing asked (pool_of (app "a" "pending" ∷ [])) (app "a" "pending")
      0 (record { entries = app "a" "pending" ∷ [] }) asked-find
