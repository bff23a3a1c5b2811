-- ===== src/Pool/Verify.antt =====
-- Verifying DNS, `VerifyDNSWithOptions` of domainpool.go. A resolver is a pair of lookups.
pub mod Agreement
use Prim.Native.String.{◌++◌ as ◌<>◌}
use stack_forge.Base.{
  ℕ, suc, ◌+◌, String, Bool, true, false, not, ◌||◌, Option, none, some, List, [], ◌∷◌, ◌++◌, map,
  set, get_elem?, is_empty, if◌then◌else◌, ◌==◌, Result, ok, err, ◌>>=◌, ◌>>◌, fail_if,
}
use stack_forge.Text.{trim_space, trim_suffix, to_lower, join}
use stack_forge.Text.Number.{show}
use stack_forge.Net.{parse_ip, same_ip}
use stack_forge.Paths.{dir, join_path}
use stack_forge.Host.{Host, Codec}
use stack_forge.Pool.{Entry, Store, World, save, find}
use stack_forge.Pool.Audit.{audit}
use stack_forge.Pool.Apply.{Applied, empty_entry}

pub record Resolver : Type 0 where
  pub lookup_host : String → Result (List String)
  pub lookup_cname : String → Result String

pub record VerifyOptions : Type 0 where
  pub path : String
  pub domain : String
  -- `none` is a nil resolver
  pub resolvers : List (Option Resolver)
  pub names : List String

-- `trimDot`
unfoldable pub trim_dot : String → String
trim_dot s = trim_suffix (to_lower (trim_space s)) "."

-- Some host of the list has the address of the target.
unfoldable pub has_target : String → List String → Bool
has_target target [] = false
has_target target (h ∷ hs) = same_ip (parse_ip h) (parse_ip target) || has_target target hs

-- `verifyEntryDNS`
unfoldable pub verify_entry : Entry → Resolver → Result (Unit {0})
unfolding has_target trim_dot
verify_entry e r =
    if e.record_type == "A"
    then (do
      hosts ← r.lookup_host e.domain
      fail_if (not (has_target e.target_value hosts)) (
          "A record for "
          <> (e.domain <> (" has [" <> (join " " hosts <> ("], want " <> e.target_value))))))
    else if e.record_type == "CNAME"
    then (do
      got ← r.lookup_cname e.domain
      fail_if (not (trim_dot got == trim_dot e.target_value))
          ("CNAME for " <> (e.domain <> (" is " <> (got <> (", want " <> e.target_value))))))
    else err ("unsupported record type " <> e.record_type)

-- `resolverName`
unfoldable pub resolver_name : List String → ℕ → String
resolver_name names i =
    let unnamed = "resolver-" <> show (i + 1) in
    elim (get_elem? names i) [
      | none ↦ unnamed
      | some name ↦ let kept = trim_space name in if kept == "" then unnamed else kept
    ]

-- `len(resolvers) == 0 || resolvers[0] == nil`: the system's resolver alone.
unfoldable pub chosen : Resolver → List (Option Resolver) → List Resolver
chosen net [] = net ∷ []
chosen net (none ∷ rs) = net ∷ []
chosen net (some r ∷ rs) = r ∷ map (λ o. elim o [ none ↦ net | some q ↦ q ]) rs

-- The failures of the resolvers, from the i-th on.
unfoldable pub failures_from : List String → Entry → ℕ → List Resolver → List String
failures_from names e i [] = []
failures_from names e i (r ∷ rs) =
    let rest = failures_from names e (suc i) rs in
    elim (verify_entry e r) [ ok _ ↦ rest | err m ↦ (resolver_name names i <> (": " <> m)) ∷ rest ]

module _ {S : Type 0} (codec : Codec Store) (host : Host codec.Bytes) (net : Resolver) where
  -- `VerifyDNSWithOptions`
  unfoldable pub verify_dns : VerifyOptions → World codec.Bytes S → World codec.Bytes S × Applied
  unfolding audit
  verify_dns opts w =
      let log = join_path (dir opts.path ∷ "domain-pool-audit.jsonl" ∷ []) in
      elim (find codec host opts.path opts.domain w) [
        | err m ↦ (w, record { entry = empty_entry; error = some m })
        | ok (e, i, s) ↦
            let failures = failures_from opts.names e 0 (chosen net opts.resolvers) in
            let text = join "; " failures in
            let bad = record e {
              dns_status = "failed";
              verification_status = "failed";
              last_error = text;
              updated_at = host.now;
            } in
            let good = record e {
              dns_status = "verified";
              verification_status = "verified";
              last_error = "";
              updated_at = host.now;
            } in
            let (w₁, _) = save codec host opts.path (record { entries = set s.entries i bad }) w in
            let (w₂, saved) =
              save codec host opts.path (record { entries = set s.entries i good }) w in
            if not (is_empty failures)
            then (
              audit host log "domain_pool.verify_dns" e bad text w₁,
              record { entry = bad; error = some text },
            )
            else elim saved [
              | err m ↦ (w₂, record { entry = empty_entry; error = some m })
              | ok _ ↦ (
                audit host log "domain_pool.verify_dns" e good "" w₂,
                record { entry = good; error = none },
              )
            ]
      ]
