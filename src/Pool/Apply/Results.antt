-- ===== src/Pool/Apply/Results.antt =====
-- What `ApplyDNS` and `ApplyAll` return and what they leave behind.
use stack_forge.Base.{
  ℕ, ◌+◌, String, ◌≡◌, refl, true, false, Bool-cases, inl, inr, none, Option-cases, List, [], ◌∷◌,
  ◌⊎◌, ◌++◌, length, length-append, arith, ok, Result-cases, ok-injective, if◌then◌else◌, ◌==◌,
}
use stack_forge.Host.{Host, Codec}
use stack_forge.Cloudflare.{Client, Service, Outcome-cases}
use stack_forge.Pool.{Entry, Store, World, AuditRecord, find, load}
use stack_forge.Pool.Audit.{audit}
use stack_forge.Pool.Retry.{ApplyOptions, lookup_zone_with_retry, upsert_record_with_retry}
use stack_forge.Pool.Apply.{
  Applied, ApplyAllResult, record_of, give_up, finish, apply_in_zone, apply_with_client, plan_only,
  token_name, apply_dns, apply_one, apply_each, apply_all,
}

module _ {S : Type 0} (codec : Codec Store) (host : Host codec.Bytes) (service : Service S) where
  -- The files and the DNS service are as before, and an audit file has at most one more line.
  abbrev pub IsTold : String → World codec.Bytes S → World codec.Bytes S → Type 0
  IsTold audit_path w w' =
      (w'.files ≡ w.files)
      × (w'.remote ≡ w.remote)
      × ((w'.audits ≡ w.audits)
          ⊎ ((line : AuditRecord) × (w'.audits ≡ w.audits ++ (audit_path, line) ∷ [])
              × (line.before.status ≡ line.after.status)
              × (line.action ≡ "domain_pool.apply_dns.dry_run")))

  plan_only-IsTold :
      (opts : ApplyOptions) (e : Entry) (w : World codec.Bytes S)
      → IsTold opts.audit_path w (plan_only codec host service opts e w).0
  unfolding audit plan_only
  plan_only-IsTold opts e w = elim (Bool-cases (opts.audit_path == "")) [
    | inl none_given ↦ rw (plan_only, none_given) (refl, refl, inl refl)
    | inr given ↦ elim (Option-cases (host.append_fault opts.audit_path)) [
      | inr (m, bad) ↦ rw (plan_only, given, bad) (refl, refl, inl refl)
      | inl opened ↦ rw (plan_only, given, opened) (refl, refl, inr (_, refl, refl, refl))
    ]
  ]

  -- A dry run of `ApplyDNS` sends no request and leaves the pool file and every file but the audit
  -- file as they were. The audit file gets at most one line, which is for a dry run and whose entry
  -- keeps its status.
  pub apply_dns-dry_run :
      (opts : ApplyOptions) (text : String) (w : World codec.Bytes S)
      → opts.dry_run ≡ true
      → IsTold opts.audit_path w (apply_dns codec host service opts text w).0
  unfolding apply_dns plan_only
  apply_dns-dry_run opts text w dry = elim (Result-cases (find codec host opts.path text w)) [
    | inl (m, missing) ↦ rw (missing, apply_dns) (refl, refl, inl refl)
    | inr ((e, i, s), found) ↦ rw (found, dry, apply_dns) (plan_only-IsTold opts e w)
  ]

  -- An entry that was applied.
  abbrev pub IsApplied : Applied → Type 0
  IsApplied a =
      (a.entry.status ≡ "active") × (a.entry.dns_status ≡ "applied") × (a.entry.last_error ≡ "")

  finish-IsApplied :
      (opts : ApplyOptions) (c : Client) (s : Store) (i : ℕ) (before e : Entry)
      (w : World codec.Bytes S)
      → (finish codec host service opts c s i before e w).1.error ≡ none
      → IsApplied (finish codec host service opts c s i before e w).1
  unfolding finish
  finish-IsApplied opts c s i before e w h = ground arith

  apply_in_zone-IsApplied :
      (opts : ApplyOptions) (c : Client) (s : Store) (i : ℕ) (before e : Entry)
      (w : World codec.Bytes S)
      → (apply_in_zone codec host service opts c s i before e w).1.error ≡ none
      → IsApplied (apply_in_zone codec host service opts c s i before e w).1
  unfolding apply_in_zone give_up
  apply_in_zone-IsApplied opts c s i before e w h =
      elim (Outcome-cases
        (upsert_record_with_retry service opts c e.zone_id (record_of e) w.remote).outcome) [
          | inl (u, found) ↦
              rw (found, apply_in_zone)
                (finish-IsApplied opts c s i before e _ (rw (found, apply_in_zone) at h))
          | inr (m, lost) ↦ cc (rw (lost, apply_in_zone) at h)
        ]

  apply_with_client-IsApplied :
      (opts : ApplyOptions) (c : Client) (s : Store) (i : ℕ) (e : Entry) (w : World codec.Bytes S)
      → (apply_with_client codec host service opts c s i e w).1.error ≡ none
      → IsApplied (apply_with_client codec host service opts c s i e w).1
  unfolding apply_with_client give_up
  apply_with_client-IsApplied opts c s i e w h = elim (Bool-cases (e.zone_id == "")) [
    | inr given ↦
        rw (given, apply_with_client)
          (apply_in_zone-IsApplied opts c s i e e w (rw (given, apply_with_client) at h))
    | inl none_given ↦
        elim (Outcome-cases
          (lookup_zone_with_retry service opts c e.root_domain w.remote).outcome) [
            | inl (zone, found) ↦
                rw (none_given, found, apply_with_client)
                  (apply_in_zone-IsApplied opts c s i e _ _
                    (rw (none_given, found, apply_with_client) at h))
            | inr (m, lost) ↦ cc (rw (none_given, lost, apply_with_client) at h)
          ]
  ]

  -- If `ApplyDNS` is no dry run and returns no error, the entry that it returns has status active,
  -- DNS status applied and no last error, also if it was disabled before.
  pub apply_dns-IsApplied :
      (opts : ApplyOptions) (text : String) (w : World codec.Bytes S)
      → opts.dry_run ≡ false
      → (apply_dns codec host service opts text w).1.error ≡ none
      → IsApplied (apply_dns codec host service opts text w).1
  unfolding apply_dns give_up
  apply_dns-IsApplied opts text w live h = elim (Result-cases (find codec host opts.path text w)) [
    | inl (m, missing) ↦ cc (rw (missing, apply_dns) at h)
    | inr ((e, i, s), found) ↦ elim (Option-cases opts.client) [
      | inr (c, given) ↦
          rw (found, live, given, apply_dns)
            (apply_with_client-IsApplied opts c s i e w (rw (found, live, given, apply_dns) at h))
      | inl env ↦ elim (Bool-cases (host.getenv (token_name opts) == "")) [
        | inl unset ↦ cc (rw (found, live, env, unset, apply_dns) at h)
        | inr token ↦
            rw (found, live, env, token, apply_dns)
              (apply_with_client-IsApplied opts _ s i e w
                (rw (found, live, env, token, apply_dns) at h))
      ]
    ]
  ]

  -- How a round changes the lengths of the three lists, by `n` entries.
  abbrev Adds : ℕ → ApplyAllResult → ApplyAllResult → Type 0
  Adds n r r' =
      (length r'.applied + length r'.failures ≡ length r.applied + length r.failures + n)
      × (length r'.errors + length r.failures ≡ length r'.failures + length r.errors)

  abbrev weight : Entry → ℕ
  weight e = if e.status == "disabled" then 0 else 1

  apply_one-Adds :
      (opts : ApplyOptions) (e : Entry) (w : World codec.Bytes S) (r : ApplyAllResult)
      → Adds (weight e) r (apply_one codec host service opts e (w, r)).1
  unfolding apply_one
  apply_one-Adds opts e w r = elim (Bool-cases (e.status == "disabled")) [
    | inl off ↦ rw (off, apply_one) (omega arith)
    | inr on ↦ elim (Option-cases (apply_dns codec host service opts e.domain w).1.error) [
      | inl fine ↦ rw (on, fine, apply_one) (omega (arith, length-append {0}))
      | inr (m, bad) ↦ rw (on, bad, apply_one) (omega (arith, length-append {0}))
    ]
  ]

  -- The entries that `ApplyAll` does not skip.
  abbrev pub count_enabled : List Entry → ℕ
  count_enabled [] = 0
  count_enabled (e ∷ es) = weight e + count_enabled es

  apply_each-Adds :
      (opts : ApplyOptions) (es : List Entry) (w : World codec.Bytes S) (r : ApplyAllResult)
      → Adds (count_enabled es) r (apply_each codec host service opts es (w, r)).1
  unfolding apply_each
  apply_each-Adds opts [] w r = omega arith
  apply_each-Adds opts (e ∷ es) w r =
      let now = apply_one codec host service opts e (w, r) in
      let first = apply_one-Adds opts e w r in
      let rest = apply_each-Adds opts es now.0 now.1 in omega (arith, first, rest)

  -- When `ApplyAll` returns a result, every entry of the pool that is not disabled is counted once,
  -- as applied or as failed, and each failed one has one message.
  pub apply_all-counts :
      (opts : ApplyOptions) (w : World codec.Bytes S) (s : Store) (r : ApplyAllResult)
      → load codec host opts.path w ≡ ok s
      → (apply_all codec host service opts w).1 ≡ ok r
      → (length r.applied + length r.failures ≡ count_enabled s.entries)
        × (length r.errors ≡ length r.failures)
  unfolding apply_all
  apply_all-counts opts w s r loaded h =
      let empty : ApplyAllResult = record {
        applied = [];
        failures = [];
        errors = [];
        dry_run = opts.dry_run;
      } in
      let counts = apply_each-Adds opts s.entries w empty in
      let same : (apply_each codec host service opts s.entries (w, empty)).1 ≡ r =
        ok-injective (rw (loaded, apply_all) at h) in
      let final = rw same at counts in omega (arith, final)
