-- ===== src/Server/Safety.antt =====
-- What the requests to the server keep.
use stack_forge.Base.{
  ℕ, String, ◌≡◌, refl, Bool, false, Bool-cases, some, Option-cases, ok, err, Result-cases, inl,
  inr, ◌==◌, eq_iff, arith, List, [], ◌∷◌,
}
use stack_forge.Text.{contains}
use stack_forge.Maps.{lookup}
use stack_forge.Auth.{Authenticator, refused, enabled, authorize, authenticator}
use stack_forge.Auth.Keys.{middleware-IsGuarded}
use stack_forge.Registry.{
  Domain, Verification, Source, Store, new_store, create, delete, verification_token as draw_token,
  mark_verified, get,
}
use stack_forge.Registry.Invariant.{get-eq-some}
use stack_forge.Registry.Ownership.{
  Reach, Reach-IsProven, start, next, created, deleted, asked, marked,
}
use stack_forge.Server.{
  Route, create_domain, list_domains, get_domain, delete_domain, patch_domain, verification_token,
  verify_domain, act, reconcile_domain, reconcile_all, audit_logs, handle_create, handle_delete,
  handle_token, handle_verify, handle_act, handle, serve,
}

module _ (src : Source) (wildcard : Bool) where
  create_state :
      (d : Domain) (s : Store)
      → (handle_create src wildcard (ok d) s).0 ≡ (create src d wildcard s).0
  unfolding handle_create
  create_state d s = elim (Result-cases (create src d wildcard s).1) [
    | inl (e, bad) ↦ rw (bad, handle_create) refl
    | inr (x, good) ↦ rw (good, handle_create) refl
  ]

  delete_state :
      (id : String) (s : Store) → (handle_delete src wildcard id s).0 ≡ (delete src id s).0
  unfolding handle_delete
  delete_state id s = elim (Result-cases (delete src id s).1) [
    | inl (e, bad) ↦ rw (bad, handle_delete) refl
    | inr (x, good) ↦ rw (good, handle_delete) refl
  ]

  token_state :
      (id : String) (s : Store) → (handle_token src wildcard id s).0 ≡ (draw_token src id s).0
  unfolding handle_token
  token_state id s = elim (Result-cases (draw_token src id s).1) [
    | inl (e, bad) ↦ rw (bad, handle_token) refl
    | inr (x, good) ↦ rw (good, handle_token) refl
  ]

  verify_state :
      (id token : String) (s : Store)
      → (handle_verify src wildcard id token s).0 ≡ (mark_verified src id token s).0
  unfolding handle_verify
  verify_state id token s = elim (Result-cases (mark_verified src id token s).1) [
    | inl (e, bad) ↦ rw (bad, handle_verify) refl
    | inr (x, good) ↦ rw (good, handle_verify) refl
  ]

  -- A handler leaves the registry alone, or takes one step of it.
  handle-Reach :
      (route : Route) (s : Store) → Reach src s → Reach src (handle src wildcard route s).0
  unfolding handle handle_create
  handle-Reach (create_domain (err e)) s r = r
  handle-Reach (create_domain (ok d)) s r = rw (create_state d s) (next r (created d wildcard))
  handle-Reach list_domains s r = r
  handle-Reach (get_domain id) s r = r
  handle-Reach (delete_domain id) s r = rw (delete_state id s) (next r (deleted id))
  handle-Reach (patch_domain id) s r = r
  handle-Reach (verification_token id) s r = rw (token_state id s) (next r (asked id))
  handle-Reach (verify_domain id token) s r =
      rw (verify_state id token s) (next r (marked id token))
  handle-Reach (act id action) s r = r
  handle-Reach (reconcile_domain id) s r = r
  handle-Reach reconcile_all s r = r
  handle-Reach audit_logs s r = r

  serve-Reach :
      (a : Authenticator) (header : String) (route : Route) (s : Store)
      → Reach src s
      → Reach src (serve src wildcard a header route s).0
  unfolding serve
  serve-Reach a header route s r =
      elim (middleware-IsGuarded src.digest a header (handle src wildcard route) s) [
        | inl (_, ran) ↦ rw ran (handle-Reach route s r)
        | inr (_, stayed) ↦ rw stayed r
      ]

  -- The registry after some requests, each with its header.
  abbrev pub serve_all : Authenticator → List (String × Route) → Store → Store
  serve_all a [] s = s
  serve_all a ((header, route) ∷ more) s = serve_all a more (serve src wildcard a header route s).0

  serve_all-Reach :
      (a : Authenticator) (requests : List (String × Route)) (s : Store)
      → Reach src s
      → Reach src (serve_all a requests s)
  serve_all-Reach a [] s r = r
  serve_all-Reach a ((header, route) ∷ more) s r =
      serve_all-Reach a more (serve src wildcard a header route s).0
        (serve-Reach a header route s r)

  act_accepted_lem :
      (id action : String) (s : Store)
      → contains action "delete" ≡ false
      → (handle_act src wildcard id action s).code ≡ 202
      → (d : Domain) × (get id s ≡ some d) × (d.ownership_status ≡ "verified")
  unfolding handle_act
  act_accepted_lem id action s applies accepted = elim (Option-cases (get id s)) [
    | inl missing ↦ absurd (omega (arith, rw (applies, missing, handle_act) at accepted))
    | inr (d, found) ↦ elim (Bool-cases (d.ownership_status == "verified")) [
      | inr other ↦ absurd (omega (arith, rw (applies, found, other, handle_act) at accepted))
      | inl proven ↦ (d, found, (eq_iff d.ownership_status "verified").0 proven)
    ]
  ]

  -- After any requests to a new server, `accepted` answers 202 to an action that deletes nothing
  -- only for a domain that `Get` finds verified and that a verification token was drawn for.
  pub act_accepted :
      (a : Authenticator) (requests : List (String × Route)) (id action : String)
      → contains action "delete" ≡ false
      → (handle_act src wildcard id action (serve_all a requests new_store)).code ≡ 202
      → (d : Domain) × (get id (serve_all a requests new_store) ≡ some d)
        × (d.ownership_status ≡ "verified")
        × ((v : Verification) × (lookup id (serve_all a requests new_store).verifications ≡ some v))
  act_accepted a requests id action applies accepted =
      let s = serve_all a requests new_store in
      let (d, found, verified) = act_accepted_lem id action s applies accepted in
      let (stored, live) = get-eq-some id s d found in
      (
        d,
        found,
        verified,
        Reach-IsProven src s (serve_all-Reach a requests new_store start) id d stored verified,
      )

  -- A request to the API without an authorized header leaves the registry as it is and is refused.
  pub serve_unauthorized :
      (keys : List String) (header : String) (route : Route) (s : Store)
      → authorize src.digest (authenticator src.digest keys) header ≡ false
      → ((serve src wildcard (authenticator src.digest keys) header route s).0 ≡ s)
        × ((code : ℕ) × ((message : String) × ((serve src wildcard
                  (authenticator src.digest keys)
                  header
                  route
                  s).1
                ≡ refused code message)))
  unfolding serve
  serve_unauthorized keys header route s h =
      elim (middleware-IsGuarded src.digest (authenticator src.digest keys) header
        (handle src wildcard route) s) [
          | inl (good, _) ↦ cc (h, good)
          | inr (_, stayed) ↦ elim (Bool-cases (enabled (authenticator src.digest keys))) [
            | inl on ↦ rw stayed (rw on (refl, (401, ("unauthorized", refl))))
            | inr off ↦ rw stayed (rw off (refl, (403, ("admin API keys are required", refl))))
          ]
        ]
