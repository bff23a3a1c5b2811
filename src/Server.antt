-- ===== src/Server.antt =====
-- The HTTP server, internal/controlplane/http/server.go, over the registry in memory (`New`).
-- A request is the route that the mux finds for it, with what the handler reads of the body; an
-- answer is a status and what is written. The mux itself belongs to net/http.
pub mod Safety
use stack_forge.Base.{
  ℕ, String, Bool, true, false, not, Option, none, some, List, [], ◌∷◌, if◌then◌else◌, ◌==◌, Result,
  ok, err,
}
use stack_forge.Text.{contains}
use stack_forge.Auth.{Authenticator, Guarded, refused, passed, enabled, middleware}
use stack_forge.Registry.{
  Domain, Verification, Source, Store, create, delete, verification_token as draw_token,
  mark_verified, get, list,
}
use stack_forge.Reconcile.{Reconciled, domain}

-- The routes behind the middleware.
pub data Route : Type 0 where
  -- POST /api/v1/domains, with the decoded body or the error of decoding
  create_domain : Result Domain → Route
  list_domains : Route
  -- GET /api/v1/domains/{id} and …/status
  get_domain : (id : String) → Route
  delete_domain : (id : String) → Route
  patch_domain : (id : String) → Route
  verification_token : (id : String) → Route
  -- POST …/verify, with the token of the body; the empty text where the body does not decode
  verify_domain : (id token : String) → Route
  -- `accepted(action)` of the routes under …/dns and …/routing
  act : (id action : String) → Route
  reconcile_domain : (id : String) → Route
  reconcile_all : Route
  audit_logs : Route

pub data Body : Type 0 where
  nothing : Body
  text : String → Body
  a_domain : Domain → Body
  domains : List Domain → Body
  a_verification : Verification → Body
  a_result : Reconciled → Body
  results : List Reconciled → Body
  status : List (String × String) → Body
  empty_list : Body

pub record Response : Type 0 where
  pub code : ℕ
  pub body : Body

abbrev reply : ℕ → Body → Response
reply code body = record { code = code; body = body }

-- `http.NotFound`
abbrev not_found : Response
not_found = reply 404 (text "404 page not found")

reconcile_each : List Domain → List Reconciled
reconcile_each [] = []
reconcile_each (d ∷ ds) = domain d ∷ reconcile_each ds

module _ (src : Source) (allow_wildcard : Bool) where
  -- `createDomain`
  unfoldable pub handle_create : Result Domain → Store → Store × Response
  handle_create (err e) s = (s, reply 400 (text e))
  handle_create (ok d) s =
      let (s', r) = create src d allow_wildcard s in
      elim r [ err e ↦ (s', reply 400 (text e)) | ok new ↦ (s', reply 201 (a_domain new)) ]

  -- `getDomain`
  unfoldable pub handle_get : String → Store → Response
  handle_get id s = elim (get id s) [ none ↦ not_found | some d ↦ reply 200 (a_domain d) ]

  -- `deleteDomain`
  unfoldable pub handle_delete : String → Store → Store × Response
  handle_delete id s =
      let (s', r) = delete src id s in
      elim r [ err e ↦ (s', not_found) | ok _ ↦ (s', reply 204 nothing) ]

  -- `verificationToken`
  unfoldable pub handle_token : String → Store → Store × Response
  handle_token id s =
      let (s', r) = draw_token src id s in
      elim r [ err e ↦ (s', reply 404 (text e)) | ok v ↦ (s', reply 200 (a_verification v)) ]

  -- `verifyDomain`
  unfoldable pub handle_verify : String → String → Store → Store × Response
  handle_verify id token s =
      let (s', r) = mark_verified src id token s in
      elim r [
        | err e ↦ (s', reply 400 (text e))
        | ok _ ↦ (s', reply 200 (status (("status", "verified") ∷ [])))
      ]

  -- `reconcileDomain`
  unfoldable pub handle_reconcile : String → Store → Response
  handle_reconcile id s = elim (get id s) [
    | none ↦ not_found
    | some d ↦
        if not ((domain d).error == "")
        then reply 409 (a_result (domain d))
        else reply 200 (a_result (domain d))
  ]

  -- `accepted`
  unfoldable pub handle_act : String → String → Store → Response
  handle_act id action s =
      let accepted = reply 202 (status (("status", "accepted") ∷ ("action", action) ∷ [])) in
      if not (contains action "delete")
      then elim (get id s) [
        | none ↦ not_found
        | some d ↦
            if not (d.ownership_status == "verified")
            then reply 409 (text "ownership is not verified")
            else accepted
      ]
      else accepted

  -- The handlers of the API, by route.
  unfoldable pub handle : Route → Store → Store × Response
  unfolding reconcile_each
  handle (create_domain d) s = handle_create d s
  handle list_domains s = (s, reply 200 (domains (list s)))
  handle (get_domain id) s = (s, handle_get id s)
  handle (delete_domain id) s = handle_delete id s
  handle (patch_domain id) s =
      (s, reply 409 (text "patch is not enabled for immutable routing fields in this build"))
  handle (verification_token id) s = handle_token id s
  handle (verify_domain id token) s = handle_verify id token s
  handle (act id action) s = (s, handle_act id action s)
  handle (reconcile_domain id) s = (s, handle_reconcile id s)
  handle reconcile_all s = (s, reply 200 (results (reconcile_each (list s))))
  handle audit_logs s = (s, reply 200 empty_list)

  -- A request to the API: the middleware around the handlers.
  unfoldable pub serve : Authenticator → String → Route → Store → Store × Guarded Response
  serve a header route s = middleware src.digest a header (handle route) s

-- `GET /ready`, which may stand behind the middleware
unfoldable pub ready : (String → String) → Bool → Authenticator → String → Guarded Response
ready digest protected a header =
    let answer =
      if not (enabled a)
      then reply 403 (text "admin API keys are required")
      else reply 200 (status (("status", "ready") ∷ [])) in
    if protected then (middleware digest a header (λ s. (s, answer)) tt).1 else passed answer
