-- ===== src/Backends.antt =====
-- The clients of Consul and Nomad: internal/controlplane/discovery/consul/client.go and
-- internal/controlplane/orchestrator/nomad/client.go. The HTTP services are parameters, each a
-- state and its answer to a request; requests are kept by method, URL, token and body.
use Prim.Native.String.{◌++◌ as ◌<>◌}
use stack_forge.Base.{ℕ, String, Option, none, some, leb, if◌then◌else◌, ◌==◌, Result, ok, err}
use stack_forge.Text.Number.{show}
use stack_forge.Cloudflare.{Method, get, put, delete}

-- `Addr` and `Token` of either client
pub record Backend : Type 0 where
  pub addr : String
  pub token : String

-- The answer of the transport: an error, or a status and a body.
pub data Answer (B : Type 0) : Type 0 where
  unreachable : String → Answer B
  answered : (status : ℕ) → B → Answer B

pub record Call (B : Type 0) : Type 0 where
  pub method : Method
  pub url : String
  pub token : String
  pub body : Option B

abbrev pub HttpService : Type 0 → Type 0 → Type 0
HttpService B S = Call B → S → S × Answer B

pub record RouteMetadata : Type 0 where
  pub domain : String
  pub service : String
  pub port : ℕ

module _ {B S : Type 0} (http : HttpService B S) (c : Backend) where
  -- The body shared by the calls: it needs an address, and fails from status 300 on.
  unfoldable pub exchange : Method → String → Option B → S → S × Result B
  exchange method path body s =
      if c.addr == ""
      then (s, err "CONSUL_HTTP_ADDR is required")
      else let (s', answer) =
          http (record { method = method; url = c.addr <> path; token = c.token; body = body }) s in
        elim answer [
          | unreachable e ↦ (s', err e)
          | answered status b ↦
              if leb 300 status
              then (s', err ("consul returned status " <> show status))
              else (s', ok b)
        ]

  without_body : S × Result B → S × Result (Unit {0})
  without_body (s, err e) = (s, err e)
  without_body (s, ok b) = (s, ok tt)

  -- `Health`
  unfoldable pub health : S → S × Result (Unit {0})
  unfolding without_body
  health s = without_body (exchange get "/v1/status/leader" none s)

  -- `PutKV`
  unfoldable pub put_kv : String → B → S → S × Result (Unit {0})
  unfolding without_body
  put_kv key value s = without_body (exchange put ("/v1/kv/" <> key) (some value) s)

  -- `DeleteKV`
  unfoldable pub delete_kv : String → S → S × Result (Unit {0})
  unfolding without_body
  delete_kv key s = without_body (exchange delete ("/v1/kv/" <> key) none s)

  -- `WriteRoute`, by how the metadata is encoded
  unfoldable pub write_route :
      (RouteMetadata → Result B) → String → RouteMetadata → S → S × Result (Unit {0})
  write_route encode domain meta s = elim (encode meta) [
    | err e ↦ (s, err e)
    | ok b ↦ put_kv ("stackforge/routes/" <> domain) b s
  ]

  -- `DeleteRoute`
  unfoldable pub delete_route : String → S → S × Result (Unit {0})
  delete_route domain s = delete_kv ("stackforge/routes/" <> domain) s

  -- `get`, by how the body is decoded
  unfoldable pub fetch : {A : Type 0} → (B → Result A) → String → S → S × Result A
  fetch decode path s =
      if c.addr == ""
      then (s, err "NOMAD_ADDR is required")
      else let (s', answer) =
          http (record { method = get; url = c.addr <> path; token = c.token; body = none }) s in
        elim answer [
          | unreachable e ↦ (s', err e)
          | answered status b ↦
              if leb 300 status
              then (s', err ("nomad returned status " <> show status))
              else (s', decode b)
        ]

  -- `JobStatus`, by how a job is decoded
  unfoldable pub job_status : {A : Type 0} → (B → Result A) → String → S → S × Result (Unit {0})
  job_status decode job s =
      let (s', r) = fetch decode ("/v1/job/" <> job) s in
      elim r [ err e ↦ (s', err e) | ok _ ↦ (s', ok tt) ]
