-- ===== src/Cloudflare.antt =====
-- The Cloudflare client, internal/controlplane/dns/cloudflare/client.go.
-- The HTTP service is a parameter: a state and its answer to each request. A request's URL is kept
-- by its parts, and the JSON of an answer by what the client reads of it.
pub mod Upsert
use Prim.Native.String.{◌++◌ as ◌<>◌}
use stack_forge.Base.{
  ℕ, String, Bool, true, not, ◌&&◌, ◌||◌, Option, none, some, List, [], ◌∷◌, leb, if◌then◌else◌,
  ◌==◌, ◌≡◌, refl, ◌⊎◌, inl, inr,
}
use stack_forge.Text.{quoted}
use stack_forge.Text.Number.{show}

pub record Client : Type 0 where
  pub token : String
  pub base_url : String

pub record Record : Type 0 where
  pub id : String
  pub kind : String
  pub name : String
  pub content : String
  pub proxied : Bool

pub record Zone : Type 0 where
  pub id : String
  pub name : String

-- An error of a call: a plain one, or an `APIError` with its status.
pub data Failure : Type 0 where
  plain : String → Failure
  api : (status : ℕ) (message : String) → Failure

pub data Outcome {ℓ} (A : Type ℓ) : Type ℓ where
  done : A → Outcome A
  failed : Failure → Outcome A

pub Outcome-cases :
    {A : Type 0} (o : Outcome A) → ((a : A) × (o ≡ done a)) ⊎ ((e : Failure) × (o ≡ failed e))
Outcome-cases (done a) = inl (a, refl)
Outcome-cases (failed e) = inr (e, refl)

-- `Error()`
unfoldable pub failure_text : Failure → String
failure_text (plain s) = s
failure_text (api status message) =
    let head = "cloudflare returned status " <> show status in
    if message == "" then head else head <> (": " <> message)

pub data Endpoint : Type 0 where
  zones_named : String → Endpoint
  zone_records : (zone name : String) → Endpoint
  zone_record : (zone record_id : String) → Endpoint

pub data Method : Type 0 where
  get post put delete : Method

pub record Request : Type 0 where
  pub method : Method
  pub base : String
  pub endpoint : Endpoint
  pub bearer : String
  pub body : Option Record

-- The `result` of an envelope: absent, what the caller asked for, or text that does not decode.
pub data Payload : Type 0 where
  absent : Payload
  zones : List Zone → Payload
  records : List Record → Payload
  garbled : String → Payload

pub record Envelope : Type 0 where
  pub success : Bool
  pub errors : List String
  pub result : Payload

-- The answer of the transport: an error, or a status with a body that may be empty.
pub data Reply : Type 0 where
  no_response : String → Reply
  response : (status : ℕ) → Option Envelope → Reply

abbrev pub Service : Type 0 → Type 0
Service S = Request → S → S × Reply

abbrev first_message : List String → String
first_message [] = ""
first_message (m ∷ ms) = m

-- The end of `do`: what the client makes of an answer.
unfoldable pub read_reply : Reply → Outcome Payload
read_reply (no_response e) = failed (plain e)
read_reply (response status none) = if leb 300 status then failed (api status "") else done absent
read_reply (response status (some env)) =
    if leb 300 status || not env.success
    then failed (api status (first_message env.errors))
    else done env.result

-- `base`
unfoldable pub base : Client → String
base c = if c.base_url == "" then "https://api.cloudflare.com/client/v4" else c.base_url

-- Decoding into a slice of records: an absent result leaves it empty.
read_records : Outcome Payload → Outcome (List Record)
read_records (failed e) = failed e
read_records (done absent) = done []
read_records (done (records rs)) = done rs
read_records (done (garbled e)) = failed (plain e)
read_records (done (zones zs)) = failed (plain "json: cannot unmarshal zones into records")

read_zones : Outcome Payload → Outcome (List Zone)
read_zones (failed e) = failed e
read_zones (done absent) = done []
read_zones (done (zones zs)) = done zs
read_zones (done (garbled e)) = failed (plain e)
read_zones (done (records rs)) = failed (plain "json: cannot unmarshal records into zones")

read_nothing : Outcome Payload → Outcome (Unit {0})
read_nothing (failed e) = failed e
read_nothing (done p) = done tt

first_zone : String → Outcome (List Zone) → Outcome String
first_zone name (failed e) = failed e
first_zone name (done []) = failed (plain ("cloudflare zone " <> (name <> " not found")))
first_zone name (done (z ∷ zs)) = done z.id

-- The record of the list with the type and the name of `r`, if there is one.
unfoldable pub same_record : Record → List Record → Option Record
same_record r [] = none
same_record r (c ∷ cs) = if c.kind == r.kind && c.name == r.name then some c else same_record r cs

abbrev same_bool : Bool → Bool → Bool
same_bool a b = if a then b else not b

module _ {S : Type 0} (service : Service S) (c : Client) where
  -- `do`
  unfoldable pub send : Method → Endpoint → Option Record → S → S × Outcome Payload
  send method endpoint body s =
      let (s', reply) =
        service
          (record {
            method = method;
            base = base c;
            endpoint = endpoint;
            bearer = c.token;
            body = body;
          })
          s in
      (s', read_reply reply)

  -- `ListRecords`
  unfoldable pub list_records : String → String → S → S × Outcome (List Record)
  unfolding read_records
  list_records zone name s =
      if c.token == ""
      then (s, failed (plain "CLOUDFLARE_API_TOKEN is required"))
      else if zone == ""
      then (s, failed (plain "Cloudflare zone id is required"))
      else let (s', o) = send get (zone_records zone name) none s in (s', read_records o)

  -- `CreateRecord`
  unfoldable pub create_record : String → Record → S → S × Outcome (Unit {0})
  unfolding read_nothing
  create_record zone r s =
      if c.token == ""
      then (s, failed (plain "CLOUDFLARE_API_TOKEN is required"))
      else if zone == ""
      then (s, failed (plain "Cloudflare zone id is required"))
      else let (s', o) = send post (zone_records zone "") (some r) s in (s', read_nothing o)

  -- `UpdateRecord`
  unfoldable pub update_record : String → Record → S → S × Outcome (Unit {0})
  unfolding read_nothing
  update_record zone r s =
      if r.id == ""
      then (s, failed (plain "record id is required for update"))
      else let (s', o) = send put (zone_record zone r.id) (some r) s in (s', read_nothing o)

  -- `DeleteRecord`
  unfoldable pub delete_record : String → String → S → S × Outcome (Unit {0})
  unfolding read_nothing
  delete_record zone record_id s =
      if record_id == ""
      then (s, failed (plain "record id is required for delete"))
      else let (s', o) = send delete (zone_record zone record_id) none s in (s', read_nothing o)

  -- The loop of `UpsertRecord`, given the record that it finds.
  unfoldable pub upsert_found : String → Record → Option Record → S → S × Outcome (Unit {0})
  upsert_found zone r none s = create_record zone r s
  upsert_found zone r (some current) s =
      if current.content == r.content && same_bool current.proxied r.proxied
      then (s, done tt)
      else update_record zone (record r { id = current.id }) s

  -- `UpsertRecord`
  unfoldable pub upsert_record : String → Record → S → S × Outcome (Unit {0})
  unfolding upsert_found same_record
  upsert_record zone r s =
      let (s', o) = list_records zone r.name s in
      elim o [
        | failed e ↦ (s', failed e)
        | done existing ↦ upsert_found zone r (same_record r existing) s'
      ]

  -- `LookupZone`
  unfoldable pub lookup_zone : String → S → S × Outcome String
  unfolding read_zones first_zone
  lookup_zone name s =
      if name == ""
      then (s, failed (plain "zone name is required"))
      else let (s', o) = send get (zones_named name) none s in (s', first_zone name (read_zones o))
