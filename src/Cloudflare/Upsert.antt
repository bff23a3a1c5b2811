-- ===== src/Cloudflare/Upsert.antt =====
-- `UpsertRecord` against a zone service that behaves as Cloudflare documents.
use stack_forge.Base.{
  String, ◌≡◌, refl, sym, ap, ◌∙◌, Bool, true, false, ◌&&◌, ◌||◌, inl, inr, Bool-cases, Option,
  none, some, Option-cases, List, [], ◌∷◌, ◌++◌, arith, if◌then◌else◌, ◌==◌, eq_iff, eq_refl,
}
use stack_forge.Cloudflare.{
  Client, Record, Outcome, done, failed, Endpoint, zone_records, zone_record, Method, get, post,
  put, Request, Payload, records, Reply, response, Service, read_reply, base, send, read_nothing,
  same_record, same_bool, list_records, create_record, update_record, upsert_found, upsert_record,
}

-- The records of a zone with a name.
abbrev named : String → List Record → List Record
named name [] = []
named name (c ∷ cs) = let rest = named name cs in if c.name == name then c ∷ rest else rest

-- What a listing answers with: without a name it is not filtered.
abbrev pub answered : String → List Record → List Record
answered name cs = if name == "" then cs else named name cs

-- The zone after the record of the given identifier was overwritten.
abbrev pub overwrite : String → Record → List Record → List Record
overwrite id r [] = []
overwrite id r (c ∷ cs) = (if c.id == id then r else c) ∷ overwrite id r cs

abbrev pub listing : List Record → Reply
listing rs = response 200 (some (record { success = true; errors = []; result = records rs }))

abbrev ask : Method → Client → Endpoint → Option Record → Request
ask method c endpoint body = record {
  method = method;
  base = base c;
  endpoint = endpoint;
  bearer = c.token;
  body = body;
}

-- Documented behaviour of the service for one client: a listing answers with the zone's records, of
-- the name if one is given, and changes nothing; a successful PUT overwrites the record with the identifier; a
-- successful POST adds the record under an identifier of the service's choice.
pub record IsZoneService {S : Type 0} (service : Service S) (view : S → String → List Record)
    (c : Client) : Type 0 where
  pub lists :
      (zone name : String) (s : S)
      → service (ask get c (zone_records zone name) none) s
        ≡ (s, listing (answered name (view s zone)))
  pub overwrites :
      (zone id : String) (r : Record) (s : S) (p : Payload)
      → read_reply (service (ask put c (zone_record zone id) (some r)) s).1 ≡ done p
      → view (service (ask put c (zone_record zone id) (some r)) s).0 zone
        ≡ overwrite id r (view s zone)
  pub adds :
      (zone : String) (r : Record) (s : S) (p : Payload)
      → read_reply (service (ask post c (zone_records zone "") (some r)) s).1 ≡ done p
      → (id : String) × (view (service (ask post c (zone_records zone "") (some r)) s).0 zone
          ≡ view s zone ++ record r { id = id } ∷ [])

-- A record that the upsert leaves alone.
abbrev pub Agrees : Record → Option Record → Type 0
Agrees r none = ⊥
Agrees r (some current) =
    (current.content == r.content && same_bool current.proxied r.proxied) ≡ true

same_bool_refl : (b : Bool) → same_bool b b ≡ true
same_bool_refl true = refl
same_bool_refl false = refl

Agrees-overwrite :
    (r : Record) (id : String) (cs : List Record) (current : Record)
    → same_record r (named r.name cs) ≡ some current
    → current.id ≡ id
    → Agrees r (same_record r (named r.name (overwrite id (record r { id = id }) cs)))
unfolding same_record
Agrees-overwrite r id [] current found same = cc
Agrees-overwrite r id (c ∷ cs) current found same = ground (
  arith,
  eq_refl r.name,
  eq_refl r.kind,
  eq_refl r.content,
  eq_iff c.id id,
  same_bool_refl r.proxied,
  Agrees-overwrite r id cs current,
)

Agrees-add :
    (r : Record) (id : String) (cs : List Record)
    → same_record r (named r.name cs) ≡ none
    → Agrees r (same_record r (named r.name (cs ++ record r { id = id } ∷ [])))
unfolding same_record
Agrees-add r id [] missed =
    ground (arith, eq_refl r.name, eq_refl r.kind, eq_refl r.content, same_bool_refl r.proxied)
Agrees-add r id (c ∷ cs) missed = ground (arith, Agrees-add r id cs)

same_record-named :
    (r : Record) (cs : List Record) → same_record r (named r.name cs) ≡ same_record r cs
unfolding same_record
same_record-named r [] = refl
same_record-named r (c ∷ cs) = ground (arith, same_record-named r cs)

-- The filter of a listing drops no record that is looked for.
same_record-answered :
    (r : Record) (cs : List Record)
    → same_record r (answered r.name cs) ≡ same_record r (named r.name cs)
same_record-answered r cs = elim (Bool-cases (r.name == "")) [
  | inl e ↦ rw e (sym (same_record-named r cs))
  | inr e ↦ rw e refl
]

read_nothing-eq-done :
    (o : Outcome Payload) → read_nothing o ≡ done tt → (p : Payload) × (o ≡ done p)
unfolding read_nothing
read_nothing-eq-done (failed e) h = cc
read_nothing-eq-done (done p) h = (p, refl)

module _ {S : Type 0} (service : Service S) (view : S → String → List Record) (c : Client)
    (lawful : IsZoneService service view c) (zone : String) (r : Record) where
  list_records-view :
      (s : S)
      → c.token == "" ≡ false
      → zone == "" ≡ false
      → list_records service c zone r.name s ≡ (s, done (answered r.name (view s zone)))
  unfolding list_records send read_reply
  list_records-view s t z = rw (t, z) (rw (lawful.lists zone r.name s) refl)

  upsert_record-view :
      (s : S)
      → c.token == "" ≡ false
      → zone == "" ≡ false
      → upsert_record service c zone r s
        ≡ upsert_found service c zone r (same_record r (named r.name (view s zone))) s
  unfolding upsert_record
  upsert_record-view s t z =
      rw (list_records-view s t z, upsert_record)
        (rw (list_records-view s t z) (
          ap (λ found. upsert_found service c zone r found s)
            (same_record-answered r (view s zone))))

  upsert_found_of_Agrees :
      (found : Option Record) (s : S)
      → Agrees r found
      → upsert_found service c zone r found s ≡ (s, done tt)
  unfolding upsert_found
  upsert_found_of_Agrees none s h = absurd h
  upsert_found_of_Agrees (some current) s h = rw h

  update-Agrees :
      (s s' : S) (current : Record)
      → same_record r (named r.name (view s zone)) ≡ some current
      → update_record service c zone (record r { id = current.id }) s ≡ (s', done tt)
      → Agrees r (same_record r (named r.name (view s' zone)))
  unfolding update_record send
  update-Agrees s s' current found h = elim (Bool-cases (current.id == "")) [
    | inl empty ↦ cc (rw (empty, update_record) at h)
    | inr given ↦
        let sent = rw (given, update_record) at h in
        let (p, read) = read_nothing-eq-done _ (ap (λ (o : S × Outcome (Unit {0})). o.1) sent) in
        let there = ap (λ (o : S × Outcome (Unit {0})). view o.0 zone) sent in
        let now = lawful.overwrites zone current.id (record r { id = current.id }) s p read in
        rw (sym there ∙ now) (Agrees-overwrite r current.id (view s zone) current found refl)
  ]

  create-Agrees :
      (s s' : S)
      → same_record r (named r.name (view s zone)) ≡ none
      → create_record service c zone r s ≡ (s', done tt)
      → Agrees r (same_record r (named r.name (view s' zone)))
  unfolding create_record send
  create-Agrees s s' missed h = elim (Bool-cases (c.token == "")) [
    | inl empty ↦ cc (rw (empty, create_record) at h)
    | inr token ↦ elim (Bool-cases (zone == "")) [
      | inl empty ↦ cc (rw (token, empty, create_record) at h)
      | inr given ↦
          let sent = rw (token, given, create_record) at h in
          let (p, read) = read_nothing-eq-done _ (ap (λ (o : S × Outcome (Unit {0})). o.1) sent) in
          let there = ap (λ (o : S × Outcome (Unit {0})). view o.0 zone) sent in
          let (id, now) = lawful.adds zone r s p read in
          rw (sym there ∙ now) (Agrees-add r id (view s zone) missed)
    ]
  ]

  upsert_found-Agrees :
      (s s' : S)
      → upsert_found service c zone r (same_record r (named r.name (view s zone))) s ≡ (s', done tt)
      → Agrees r (same_record r (named r.name (view s' zone)))
  unfolding upsert_found
  upsert_found-Agrees s s' h = elim (Option-cases (same_record r (named r.name (view s zone)))) [
    | inl missed ↦ create-Agrees s s' missed (rw (missed, upsert_found) at h)
    | inr (current, found) ↦
        let step = rw (found, upsert_found) at h in
        elim (Bool-cases (current.content == r.content && same_bool current.proxied r.proxied)) [
          | inl same ↦
              let kept = ap (λ (o : S × Outcome (Unit {0})). o.0) (rw same at step) in
              rw (← kept) (rw found same)
          | inr other ↦ update-Agrees s s' current found (rw other at step)
        ]
  ]

  -- Against a service that lists, overwrites and adds records as documented, a second upsert of the
  -- same record after a successful one succeeds and changes nothing.
  pub upsert_record_idem :
      (s s' : S)
      → upsert_record service c zone r s ≡ (s', done tt)
      → upsert_record service c zone r s' ≡ (s', done tt)
  unfolding upsert_record
  upsert_record_idem s s' h = elim (Bool-cases (c.token == "" || zone == "")) [
    | inl bad ↦ absurd (unfold list_records in ground arith)
    | inr fine ↦
        let t : c.token == "" ≡ false = ground arith in
        let z : zone == "" ≡ false = ground arith in
        upsert_record-view s' t z
        ∙ upsert_found_of_Agrees _ s'
            (upsert_found-Agrees s s' (sym (upsert_record-view s t z) ∙ h))
  ]
