-- ===== src/Tests/DnsRuns.antt =====
-- Domain names and the Cloudflare client at concrete inputs.
use stack_forge.Base.{◌≡◌, refl, true, Option, none, some, List, [], ◌∷◌, ◌++◌}
use stack_forge.Cloudflare.{
  Client, Record, Endpoint, zone_records, zone_record, Method, get, post, put, absent, Reply,
  response, Service, done, read_reply, base, send, list_records, create_record, upsert_found,
  upsert_record, same_record,
}
use stack_forge.Cloudflare.Upsert.{IsZoneService, listing, answered, overwrite, upsert_record_idem}

abbrev fine : Reply
fine = response 200 (some (record { success = true; errors = []; result = absent }))

-- A service that keeps one list of records for every zone.
abbrev answer : Method → Endpoint → Option Record → List Record → List Record × Reply
answer get (zone_records zone name) none s = (s, listing (answered name s))
answer put (zone_record zone id) (some r) s = (overwrite id r s, fine)
answer post (zone_records zone name) (some r) s = (s ++ (record r { id = "new" } ∷ []), fine)
answer method endpoint body s = (s, response 404 none)

abbrev zone_service : Service (List Record)
zone_service q s = answer q.method q.endpoint q.body s

abbrev client : Client
client = record { token = "t"; base_url = "" }

zone_service-IsZoneService : IsZoneService zone_service (λ s zone. s) client
zone_service-IsZoneService = record {
  lists = λ zone name s. refl;
  overwrites = λ zone id r s p h. refl;
  adds = λ zone r s p h. ("new", refl);
}

abbrev wanted : Record
wanted = record {
  id = "";
  kind = "A";
  name = "app.example.org";
  content = "1.2.3.4";
  proxied = true;
}

wanted-upsert_record :
    upsert_record zone_service client "z1" wanted [] ≡ (record wanted { id = "new" } ∷ [], done tt)
unfolding list_records create_record send base read_reply upsert_found upsert_record same_record
wanted-upsert_record = refl

upsert_record_idem_example :
    upsert_record zone_service client "z1" wanted (record wanted { id = "new" } ∷ [])
    ≡ (record wanted { id = "new" } ∷ [], done tt)
upsert_record_idem_example =
    upsert_record_idem zone_service (λ s zone. s) client zone_service-IsZoneService "z1" wanted []
      (record wanted { id = "new" } ∷ []) wanted-upsert_record
