-- ===== src/Pool/Retry.antt =====
-- The options of `ApplyDNS`, and the calls that are repeated after a rate limit:
-- `lookupZoneWithRetry` and `upsertRecordWithRetry`.
pub mod Loop
use Prim.Native.String.{◌++◌ as ◌<>◌}
use stack_forge.Base.{
  ℕ, zero, suc, ◌*◌, ◌^◌, ◌%◌, String, Bool, true, false, Option, List, [], ◌∷◌, leb, eqb,
  if◌then◌else◌, ◌==◌,
}
use stack_forge.Cloudflare.{
  Client, Record, Service, Outcome, done, failed, Failure, plain, api, failure_text, lookup_zone,
  upsert_record,
}

pub record ApplyOptions : Type 0 where
  pub path : String
  pub audit_path : String
  pub client : Option Client
  pub dry_run : Bool
  pub token_env : String
  -- `MaxRetries`, where a negative number is 0 here: both mean the default.
  pub max_retries : ℕ
  -- `RetryDelay` in nanoseconds, where a negative number is 0 here.
  pub retry_delay : ℕ

-- `retryCount`
unfoldable pub retry_count : ApplyOptions → ℕ
retry_count o = if leb 1 o.max_retries then o.max_retries else 2

-- `retryDelay`, with the shift and the product of 64 bits written out.
unfoldable pub retry_delay : ApplyOptions → ℕ → ℕ
retry_delay o attempt =
    let delay = if leb 1 o.retry_delay then o.retry_delay else 1000000000 in
    (delay * (2 ^ attempt % 2 ^ 64)) % 2 ^ 64

-- `shouldRetryCloudflare`
unfoldable pub should_retry : Failure → Bool
should_retry (plain m) = false
should_retry (api status m) = eqb status 429

-- `cloudflareHint`
unfoldable pub hint : Failure → String
hint (plain m) = ""
hint (api status m) =
    if eqb status 403
    then "Check Cloudflare token permissions, zone scope, and token IP restrictions; run from an allowed egress IP or update the token policy."
    else if eqb status 429
    then "Cloudflare rate limited the request. Wait for the limit to clear, reduce repeated failed auth attempts, and retry with the same command."
    else ""

-- `cloudflareFailureMessage`, and the text of `withCloudflareHint`
unfoldable pub failure_message : Failure → String
unfolding hint
failure_message e = if hint e == "" then failure_text e else failure_text e <> (". " <> hint e)

-- What a call repeated after rate limits did: the service's state, the outcome, the delays slept.
pub record Retried (S A : Type 0) : Type 0 where
  pub state : S
  pub outcome : Outcome A
  pub slept : List ℕ

-- What follows one call: the outcome, or the rest of the loop after a delay.
after_call : {S A : Type 0} → (Unit {0} → Retried S A) → ℕ → S → Outcome A → Retried S A
after_call again delay s (done a) = record { state = s; outcome = done a; slept = [] }
after_call again delay s (failed e) =
    let r = again tt in
    if should_retry e
    then record { state = r.state; outcome = r.outcome; slept = delay ∷ r.slept }
    else record { state = s; outcome = failed e; slept = [] }

-- The loop of `lookupZoneWithRetry` and `upsertRecordWithRetry`, with the attempts that are left
-- after this one and the number of this one.
unfoldable pub attempts :
    {S A : Type 0} → (ℕ → ℕ) → (S → S × Outcome A) → (left attempt : ℕ) → S → Retried S A
unfolding after_call
attempts delay call zero attempt s =
    let (s', o) = call s in record { state = s'; outcome = o; slept = [] }
attempts delay call (suc left) attempt s =
    let (s', o) = call s in
    after_call (λ u. attempts delay call left (suc attempt) s') (delay attempt) s' o

module _ {S : Type 0} (service : Service S) where
  -- `lookupZoneWithRetry`
  unfoldable pub lookup_zone_with_retry : ApplyOptions → Client → String → S → Retried S String
  lookup_zone_with_retry opts c name =
      attempts (retry_delay opts) (lookup_zone service c name) (retry_count opts) 0

  -- `upsertRecordWithRetry`
  unfoldable pub upsert_record_with_retry :
      ApplyOptions → Client → String → Record → S → Retried S (Unit {0})
  upsert_record_with_retry opts c zone r =
      attempts (retry_delay opts) (upsert_record service c zone r) (retry_count opts) 0
