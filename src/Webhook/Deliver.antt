-- ===== src/Webhook/Deliver.antt =====
-- internal/delivery/webhook/dispatcher.go: `newEvent` and `deliver`, the loop of attempts with its
-- records. `encode` is `json.Marshal` of an event, `hash` is `payloadSHA256`.
use cova.Base.{
  ℕ, zero, suc, ◌+◌, ◌%◌, ◌^◌, String, ◌+s◌, Bool, true, false, Option, none, some, List, [], ◌∷◌,
  ◌==◌, if◌then◌else◌, is_blank, trim_space, format_uint, map_option,
}
use cova.Api.{CallbackConfig}
use cova.Webhook.Verify.{Event}
use cova.Webhook.Dispatcher.{
  Config, World, AttemptError, AttemptResult, DeliveryRecord, Delivered, delivered, retry_canceled,
  failed_after, may_retry, backoff, error_text, try_once,
}

unfoldable pub event_id : ℕ → ℕ → String
event_id now seq = "evt_" +s format_uint now +s "_" +s format_uint seq

-- `newEvent`: the event, with the counter that `seq` was.
unfoldable pub new_event : Config → ℕ → String → ℕ → String → String → ℕ × Event
unfolding event_id
new_event c now time seq event_type data_text =
    let next = (seq + 1) % 2 ^ 64 in
    (
      next,
      record {
        spec_version = "1.0";
        id = event_id now next;
        event_type = event_type;
        source = c.source;
        time = time;
        data_content_type = "application/json";
        data_text = data_text;
      },
    )

-- What the attempts of one delivery share.
pub record Delivery : Type 0 where
  pub callback : CallbackConfig
  pub url : String
  pub event : Event
  pub job_id : String
  pub payload : String
  pub payload_hash : String

unfoldable pub succeeds : Option AttemptError → Bool
succeeds none = true
succeeds (some e) = false

unfoldable pub attempt_record : Config → World → Delivery → ℕ → AttemptResult → DeliveryRecord
unfolding may_retry succeeds
attempt_record c w j attempt r = record {
  delivery_id = j.event.id +s "." +s format_uint attempt;
  event_id = j.event.id;
  event_type = j.event.event_type;
  job_id = j.job_id;
  callback_url = j.url;
  attempt = attempt;
  max_attempts = c.max_attempts;
  success = succeeds r.err;
  http_status = if r.status_code == 0 then none else some r.status_code;
  error = map_option error_text r.err;
  requested_at = w.now attempt;
  duration_ms = w.duration attempt;
  next_retry_at =
      if may_retry c attempt r.err then some (w.now attempt + backoff c w attempt) else none;
  payload_hash = j.payload_hash;
}

abbrev pub Outcome : Type 0
Outcome = List DeliveryRecord × Delivered

unfoldable pub noted : DeliveryRecord → Outcome → Outcome
noted x (xs, d) = (x ∷ xs, d)

-- After the sleep before the next attempt.
unfoldable pub slept : Option String → Outcome → Outcome
slept none rest = rest
slept (some e) rest = ([], retry_canceled e)

unfoldable pub after_attempt : Config → World → ℕ → Option AttemptError → Outcome → Outcome
unfolding may_retry slept
after_attempt c w attempt none rest = ([], delivered)
after_attempt c w attempt (some e) rest =
    if may_retry c attempt (some e)
    then slept (w.sleep attempt (backoff c w attempt)) rest
    else ([], failed_after c.max_attempts (some e))

unfoldable pub delivery :
    (Event → String) → (String → String) → CallbackConfig → String → Event → Delivery
delivery encode hash callback job_id event = record {
  callback = callback;
  url = trim_space callback.url;
  event = event;
  job_id = job_id;
  payload = encode event;
  payload_hash = hash (encode event);
}

module _ (hmac : String → String → String → String) where
  -- The loop from one attempt on, with the number of attempts left.
  unfoldable pub attempts : Config → World → Delivery → ℕ → ℕ → Outcome
  unfolding noted attempt_record after_attempt
  attempts c w j zero attempt = ([], failed_after c.max_attempts none)
  attempts c w j (suc left) attempt =
      let rest = attempts c w j left (attempt + 1) in
      let r = try_once hmac w attempt j.callback j.url j.payload in
      noted (attempt_record c w j attempt r) (after_attempt c w attempt r.err rest)

  -- The records written, and what `deliver` returns; nothing is sent without an address.
  unfoldable pub deliver :
      (Event → String)
      → (String → String)
      → Config
      → World
      → CallbackConfig
      → String
      → Event
      → Outcome
  unfolding attempts delivery
  deliver encode hash c w callback job_id event =
      if is_blank callback.url
      then ([], delivered)
      else attempts c w (delivery encode hash callback job_id event) c.max_attempts 1
