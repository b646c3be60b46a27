-- ===== src/Runtime/Sink.antt =====
-- internal/expert/runtime/events.go: `HTTPEventSink`. `mac` takes a secret and a message to the
-- hex digits of their HMAC over SHA-256 (crypto/hmac), `marshal` is `json.Marshal`, `send` is the client, `build` says whether
-- `http.NewRequestWithContext` takes the URL, and the clock is read in seconds.
use cova.Base.{
  ℕ, zero, suc, ◌*◌, String, ◌+s◌, ◌||◌, Option, none, some, Bool, if◌then◌else◌, ltb, leb,
  is_empty, is_blank, trim_space, format_uint,
}
use cova.Runtime.Tasks.{TaskCompletedEvent}

pub record HttpEventSink : Type 0 where
  pub url : String
  pub secret : String
  pub timeout : ℕ

unfoldable pub new_http_event_sink : String → String → ℕ → HttpEventSink
new_http_event_sink url secret zero = record {
  url = trim_space url;
  secret = trim_space secret;
  timeout = 5 * 1000000000;
}
new_http_event_sink url secret (suc timeout) = record {
  url = trim_space url;
  secret = trim_space secret;
  timeout = suc timeout;
}

-- The POST, with the headers X-COVA-Timestamp and X-COVA-Signature where it has them.
pub record Post : Type 0 where
  pub url : String
  pub body : String
  pub signing : Option (String × String)

-- The sink's error, by where it comes from; `delivered` is none.
pub data Sent : Type 0 where
  delivered : Sent
  skipped : Sent
  marshal_failed : Sent
  build_failed : Sent
  post_failed : String → Sent
  endpoint_status : ℕ → Sent

-- What the client does with a request.
pub data PostAnswer : Type 0 where
  broken : String → PostAnswer
  status_code : ℕ → PostAnswer

unfoldable pub judge : PostAnswer → Sent
judge (broken e) = post_failed e
judge (status_code code) = if ltb code 200 || leb 300 code then endpoint_status code else delivered

module _ (mac : String → String → String) where
  -- `signPayload`
  unfoldable pub sign_payload : String → String → String → String
  sign_payload secret timestamp body = mac secret (timestamp +s "." +s body)

  unfoldable pub post_of : HttpEventSink → ℕ → String → Post
  unfolding sign_payload
  post_of sink now raw = record {
    url = sink.url;
    body = raw;
    signing =
        if is_empty sink.secret
        then none
        else some (format_uint now, "sha256=" +s sign_payload sink.secret (format_uint now) raw);
  }

  module _ (marshal : TaskCompletedEvent → Option String) (build : String → Bool)
      (send : Post → PostAnswer) where
    unfoldable pub send_raw : HttpEventSink → ℕ → Option String → Sent
    unfolding post_of judge
    send_raw sink now none = marshal_failed
    send_raw sink now (some raw) =
        if build sink.url then judge (send (post_of sink now raw)) else build_failed

    -- `SendTaskCompleted`
    unfoldable pub send_task_completed : HttpEventSink → ℕ → TaskCompletedEvent → Sent
    unfolding send_raw
    send_task_completed sink now event =
        if is_blank sink.url then skipped else send_raw sink now (marshal event)
