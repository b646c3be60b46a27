-- ===== src/Runtime/Examples/Posts.antt =====
-- A post of the sink in internal/expert/runtime/events.go, verified by internal/delivery/webhook.
use cova.Base.{
  ◌*◌, String, ◌+s◌, ◌≡◌, refl, Option, none, some, [], ◌=s◌, is_empty, is_blank, trim_space,
  format_uint, if◌then◌else◌, lookup, insert,
}
use cova.Webhook.Clock.{pos, parse_int, out_of_window}
use cova.Webhook.Guard.{check_and_mark}
use cova.Webhook.Verify.{Event, accepted, Verifier, new_verifier, Message, verify}
use cova.Webhook.Dispatcher.{compute_hmac}
use cova.Runtime.Sink.{HttpEventSink, new_http_event_sink, post_of}
use cova.Runtime.Trust.{Comes, posted_accepted}

abbrev toy_mac : String → String → String
toy_mac secret message = secret +s message

abbrev told : Event
told = record {
  spec_version = "1.0";
  id = "evt_7";
  event_type = "com.cova.expert.task.completed";
  source = "expert://macro";
  time = "";
  data_content_type = "application/json";
  data_text = "{}";
}

abbrev toy_decode : String → Option Event
toy_decode body = if body =s "{}" then some told else none

abbrev sink : HttpEventSink
unfolding new_http_event_sink trim_space
sink = new_http_event_sink "https://cova.example/events" " key" 0

abbrev verifier : Verifier
unfolding new_verifier trim_space
verifier = new_verifier "key " []

abbrev message : Message
message = record {
  headers = λ k. if k =s "X-COVA-Timestamp" then "1700000000" else "sha256=key1700000000.{}";
  body = "{}";
}

message-Comes : Comes (post_of toy_mac sink 1700000000 "{}") message
unfolding Comes post_of cova.Runtime.Sink.sign_payload ◌=s◌ is_empty new_http_event_sink trim_space
    format_uint
message-Comes = (refl, refl)

posted_accepted_example :
    (verify (compute_hmac toy_mac) toy_decode verifier (1700000001 * 1000000000) message []).1
    ≡ accepted told
unfolding new_verifier verifier new_http_event_sink trim_space is_empty is_blank parse_int
    out_of_window check_and_mark lookup insert ◌=s◌ format_uint
posted_accepted_example =
    posted_accepted toy_mac toy_decode verifier sink 1700000000 (1700000001 * 1000000000)
      (pos 1700000000) "{}" message [] told refl refl refl refl refl refl refl refl refl refl refl
      message-Comes
