-- ===== src/Webhook/Examples.antt =====
-- internal/delivery/webhook at small inputs: the theorems with the outside code as plain functions.
mod Stores
use cova.Base.{
  ℕ, ◌+◌, ◌*◌, ◌<◌, ◌≤◌, String, ◌+s◌, ◌≡◌, ◌≢◌, refl, true, false, Option, none, some, [], ◌∷◌,
  lookup, insert, length, ltb, if◌then◌else◌, ◌=s◌, is_empty, is_blank, trim_space, format_uint,
  arith,
}
use cova.Api.{CallbackConfig, CallbackSigning}
use cova.Webhook.Clock.{pos, parse_int, out_of_window, since}
use cova.Webhook.Guard.{check_and_mark}
use cova.Base.Fold.{cut_prefix}
use cova.Webhook.Verify.{
  Event, VerifyError, accepted, refused, Verifier, new_verifier, Message, timestamp, signature,
  parse_signature_header, verify, verify_all,
}
use cova.Webhook.Replay.{accepted_once}
use cova.Webhook.Forged.{forged_harmless, far_message_replayed}
use cova.Webhook.Signed.{Arrives, signed_accepted}
use cova.Webhook.Dispatcher.{
  Request, sign, Config, World, answered, delivered, new_dispatcher, try_once, is_supported,
  with_max_attempts, judge,
}
use cova.Webhook.Deliver.{deliver, delivery}
use cova.Webhook.Attempts.{Told, Fails, deliver-Told, deliver_reaches}

-- A code in place of HMAC-SHA256.
abbrev toy_hmac : String → String → String → String
toy_hmac secret ts body = secret +s ts +s body

abbrev toy_event : Event
toy_event = record {
  spec_version = "1.0";
  id = "evt_1_1";
  event_type = "com.cova.job.completed";
  source = "cova://orchestrator";
  time = "2023-11-14T22:13:20Z";
  data_content_type = "application/json";
  data_text = "{}";
}

abbrev toy_decode : String → Option Event
toy_decode body = if body =s "{}" then some toy_event else none

abbrev verifier : Verifier
unfolding new_verifier trim_space
verifier = new_verifier " key " []

abbrev message : String → Message
message stamp = record {
  headers = λ k. if k =s "X-COVA-Timestamp" then stamp else "SHA256= key" +s stamp +s "{}";
  body = "{}";
}

abbrev clock : ℕ
clock = 1700000000 * 1000000000

abbrev near_message : Message
near_message = message "1700000000"

near_accepted : (verify toy_hmac toy_decode verifier clock near_message []).1 ≡ accepted toy_event
unfolding verify new_verifier trim_space is_empty is_blank ◌=s◌ parse_int out_of_window since
    parse_signature_header timestamp signature check_and_mark lookup insert
near_accepted = refl

near_parsed : parse_int (timestamp near_message) ≡ some (pos 1700000000)
unfolding parse_int timestamp trim_space is_empty ◌=s◌
near_parsed = refl

accepted_once_example :
    (verify toy_hmac toy_decode verifier (clock + 7) near_message (
      verify_all toy_hmac toy_decode verifier
        ((clock + 5, near_message) ∷ [])
        (verify toy_hmac toy_decode verifier clock near_message []).0)).1
    ≢ accepted toy_event
unfolding new_verifier verifier
accepted_once_example =
    accepted_once toy_hmac toy_decode verifier near_message near_message 1700000000 clock
      (clock + 7) [] toy_event ((clock + 5, near_message) ∷ []) toy_event (omega arith)
      (omega arith) near_parsed (omega arith) refl refl near_accepted (omega arith, tt)

-- A message as the dispatcher spells its headers.
abbrev sent_message : Message
sent_message = record {
  headers = λ k. if k =s "X-COVA-Timestamp" then "1700000000" else "sha256=key1700000000{}";
  body = "{}";
}

forged_message : Message
forged_message = record near_message { body = "{\"id\": 1}" }

forged_differs :
    parse_signature_header (signature forged_message)
    ≢ some (toy_hmac verifier.secret (timestamp forged_message) forged_message.body)
unfolding parse_signature_header signature timestamp trim_space ◌=s◌ is_blank is_empty new_verifier
    forged_message
forged_differs e = cc e

forged_harmless_example :
    (e : VerifyError) × (verify toy_hmac toy_decode verifier clock forged_message []
      ≡ ([], refused e))
forged_harmless_example =
    forged_harmless toy_hmac toy_decode verifier clock forged_message [] forged_differs

abbrev hook : CallbackConfig
hook = record { url = " https://a.example/hook"; signing = none }

abbrev md5_signing : CallbackSigning
md5_signing = record { algorithm = "HMAC-MD5"; secret_ref = "key" }

-- An endpoint that is unavailable at the first two attempts.
abbrev world : World
world = record {
  now = λ k. clock + k;
  unix = λ k. "1700000000";
  build = λ k url. none;
  send = λ k r. answered (if ltb k 3 then 503 else 200);
  duration = λ k. 5;
  jitter = λ k d. d;
  sleep = λ k d. none;
}

abbrev toy_encode : Event → String
toy_encode e = e.data_text

abbrev toy_hash : String → String
toy_hash s = s

abbrev dispatcher : Config
unfolding new_dispatcher
dispatcher = new_dispatcher (with_max_attempts 4 ∷ [])

hook_address : is_blank hook.url ≡ false
unfolding is_blank trim_space is_empty
hook_address = refl

deliver-Told_example :
    let o = deliver toy_hmac toy_encode toy_hash dispatcher world hook "job_1" toy_event in
    Told 4 1 o.0 o.1
unfolding new_dispatcher dispatcher
deliver-Told_example =
    deliver-Told toy_hmac toy_encode toy_hash dispatcher world hook "job_1" toy_event (omega arith)
      hook_address

hook-Fails :
    (i : ℕ)
    → 1 ≤ i
    → i < 1 + 2
    → Fails toy_hmac dispatcher world (delivery toy_encode toy_hash hook "job_1" toy_event) i
unfolding try_once judge delivery format_uint
hook-Fails i low high =
    let early : ltb i 3 ≡ true = ground arith in
    (("unexpected status code: " +s format_uint 503, rw early refl), refl)

hook_answers :
    (try_once toy_hmac world (1 + 2) hook (trim_space hook.url) (toy_encode toy_event)).err ≡ none
unfolding try_once judge delivery format_uint
hook_answers = refl

deliver_reaches_example :
    let o = deliver toy_hmac toy_encode toy_hash dispatcher world hook "job_1" toy_event in
    (o.1 ≡ delivered) × (length o.0 ≡ 3)
unfolding new_dispatcher dispatcher
deliver_reaches_example =
    deliver_reaches toy_hmac toy_encode toy_hash dispatcher world hook "job_1" toy_event 2
      (omega arith) hook_address hook-Fails hook_answers

md5_unsupported : is_supported md5_signing.algorithm ≡ false
unfolding is_supported cut_prefix trim_space is_empty
md5_unsupported = refl

abbrev sha_signing : CallbackSigning
sha_signing = record { algorithm = "HMAC-SHA256"; secret_ref = " key" }

abbrev request : Request
request = record { url = "https://a.example/hook"; payload = "{}"; signing = none }

request-Arrives : Arrives (sign toy_hmac sha_signing "1700000000" request) sent_message
unfolding Arrives sign trim_space ◌=s◌
request-Arrives = (refl, refl)

signed_accepted_example :
    (verify toy_hmac toy_decode verifier clock sent_message []).1 ≡ accepted toy_event
unfolding new_verifier verifier trim_space is_empty is_blank parse_int out_of_window check_and_mark
    lookup insert ◌=s◌
signed_accepted_example =
    signed_accepted toy_hmac toy_decode verifier sha_signing "1700000000" request sent_message clock
      (pos 1700000000) [] toy_event refl refl refl refl refl refl refl refl refl request-Arrives
