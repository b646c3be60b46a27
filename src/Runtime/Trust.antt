-- ===== src/Runtime/Trust.antt =====
-- internal/expert/runtime/events.go with internal/delivery/webhook/verify.go: a signed post, verified.
use cova.Base.{
  ℕ, String, ◌≡◌, sym, ap, ◌∙◌, false, Option, none, some, Dict, is_empty, is_blank, trim_space,
  format_uint, if_false, ◌+s◌,
}
use cova.Api.{CallbackSigning}
use cova.Webhook.Clock.{ℤ, parse_int, out_of_window}
use cova.Webhook.Guard.{check_and_mark}
use cova.Webhook.Verify.{Event, accepted, Verifier, Message, verify}
use cova.Webhook.Dispatcher.{Request, compute_hmac, sign}
use cova.Webhook.Signed.{Arrives, signed_accepted}
use cova.Runtime.Sink.{HttpEventSink, Post, sign_payload, post_of}

-- The message as the orchestrator reads it.
unfoldable pub Comes : Post → Message → Type 0
Comes p m =
    (m.body ≡ p.body)
    × (p.signing ≡ some (m.headers "X-COVA-Timestamp", m.headers "X-COVA-Signature"))

-- The same post as a dispatcher would sign it.
abbrev twin : HttpEventSink → String → Request
twin sink raw = record { url = sink.url; payload = raw; signing = none }

abbrev shared : HttpEventSink → CallbackSigning
shared sink = record { algorithm = "hmac-sha256"; secret_ref = sink.secret }

Comes-Arrives :
    (mac : String → String → String) (sink : HttpEventSink) (sec : ℕ) (raw : String) (m : Message)
    → is_empty sink.secret ≡ false
    → trim_space sink.secret ≡ sink.secret
    → Comes (post_of mac sink sec raw) m
    → Arrives (sign (compute_hmac mac) (shared sink) (format_uint sec) (twin sink raw)) m
unfolding Comes Arrives sign post_of compute_hmac sign_payload
Comes-Arrives mac sink sec raw m keyed trimmed c =
    let signed = "sha256=" +s mac sink.secret (format_uint sec +s "." +s raw) in
    (
      c.0,
      ap (λ s. some (format_uint sec, "sha256=" +s mac s (format_uint sec +s "." +s raw))) trimmed
          ∙ sym (if_false (is_empty sink.secret) none (some (format_uint sec, signed)) keyed)
          ∙ c.1,
    )

-- A runtime's sink and a verifier that share a secret agree, for any MAC: what `signPayload` signs for
-- an event's post, `computeHMAC` finds on it, so the post is accepted as it arrives, when the code is a
-- text without spaces around it, the timestamp is one number in the window, the body decodes to an
-- event with an id, and the id has not been seen.
pub posted_accepted :
    (mac : String → String → String) (decode : String → Option Event) (v : Verifier)
    (sink : HttpEventSink) (sec now : ℕ) (stamp : ℤ) (raw : String) (m : Message) (seen : Dict ℕ)
    (event : Event)
    → is_empty sink.secret ≡ false
    → trim_space sink.secret ≡ sink.secret
    → v.secret ≡ sink.secret
    → trim_space (mac sink.secret (format_uint sec +s "." +s raw))
      ≡ mac sink.secret (format_uint sec +s "." +s raw)
    → is_empty (mac sink.secret (format_uint sec +s "." +s raw)) ≡ false
    → trim_space (format_uint sec) ≡ format_uint sec
    → parse_int (format_uint sec) ≡ some stamp
    → out_of_window now stamp v.allowed_skew ≡ false
    → decode raw ≡ some event
    → is_blank event.id ≡ false
    → (check_and_mark (trim_space event.id) now v.replay_ttl seen).1 ≡ false
    → Comes (post_of mac sink sec raw) m
    → (verify (compute_hmac mac) decode v now m seen).1 ≡ accepted event
unfolding compute_hmac
posted_accepted mac decode v sink sec now stamp raw m seen event keyed trimmed same code filled
      plain parsed inside decoded named unseen comes =
    let message : String = format_uint sec +s "." +s raw in
    signed_accepted (compute_hmac mac) decode v (shared sink) (format_uint sec) (twin sink raw) m
      now stamp seen event (same ∙ sym trimmed)
      (ap (λ s. trim_space (mac s message)) trimmed ∙ code ∙ sym (ap (λ s. mac s message) trimmed))
      (ap (λ s. is_empty (mac s message)) trimmed ∙ filled) plain parsed inside decoded named unseen
      (Comes-Arrives mac sink sec raw m keyed trimmed comes)
