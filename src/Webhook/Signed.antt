-- ===== src/Webhook/Signed.antt =====
-- internal/delivery/webhook: a request as `tryOnce` signs it, read by `Verify`.
use Prim.Native.Char.{code as code_of}
use text.Mathlib.TextLemmas.{nil-append, cons-append}
use cova.Base.{
  ◌&&◌, ◌==◌, ℕ, String, ◌+s◌, ◌≡◌, refl, sym, ◌∙◌, ap, Bool, true, false, Option, none, some, Dict,
  if◌then◌else◌, inl, inr, ◌=s◌, =s_refl, trim_space, is_empty, is_blank, is_empty_iff, all_solid,
  trim_space-append, trim_space_idem, arith,
}
use cova.Api.{CallbackSigning}
use cova.Webhook.Clock.{ℤ, parse_int, out_of_window}
use cova.Webhook.Guard.{check_and_mark}
use cova.Base.Fold.{lower, cut_prefix}
use cova.Webhook.Verify.{
  Event, accepted, Verifier, Message, timestamp, signature, authenticate, verify, check_time,
  check_signature, parse_signature_header, signature_text,
}
use cova.Webhook.Forged.{passes}
use cova.Webhook.Dispatcher.{Request, sign}

-- The message as the receiver reads it.
unfoldable pub Arrives : Request → Message → Type 0
Arrives r m =
    (m.body ≡ r.payload)
    × (r.signing ≡ some (m.headers "X-COVA-Timestamp", m.headers "X-COVA-Signature"))

trim_signature :
    (code : String) → trim_space code ≡ code → trim_space ("sha256=" +s code) ≡ "sha256=" +s code
unfolding all_solid cova.Base.Text.is_space
trim_signature code e = trim_space-append "s" "ha256=" code refl e

all_lower : String → Bool
unfolding lower
all_lower String.[] = true
all_lower (String.◌∷◌ c p) = lower c == code_of c && all_lower p

cut_prefix-append : (p s : String) → all_lower p ≡ true → cut_prefix p (p +s s) ≡ some s
unfolding cut_prefix all_lower
cut_prefix-append String.[] s h = rw (nil-append s) refl
cut_prefix-append (String.◌∷◌ c p) s h =
    rw (cons-append c p s) (let ih = cut_prefix-append p s (ground arith) in ground arith)

parse_signature :
    (code : String)
    → trim_space code ≡ code
    → is_empty code ≡ false
    → parse_signature_header ("sha256=" +s code) ≡ some code
unfolding parse_signature_header signature_text is_blank all_lower lower
parse_signature code e f =
    rw (cut_prefix-append "sha256=" code refl, signature_text) (rw (e, f) refl)

parsed-filled : (ts : String) (sec : ℤ) → parse_int ts ≡ some sec → is_empty ts ≡ false
unfolding parse_int is_empty
parsed-filled String.[] sec e = cc e
parsed-filled (String.◌∷◌ c s) sec e = refl

signature-filled : (code : String) → is_empty ("sha256=" +s code) ≡ false
unfolding is_empty
signature-filled code = rw (cons-append "s" "ha256=" code) refl

module _ (hmac : String → String → String → String) (decode : String → Option Event) (v : Verifier)
    (signing : CallbackSigning) (ts : String) (r : Request) (m : Message) where
  abbrev code : String
  code = hmac (trim_space signing.secret_ref) ts r.payload

  arrived_timestamp : Arrives (sign hmac signing ts r) m → m.headers "X-COVA-Timestamp" ≡ ts
  unfolding Arrives sign
  arrived_timestamp a = cc a.1

  arrived_signature :
      Arrives (sign hmac signing ts r) m → m.headers "X-COVA-Signature" ≡ "sha256=" +s code
  unfolding Arrives sign
  arrived_signature a = cc a.1

  arrived_body : Arrives (sign hmac signing ts r) m → m.body ≡ r.payload
  unfolding Arrives sign
  arrived_body a = a.0

  authentic :
      (now : ℕ) (sec : ℤ)
      → timestamp m ≡ ts
      → signature m ≡ "sha256=" +s code
      → m.body ≡ r.payload
      → v.secret ≡ trim_space signing.secret_ref
      → trim_space code ≡ code
      → is_empty code ≡ false
      → parse_int ts ≡ some sec
      → out_of_window now sec v.allowed_skew ≡ false
      → authenticate hmac decode v now m ≡ none
  unfolding authenticate check_time check_signature
  authentic now sec stamp signed body secret trimmed filled parsed inside =
      rw
        (
          stamp,
          parsed-filled ts sec parsed,
          signed,
          signature-filled code,
          parsed,
          inside,
          signed,
          parse_signature code trimmed filled,
          stamp,
          body,
          secret,
          =s_refl code,
        )
        refl

  -- A request that the dispatcher signs with the verifier's secret is accepted as it arrives: when the
  -- code and the timestamp have no spaces around them, the timestamp is in the window, the payload
  -- decodes to an event with an id, and the id has not been seen.
  pub signed_accepted :
      (now : ℕ) (sec : ℤ) (seen : Dict ℕ) (event : Event)
      → v.secret ≡ trim_space signing.secret_ref
      → trim_space code ≡ code
      → is_empty code ≡ false
      → trim_space ts ≡ ts
      → parse_int ts ≡ some sec
      → out_of_window now sec v.allowed_skew ≡ false
      → decode r.payload ≡ some event
      → is_blank event.id ≡ false
      → (check_and_mark (trim_space event.id) now v.replay_ttl seen).1 ≡ false
      → Arrives (sign hmac signing ts r) m
      → (verify hmac decode v now m seen).1 ≡ accepted event
  signed_accepted now sec seen event secret trimmed filled stamp parsed inside decoded named unseen
        a =
      passes hmac decode v now m event seen
        (authentic now sec (unfold timestamp in rw (arrived_timestamp a) stamp)
          (unfold signature in rw (arrived_signature a) (trim_signature code trimmed))
          (arrived_body a) secret trimmed filled parsed inside)
        (rw (arrived_body a) decoded) named unseen
