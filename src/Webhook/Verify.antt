-- ===== src/Webhook/Verify.antt =====
-- internal/delivery/webhook/verify.go: `NewVerifier` and `Verify`. A state of the guard goes in and
-- comes out. `hmac` is `computeHMAC` (crypto/hmac over SHA-256), `decode` is `json.Unmarshal` of an
-- event, and the headers answer `Get`.
use cova.Base.{
  ℕ, zero, suc, ◌*◌, String, Bool, true, false, Option, none, some, List, [], ◌∷◌, Dict,
  if◌then◌else◌, ◌=s◌, is_empty, is_blank, trim_space,
}
use cova.Base.Fold.{cut_prefix}
use cova.Webhook.Clock.{ℤ, parse_int, out_of_window}
use cova.Webhook.Guard.{check_and_mark, default_replay_ttl}

pub record Event : Type 0 where
  pub spec_version : String
  pub id : String
  pub event_type : String
  pub source : String
  pub time : String
  pub data_content_type : String
  pub data_text : String

pub data VerifyError : Type 0 where
  missing_timestamp : VerifyError
  missing_signature : VerifyError
  timestamp_out_of_window : VerifyError
  invalid_signature_shape : VerifyError
  invalid_signature : VerifyError
  invalid_event_payload : VerifyError
  missing_event_id : VerifyError
  replay_detected : VerifyError

pub data Verdict : Type 0 where
  accepted : Event → Verdict
  refused : VerifyError → Verdict

pub record Verifier : Type 0 where
  pub secret : String
  pub allowed_skew : ℕ
  pub replay_ttl : ℕ

pub data VerifyOption : Type 0 where
  with_allowed_skew : ℕ → VerifyOption
  with_replay_ttl : ℕ → VerifyOption

unfoldable pub apply_option : VerifyOption → Verifier → Verifier
apply_option (with_allowed_skew zero) v = v
apply_option (with_allowed_skew (suc d)) v = record v { allowed_skew = suc d }
apply_option (with_replay_ttl zero) v = v
apply_option (with_replay_ttl (suc d)) v = record v { replay_ttl = suc d }

unfoldable pub apply_options : List VerifyOption → Verifier → Verifier
unfolding apply_option
apply_options [] v = v
apply_options (o ∷ options) v = apply_options options (apply_option o v)

unfoldable pub new_verifier : String → List VerifyOption → Verifier
unfolding apply_options
new_verifier secret options = apply_options options (record {
  secret = trim_space secret;
  allowed_skew = 5 * 60 * 1000000000;
  replay_ttl = default_replay_ttl;
})

unfoldable pub signature_text : Option String → Option String
signature_text none = none
signature_text (some raw) = if is_blank raw then none else some (trim_space raw)

unfoldable pub parse_signature_header : String → Option String
unfolding cut_prefix signature_text
parse_signature_header raw = signature_text (cut_prefix "sha256=" raw)

pub record Message : Type 0 where
  pub headers : String → String
  pub body : String

unfoldable pub timestamp : Message → String
timestamp m = trim_space (m.headers "X-COVA-Timestamp")

unfoldable pub signature : Message → String
signature m = trim_space (m.headers "X-COVA-Signature")

module _ (hmac : String → String → String → String) (decode : String → Option Event) where
  -- The signature header against the one computed; no error is `none`.
  unfoldable pub check_signature : Verifier → Message → Option String → Option VerifyError
  unfolding timestamp
  check_signature v m none = some invalid_signature_shape
  check_signature v m (some raw) =
      if raw =s hmac v.secret (timestamp m) m.body then none else some invalid_signature

  unfoldable pub check_time : Verifier → ℕ → Message → Option ℤ → Option VerifyError
  unfolding check_signature signature parse_signature_header
  check_time v now m none = some timestamp_out_of_window
  check_time v now m (some sec) =
      if out_of_window now sec v.allowed_skew
      then some timestamp_out_of_window
      else check_signature v m (parse_signature_header (signature m))

  -- The checks before the body is read.
  unfoldable pub authenticate : Verifier → ℕ → Message → Option VerifyError
  unfolding check_time timestamp signature
  authenticate v now m =
      if is_empty (timestamp m)
      then some missing_timestamp
      else if is_empty (signature m)
      then some missing_signature
      else check_time v now m (parse_int (timestamp m))

  unfoldable pub marked : Event → Dict ℕ × Bool → Dict ℕ × Verdict
  marked event (seen, true) = (seen, refused replay_detected)
  marked event (seen, false) = (seen, accepted event)

  unfoldable pub admit :
      Verifier → ℕ → Dict ℕ → Option VerifyError → Option Event → Dict ℕ × Verdict
  unfolding marked
  admit v now seen (some e) event = (seen, refused e)
  admit v now seen none none = (seen, refused invalid_event_payload)
  admit v now seen none (some event) =
      if is_blank event.id
      then (seen, refused missing_event_id)
      else marked event (check_and_mark (trim_space event.id) now v.replay_ttl seen)

  unfoldable pub verify : Verifier → ℕ → Message → Dict ℕ → Dict ℕ × Verdict
  unfolding authenticate admit
  verify v now m seen = admit v now seen (authenticate v now m) (decode m.body)

  -- Messages verified one after the other, each at its time.
  unfoldable pub verify_all : Verifier → List (ℕ × Message) → Dict ℕ → Dict ℕ
  verify_all v [] seen = seen
  verify_all v ((now, m) ∷ later) seen = verify_all v later (verify v now m seen).0
