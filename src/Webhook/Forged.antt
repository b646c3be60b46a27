-- ===== src/Webhook/Forged.antt =====
-- What the checks of `Verify`, internal/delivery/webhook/verify.go, keep out, and a gap of the window.
use cova.Base.{
  ℕ, zero, suc, ◌+◌, ◌-◌, ◌*◌, ◌^◌, ◌<◌, ◌≤◌, String, ◌≡◌, ◌≢◌, refl, ◌∙◌, ap, Bool, true, false,
  Option, none, some, [], Dict, lookup, insert, ltb, leb, inl, inr, Bool-cases, ◌=s◌, =s_iff, arith,
  trim_space, is_blank, is_empty,
}
use cova.Webhook.Clock.{
  ℤ, pos, negsuc, second, parse_int, out_of_window, since, saturate, elapsed, abs_duration, exceeds,
  negate,
}
use cova.Webhook.Guard.{sweep, mark, check_and_mark, given_ttl}
use cova.Webhook.Verify.{
  Event, VerifyError, accepted, refused, Verifier, Message, timestamp, signature, authenticate,
  verify, invalid_signature, invalid_signature_shape, missing_timestamp, missing_signature,
  timestamp_out_of_window, admit, marked, check_time, check_signature, parse_signature_header,
}
use cova.Webhook.Replay.{verify-Passed}

far_negated : (d : ℕ) → 2 ^ 63 ≤ d → abs_duration (saturate (negate d)) ≡ negsuc (2 ^ 63 - 1)
unfolding negate saturate abs_duration
far_negated zero h = absurd (omega arith)
far_negated (suc d) h = elim (Bool-cases (ltb d (2 ^ 63))) [
  | inl small ↦
      let last : leb (2 ^ 63) (d + 1) ≡ true = ground arith in
      rw (small, last) (ap negsuc (ground arith))
  | inr large ↦ rw large
]

-- A time 2 ^ 63 nanoseconds ahead or more is in every window.
pub far_in_window :
    (now n skew : ℕ)
    → now + 2 ^ 63 ≤ n * second
    → n + 62135596800 < 2 ^ 63
    → out_of_window now (pos n) skew ≡ false
unfolding out_of_window since elapsed exceeds
far_in_window now n skew far fits =
    let fitting : leb (2 ^ 63) (n + 62135596800) ≡ false = ground arith in
    let future : leb (n * second) now ≡ false = ground arith in
    rw (fitting, future, far_negated (n * second - now) (omega arith)) refl

-- An empty guard that has marked an id forgets it when its time has come.
forgets :
    (k : String) (first again ttl : ℕ)
    → 1 ≤ ttl
    → first + ttl ≤ again
    → (check_and_mark k again ttl (check_and_mark k first ttl []).0).1 ≡ false
unfolding check_and_mark mark given_ttl sweep lookup insert
forgets k first again zero h late = absurd (omega arith)
forgets k first again (suc ttl) h late =
    let past : ltb again (first + suc ttl) ≡ false = ground arith in rw past

module _ (hmac : String → String → String → String) (decode : String → Option Event) where
  -- The answer of the checks is "no error" only for the right signature.
  unsigned_fails :
      (v : Verifier) (m : Message) (o : Option String)
      → o ≢ some (hmac v.secret (timestamp m) m.body)
      → (e : VerifyError) × (check_signature hmac decode v m o ≡ some e)
  unfolding check_signature
  unsigned_fails v m none h = (invalid_signature_shape, refl)
  unsigned_fails v m (some raw) h = elim (Bool-cases (raw =s hmac v.secret (timestamp m) m.body)) [
    | inl e ↦ absurd (h (ap some ((=s_iff raw _).0 e)))
    | inr e ↦ (invalid_signature, rw e)
  ]

  untimely_fails :
      (v : Verifier) (now : ℕ) (m : Message) (o : Option ℤ)
      → parse_signature_header (signature m) ≢ some (hmac v.secret (timestamp m) m.body)
      → (e : VerifyError) × (check_time hmac decode v now m o ≡ some e)
  unfolding check_time
  untimely_fails v now m none h = (timestamp_out_of_window, refl)
  untimely_fails v now m (some sec) h = elim (Bool-cases (out_of_window now sec v.allowed_skew)) [
    | inl outside ↦ (timestamp_out_of_window, rw outside)
    | inr inside ↦
        let f = unsigned_fails v m (parse_signature_header (signature m)) h in (f.0, rw inside f.1)
  ]

  unauthentic :
      (v : Verifier) (now : ℕ) (m : Message)
      → parse_signature_header (signature m) ≢ some (hmac v.secret (timestamp m) m.body)
      → (e : VerifyError) × (authenticate hmac decode v now m ≡ some e)
  unfolding authenticate
  unauthentic v now m h = elim (Bool-cases (is_empty (timestamp m))) [
    | inl missing ↦ (missing_timestamp, rw missing)
    | inr given ↦ elim (Bool-cases (is_empty (signature m))) [
      | inl missing ↦ (missing_signature, rw (given, missing))
      | inr signed ↦
          let f = untimely_fails v now m (parse_int (timestamp m)) h in
          (f.0, rw (given, signed) f.1)
    ]
  ]

  -- A message whose signature is not the code of its timestamp and body under the secret is refused,
  -- and leaves the replay guard as it was.
  pub forged_harmless :
      (v : Verifier) (now : ℕ) (m : Message) (seen : Dict ℕ)
      → parse_signature_header (signature m) ≢ some (hmac v.secret (timestamp m) m.body)
      → (e : VerifyError) × (verify hmac decode v now m seen ≡ (seen, refused e))
  unfolding verify admit
  forged_harmless v now m seen h = let f = unauthentic v now m h in (f.0, rw f.1)

  timely :
      (v : Verifier) (now again : ℕ) (m : Message) (sec : ℤ)
      → parse_int (timestamp m) ≡ some sec
      → out_of_window now sec v.allowed_skew ≡ false
      → out_of_window again sec v.allowed_skew ≡ false
      → authenticate hmac decode v again m ≡ authenticate hmac decode v now m
  unfolding authenticate check_time
  timely v now again m sec parsed inside inside' = rw (parsed, inside, inside')

  marked_unseen :
      (event : Event) (c : Dict ℕ × Bool)
      → c.1 ≡ false
      → (marked hmac decode event c).1 ≡ accepted event
  unfolding marked
  marked_unseen event (seen, true) h = cc h
  marked_unseen event (seen, false) h = refl

  -- A message that meets every check is accepted.
  pub passes :
      (v : Verifier) (now : ℕ) (m : Message) (event : Event) (seen : Dict ℕ)
      → authenticate hmac decode v now m ≡ none
      → decode m.body ≡ some event
      → is_blank event.id ≡ false
      → (check_and_mark (trim_space event.id) now v.replay_ttl seen).1 ≡ false
      → (verify hmac decode v now m seen).1 ≡ accepted event
  unfolding verify admit
  passes v now m event seen checks decoded named unseen =
      rw (checks, decoded, named) (marked_unseen event _ unseen)

  -- A message with a timestamp 2 ^ 63 nanoseconds ahead or more, and not among the last 62135596800
  -- seconds that 64 bits count, accepted first by a new verifier, is accepted again once the time to
  -- live, which is not 0, has passed.
  pub far_message_replayed :
      (v : Verifier) (m : Message) (n first again : ℕ) (event : Event)
      → 1 ≤ v.replay_ttl
      → parse_int (timestamp m) ≡ some (pos n)
      → n + 62135596800 < 2 ^ 63
      → first + v.replay_ttl ≤ again
      → again + 2 ^ 63 ≤ n * second
      → (verify hmac decode v first m []).1 ≡ accepted event
      → (verify hmac decode v again m (verify hmac decode v first m []).0).1 ≡ accepted event
  far_message_replayed v m n first again event ttl parsed fits late far ok =
      let p = verify-Passed hmac decode v first m [] event ok in
      let t =
        timely v first again m (pos n) parsed
          (far_in_window first n v.allowed_skew (omega arith) fits)
          (far_in_window again n v.allowed_skew far fits) in
      passes v again m event _ (t ∙ p.checks) p.decoded p.named
        (rw p.recorded (forgets (trim_space event.id) first again v.replay_ttl ttl late))
