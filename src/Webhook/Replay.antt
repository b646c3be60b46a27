-- ===== src/Webhook/Replay.antt =====
-- Runs of `Verify`, internal/delivery/webhook/verify.go.
use cova.Base.{
  ℕ, ◌+◌, ◌-◌, ◌*◌, ◌^◌, ◌<◌, ◌≤◌, String, ◌≡◌, ◌≢◌, refl, Bool, true, false, Option, none, some,
  List, [], ◌∷◌, All, Dict, lookup, inl, inr, Bool-cases, arith, trim_space, is_blank, is_empty,
  subst,
}
use cova.Webhook.Clock.{second, pos, ℤ, parse_int, out_of_window}
use cova.Webhook.Guard.{check_and_mark}
use cova.Webhook.Window.{window_bounds}
use cova.Webhook.Marks.{check_and_mark_keeps, check_and_mark_blocks, check_and_mark_marks}
use cova.Webhook.Verify.{
  Event, VerifyError, accepted, Verifier, Message, timestamp, signature, authenticate, verify,
  verify_all, admit, marked, check_time,
}

module _ (hmac : String → String → String → String) (decode : String → Option Event) where
  -- What has been found when a message is accepted.
  pub record Passed (v : Verifier) (now : ℕ) (m : Message) (seen : Dict ℕ) (event : Event)
      : Type 0 where
    pub checks : authenticate hmac decode v now m ≡ none
    pub decoded : decode m.body ≡ some event
    pub named : is_blank event.id ≡ false
    pub unseen : (check_and_mark (trim_space event.id) now v.replay_ttl seen).1 ≡ false
    pub recorded :
        (verify hmac decode v now m seen).0
        ≡ (check_and_mark (trim_space event.id) now v.replay_ttl seen).0

  marked-accepted :
      (event e : Event) (c : Dict ℕ × Bool)
      → (marked hmac decode event c).1 ≡ accepted e
      → (c.1 ≡ false) × (event ≡ e) × ((marked hmac decode event c).0 ≡ c.0)
  unfolding marked
  marked-accepted event e (seen, true) h = cc h
  marked-accepted event e (seen, false) h = (refl, cc h, refl)

  admit-Passed :
      (v : Verifier) (now : ℕ) (m : Message) (seen : Dict ℕ) (event : Event)
      (a : Option VerifyError) (d : Option Event)
      → authenticate hmac decode v now m ≡ a
      → decode m.body ≡ d
      → (admit hmac decode v now seen a d).1 ≡ accepted event
      → Passed v now m seen event
  unfolding admit
  admit-Passed v now m seen event (some x) d f g h = cc h
  admit-Passed v now m seen event none none f g h = cc h
  admit-Passed v now m seen event none (some e) f g h = elim (Bool-cases (is_blank e.id)) [
    | inl blank ↦ absurd (let no = rw blank at h in cc no)
    | inr id_given ↦
        let c = check_and_mark (trim_space e.id) now v.replay_ttl seen in
        let found = marked-accepted e event c (rw id_given at h) in
        subst (Passed v now m seen) found.1 (record {
          checks = f;
          decoded = g;
          named = id_given;
          unseen = found.0;
          recorded = unfold verify in rw (f, g, id_given) found.2;
        })
  ]

  pub verify-Passed :
      (v : Verifier) (now : ℕ) (m : Message) (seen : Dict ℕ) (event : Event)
      → (verify hmac decode v now m seen).1 ≡ accepted event
      → Passed v now m seen event
  unfolding verify
  verify-Passed v now m seen event h =
      admit-Passed v now m seen event (authenticate hmac decode v now m) (decode m.body) refl refl h

  -- An accepted message was inside the window.
  authentic_window :
      (v : Verifier) (now : ℕ) (m : Message) (sec : ℤ)
      → parse_int (timestamp m) ≡ some sec
      → authenticate hmac decode v now m ≡ none
      → out_of_window now sec v.allowed_skew ≡ false
  unfolding authenticate check_time
  authentic_window v now m sec e h = elim (Bool-cases (is_empty (timestamp m))) [
    | inl missing ↦ absurd (let no = rw missing at h in cc no)
    | inr given ↦ elim (Bool-cases (is_empty (signature m))) [
      | inl missing ↦ absurd (let no = rw (given, missing) at h in cc no)
      | inr signed ↦ elim (Bool-cases (out_of_window now sec v.allowed_skew)) [
        | inl outside ↦ absurd (let no = rw (given, signed, e, outside) at h in cc no)
        | inr inside ↦ inside
      ]
    ]
  ]

  marked_state : (event : Event) (c : Dict ℕ × Bool) → (marked hmac decode event c).0 ≡ c.0
  unfolding marked
  marked_state event (seen, true) = refl
  marked_state event (seen, false) = refl

  admit_keeps :
      (v : Verifier) (k : String) (until now : ℕ) (seen : Dict ℕ) (a : Option VerifyError)
      (d : Option Event)
      → lookup k seen ≡ some until
      → now < until
      → lookup k (admit hmac decode v now seen a d).0 ≡ some until
  unfolding admit
  admit_keeps v k until now seen (some x) d e h = e
  admit_keeps v k until now seen none none e h = e
  admit_keeps v k until now seen none (some event) e h = elim (Bool-cases (is_blank event.id)) [
    | inl blank ↦ rw blank e
    | inr id_given ↦
        let c = check_and_mark (trim_space event.id) now v.replay_ttl seen in
        rw (id_given, marked_state event c)
          (check_and_mark_keeps k (trim_space event.id) now until v.replay_ttl seen e h)
  ]

  All-before :
      (again until : ℕ) (sent : List (ℕ × Message))
      → again < until
      → All (λ d. d.0 ≤ again) sent
      → All (λ d. d.0 < until) sent
  All-before again until [] soon times = tt
  All-before again until ((now, m) ∷ sent) soon times =
      (omega (arith, times.0), All-before again until sent soon times.1)

  -- Until its time an id stays marked, whatever is verified.
  verify_keeps :
      (v : Verifier) (k : String) (until now : ℕ) (m : Message) (seen : Dict ℕ)
      → lookup k seen ≡ some until
      → now < until
      → lookup k (verify hmac decode v now m seen).0 ≡ some until
  unfolding verify
  verify_keeps v k until now m seen e h =
      admit_keeps v k until now seen (authenticate hmac decode v now m) (decode m.body) e h

  verify_all_keeps :
      (v : Verifier) (k : String) (until : ℕ) (sent : List (ℕ × Message)) (seen : Dict ℕ)
      → lookup k seen ≡ some until
      → All (λ d. d.0 < until) sent
      → lookup k (verify_all hmac decode v sent seen) ≡ some until
  unfolding verify_all
  verify_all_keeps v k until [] seen e h = e
  verify_all_keeps v k until ((now, m) ∷ sent) seen e h =
      verify_all_keeps v k until sent (verify hmac decode v now m seen).0
        (verify_keeps v k until now m seen e h.0) h.1

  -- A signed content, that is a body with its timestamp, is accepted once at most: when the time to
  -- live is more than twice the skew, the skew below the largest `Duration`, and the timestamp before
  -- the year 2262, a message with the body and the timestamp of an accepted one is refused, whatever
  -- is verified between them, no later than it.
  pub accepted_once :
      (v : Verifier) (m copy : Message) (n first again : ℕ) (seen : Dict ℕ) (event : Event)
      (between : List (ℕ × Message)) (other : Event)
      → v.allowed_skew + v.allowed_skew < v.replay_ttl
      → v.allowed_skew < 2 ^ 63 - 1
      → parse_int (timestamp m) ≡ some (pos n)
      → n * second < 2 ^ 63
      → copy.body ≡ m.body
      → timestamp copy ≡ timestamp m
      → (verify hmac decode v first m seen).1 ≡ accepted event
      → All (λ d. d.0 ≤ again) between
      → (verify hmac decode v again copy
          (verify_all hmac decode v between (verify hmac decode v first m seen).0)).1
        ≢ accepted other
  accepted_once v m copy n first again seen event between other long bound parsed early same stamp
        ok times once_more =
      let after = (verify hmac decode v first m seen).0 in
      let p = verify-Passed v first m seen event ok in
      let p' =
        verify-Passed v again copy (verify_all hmac decode v between after) other once_more in
      let near =
        window_bounds first n v.allowed_skew early bound
          (authentic_window v first m (pos n) parsed p.checks) in
      let near_again =
        window_bounds again n v.allowed_skew early bound
          (authentic_window v again copy (pos n) (rw stamp parsed) p'.checks) in
      let soon : again < first + v.replay_ttl = omega (arith, near, near_again, long) in
      let mark : lookup (trim_space event.id) after ≡ some (first + v.replay_ttl) = rw p.recorded (
        check_and_mark_marks (trim_space event.id) first v.replay_ttl seen (omega arith)
          p.unseen) in
      let kept =
        verify_all_keeps v (trim_space event.id) (first + v.replay_ttl) between after mark
          (All-before again (first + v.replay_ttl) between soon times) in
      let id : event ≡ other = (let d' = p'.decoded in let d = p.decoded in cc) in
      let blocks =
        check_and_mark_blocks (trim_space event.id) again (first + v.replay_ttl) v.replay_ttl
          (verify_all hmac decode v between after) kept soon in
      let passes = p'.unseen in cc
