-- ===== src/Webhook/Attempts.antt =====
-- The loop of `deliver`, internal/delivery/webhook/dispatcher.go, run to its end.
use cova.Base.{
  ℕ, zero, suc, ◌+◌, ◌<◌, ◌≤◌, String, ◌+s◌, ◌≡◌, ◌≢◌, ◌↔◌, refl, sym, ap, true, false, Option,
  none, some, List, [], ◌∷◌, length, inl, inr, Bool-cases, Option-cases, is_blank, trim_space,
  arith,
}
use cova.Api.{CallbackConfig, CallbackSigning}
use cova.Webhook.Verify.{Event}
use cova.Webhook.Dispatcher.{
  Config, World, AttemptError, retryable, non_retryable, DeliveryRecord, Delivered, delivered,
  retry_canceled, failed_after, may_retry, backoff, try_once, is_non_retryable, try_built,
  try_signed, is_supported, rejected,
}
use cova.Webhook.Deliver.{
  Delivery, Outcome, attempt_record, succeeds, noted, slept, after_attempt, attempts, delivery,
  deliver,
}

-- Records that number the attempts from `k` on: all but the last failed and set the time of the next,
-- and the last succeeded just when the event is delivered.
unfoldable pub Told : ℕ → ℕ → List DeliveryRecord → Delivered → Type 0
Told max k [] d = ⊥
Told max k (x ∷ []) d =
    (x.attempt ≡ k) × (x.max_attempts ≡ max) × (k ≤ max) × ((x.success ≡ true) ↔ (d ≡ delivered))
Told max k (x ∷ y ∷ xs) d =
    (x.attempt ≡ k)
    × (x.max_attempts ≡ max)
    × (x.success ≡ false)
    × ((t : ℕ) × (x.next_retry_at ≡ some t))
    × Told max (k + 1) (y ∷ xs) d

may_retry_early :
    (c : Config) (k : ℕ) (o : Option AttemptError) → may_retry c k o ≡ true → k < c.max_attempts
unfolding may_retry
may_retry_early c k none h = cc h
may_retry_early c k (some e) h = ground arith

may_retry_now :
    (c : Config) (k : ℕ) (s : String)
    → k < c.max_attempts
    → may_retry c k (some (retryable s)) ≡ true
unfolding may_retry is_non_retryable
may_retry_now c k s h = ground arith

no_retry : (c : Config) (k : ℕ) (s : String) → may_retry c k (some (non_retryable s)) ≡ false
unfolding may_retry is_non_retryable
no_retry c k s = ground arith

Told-more :
    (max k : ℕ) (x : DeliveryRecord) (o : Outcome) (t : ℕ)
    → x.attempt ≡ k
    → x.max_attempts ≡ max
    → x.success ≡ false
    → x.next_retry_at ≡ some t
    → Told max (k + 1) o.0 o.1
    → Told max k (x ∷ o.0) o.1
unfolding Told
Told-more max k x ([], d) t a m s n h = absurd h
Told-more max k x (y ∷ ys, d) t a m s n h = (a, m, s, (t, n), h)

Told-last :
    (max k : ℕ) (x : DeliveryRecord) (d : Delivered)
    → x.attempt ≡ k
    → x.max_attempts ≡ max
    → k ≤ max
    → x.success ≡ false
    → d ≢ delivered
    → Told max k (x ∷ []) d
unfolding Told
Told-last max k x d a m le s n = (a, m, le, (λ e. absurd (cc), λ e. absurd (n e)))

module _ (hmac : String → String → String → String) (c : Config) (w : World) (j : Delivery) where
  Told-err :
      (k code : ℕ) (o : Option AttemptError) (rest : Outcome)
      → k ≤ c.max_attempts
      → (k < c.max_attempts → Told c.max_attempts (k + 1) rest.0 rest.1)
      → let x = attempt_record c w j k (record { status_code = code; err = o }) in
        let o' = noted x (after_attempt c w k o rest) in Told c.max_attempts k o'.0 o'.1
  unfolding noted after_attempt attempt_record succeeds
  Told-err k code none rest le more = unfold Told in (refl, refl, le, (λ e. refl, λ e. refl))
  Told-err k code (some e) rest le more = elim (Bool-cases (may_retry c k (some e))) [
    | inl retry ↦ elim (Option-cases (w.sleep k (backoff c w k))) [
      | inl rested ↦
          rw (retry, rested, slept)
            (Told-more c.max_attempts k _ rest (w.now k + backoff c w k) refl refl refl refl
              (more (may_retry_early c k (some e) retry)))
      | inr (x, woken) ↦
          rw (retry, woken, slept)
            (Told-last c.max_attempts k _ (retry_canceled x) refl refl le refl (λ h. cc h))
    ]
    | inr stop ↦ rw stop (
        Told-last c.max_attempts k _ (failed_after c.max_attempts (some e)) refl refl le refl
          (λ h. cc h))
  ]

  attempts-Told :
      (left k : ℕ)
      → suc left + k ≡ suc c.max_attempts
      → let o = attempts hmac c w j (suc left) k in Told c.max_attempts k o.0 o.1
  unfolding attempts
  attempts-Told zero k e =
      Told-err k (try_once hmac w k j.callback j.url j.payload).status_code
        (try_once hmac w k j.callback j.url j.payload).err (attempts hmac c w j zero (k + 1))
        (omega arith) (λ h. absurd (omega arith))
  attempts-Told (suc left) k e =
      Told-err k (try_once hmac w k j.callback j.url j.payload).status_code
        (try_once hmac w k j.callback j.url j.payload).err (attempts hmac c w j (suc left) (k + 1))
        (omega arith) (λ h. attempts-Told left (k + 1) (omega arith))

  all-Told :
      (m : ℕ)
      → m ≡ c.max_attempts
      → 1 ≤ m
      → let o = attempts hmac c w j m 1 in Told c.max_attempts 1 o.0 o.1
  all-Told zero e h = absurd (omega arith)
  all-Told (suc left) e h = attempts-Told left 1 (omega arith)

  -- The attempt `k` fails in a way that may be tried again, and the sleep after it ends.
  abbrev pub Fails : ℕ → Type 0
  Fails k =
      ((s : String) × ((try_once hmac w k j.callback j.url j.payload).err ≡ some (retryable s)))
      × (w.sleep k (backoff c w k) ≡ none)

  ok_at :
      (i k : ℕ)
      → i ≡ k
      → (try_once hmac w i j.callback j.url j.payload).err ≡ none
      → (try_once hmac w k j.callback j.url j.payload).err ≡ none
  ok_at i k e ok = rw (sym e) ok

  attempts_reach :
      (n left k : ℕ)
      → suc n ≤ left
      → left + k ≡ suc c.max_attempts
      → ((i : ℕ) → k ≤ i → i < k + n → Fails i)
      → (try_once hmac w (k + n) j.callback j.url j.payload).err ≡ none
      → let o = attempts hmac c w j left k in (o.1 ≡ delivered) × (length o.0 ≡ suc n)
  unfolding attempts noted after_attempt
  attempts_reach n zero k h e fails ok = absurd (omega arith)
  attempts_reach zero (suc left) k h e fails ok =
      let now = ok_at (k + 0) k (omega arith) ok in rw now (refl, refl)
  attempts_reach (suc n) (suc left) k h e fails ok =
      let f = fails k (omega arith) (omega arith) in
      let may = may_retry_now c k f.0.0 (omega arith) in
      let ih =
        attempts_reach n left (k + 1) (omega arith) (omega arith)
          (λ i a b. fails i (omega arith) (omega arith))
          (ok_at (k + suc n) (k + 1 + n) (omega arith) ok) in
      rw (f.0.1, may, f.1, slept) (ih.0, ap suc ih.1)

  stops_at_once :
      (m : ℕ) (s : String)
      → 1 ≤ m
      → (try_once hmac w 1 j.callback j.url j.payload).err ≡ some (non_retryable s)
      → let o = attempts hmac c w j m 1 in
        (length o.0 ≡ 1) × (o.1 ≡ failed_after c.max_attempts (some (non_retryable s)))
  stops_at_once zero s h e = absurd (omega arith)
  stops_at_once (suc left) s h e =
      let never = no_retry c 1 s in
      unfold attempts noted after_attempt in rw (e, never) (refl, refl)

unsupported_error :
    (hmac : String → String → String → String) (w : World) (k : ℕ) (callback : CallbackConfig)
    (url payload : String) (signing : CallbackSigning)
    → w.build k url ≡ none
    → callback.signing ≡ some signing
    → is_supported signing.algorithm ≡ false
    → (try_once hmac w k callback url payload).err
      ≡ some (non_retryable ("unsupported signing algorithm: " +s signing.algorithm))
unfolding try_once try_built try_signed rejected
unsupported_error hmac w k callback url payload signing built signed unsupported =
    rw (built, signed, unsupported) refl

module _ (hmac : String → String → String → String) (encode : Event → String)
    (hash : String → String) (c : Config) (w : World) (callback : CallbackConfig) (job_id : String)
    (event : Event) where
  -- With an address and at least one attempt allowed, the records number the attempts from 1 to at
  -- most the maximum: each but the last failed and names the time of the next, and the last one
  -- succeeded just when `deliver` returns no error.
  pub deliver-Told :
      1 ≤ c.max_attempts
      → is_blank callback.url ≡ false
      → let o = deliver hmac encode hash c w callback job_id event in Told c.max_attempts 1 o.0 o.1
  unfolding deliver
  deliver-Told h address =
      rw address
        (all-Told hmac c w (delivery encode hash callback job_id event) c.max_attempts refl h)

  -- With an address, when the first `n` attempts fail in a way that may be tried again, none of the sleeps is
  -- interrupted, and attempt `n + 1` succeeds within the maximum, the event is delivered, with
  -- `n + 1` records.
  pub deliver_reaches :
      (n : ℕ)
      → n < c.max_attempts
      → is_blank callback.url ≡ false
      → ((i : ℕ)
          → 1 ≤ i
          → i < 1 + n
          → Fails hmac c w (delivery encode hash callback job_id event) i)
      → (try_once hmac w (1 + n) callback (trim_space callback.url) (encode event)).err ≡ none
      → let o = deliver hmac encode hash c w callback job_id event in
        (o.1 ≡ delivered) × (length o.0 ≡ suc n)
  unfolding deliver delivery
  deliver_reaches n h address fails ok = rw address (
      attempts_reach hmac c w (delivery encode hash callback job_id event) n c.max_attempts 1 h
        (omega arith) fails ok)

  -- With an address, at least one attempt allowed and a request that can be built, a signing
  -- algorithm that is not supported ends the delivery after one attempt; the error that `deliver`
  -- returns counts as many attempts as are allowed.
  pub unsupported_reported :
      (signing : CallbackSigning)
      → 1 ≤ c.max_attempts
      → is_blank callback.url ≡ false
      → w.build 1 (trim_space callback.url) ≡ none
      → callback.signing ≡ some signing
      → is_supported signing.algorithm ≡ false
      → let o = deliver hmac encode hash c w callback job_id event in
        (length o.0 ≡ 1) × ((e : AttemptError) × (o.1 ≡ failed_after c.max_attempts (some e)))
  unfolding deliver delivery
  unsupported_reported signing h address built signed unsupported =
      let e =
        unsupported_error hmac w 1 callback (trim_space callback.url) (encode event) signing built
          signed unsupported in
      let o =
        stops_at_once hmac c w (delivery encode hash callback job_id event) c.max_attempts _ h e in
      rw address (o.0, (_, o.1))
