-- ===== src/Webhook/Window.antt =====
-- The window of timestamps that `Verify` of internal/delivery/webhook/verify.go accepts.
use cova.Base.{
  ℕ, zero, suc, ◌+◌, ◌-◌, ◌*◌, ◌^◌, ◌<◌, ◌≤◌, ◌≡◌, refl, ap, true, false, ltb, leb, inl, inr,
  Bool-cases, arith,
}
use cova.Webhook.Clock.{
  pos, second, out_of_window, since, saturate, elapsed, abs_duration, exceeds, negate,
}

negated : (d : ℕ) → d < 2 ^ 63 → abs_duration (saturate (negate d)) ≡ pos d
unfolding negate saturate abs_duration
negated zero h = refl
negated (suc d) h =
    let small : ltb d (2 ^ 63) ≡ true = ground arith in
    let inside : leb (2 ^ 63) (d + 1) ≡ false = ground arith in
    rw (small, inside) (ap pos (omega arith))

-- A time at or before the clock that passes is at most the skew behind.
behind :
    (d skew : ℕ)
    → skew < 2 ^ 63 - 1
    → exceeds (abs_duration (saturate (pos d))) skew ≡ false
    → d ≤ skew
unfolding exceeds abs_duration saturate
behind d skew bound e = ground arith

-- A timestamp before the year 2262 is in the window only near the clock.
pub window_bounds :
    (now n skew : ℕ)
    → n * second < 2 ^ 63
    → skew < 2 ^ 63 - 1
    → out_of_window now (pos n) skew ≡ false
    → (now ≤ n * second + skew) × (n * second ≤ now + skew)
unfolding out_of_window since elapsed
window_bounds now n skew small bound e =
    let early : leb (2 ^ 63) (n + 62135596800) ≡ false = ground arith in
    elim (Bool-cases (leb (n * second) now)) [
      | inl past ↦
          let d = behind (now - n * second) skew bound (rw (early, past) at e) in
          (omega (arith, d), ground arith)
      | inr future ↦
          let ahead = n * second - now in
          let f = rw (early, future, negated ahead (omega arith)) at e in
          let near : ahead ≤ skew = unfold exceeds in ground arith in
          (ground arith, omega (arith, near))
    ]
