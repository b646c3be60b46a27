-- ===== src/Webhook/Clock.antt =====
-- Timestamps of internal/delivery/webhook/verify.go: `parseUnixTimestamp`, `absDuration`, and what
-- they use of Go's `strconv.ParseInt` and `time`. The clock is a number of nanoseconds since 1970.
use Prim.Native.Char.{code}
use cova.Base.{
  ℕ, zero, suc, ◌+◌, ◌-◌, ◌*◌, ◌^◌, String, ◌≡◌, refl, Bool, false, ◌&&◌, Option, none, some, ltb,
  leb, ◌==◌, if◌then◌else◌, is_empty,
}

pub data ℤ : Type 0 where
  pos : ℕ → ℤ
  negsuc : ℕ → ℤ

unfoldable pub negate : ℕ → ℤ
negate zero = pos 0
negate (suc n) = negsuc n

unfoldable pub parse_digits : ℕ → String → Option ℕ
parse_digits acc String.[] = some acc
parse_digits acc (String.◌∷◌ c s) =
    let rest = parse_digits (acc * 10 + (code c - 48)) s in
    if leb 48 (code c) && leb (code c) 57 then rest else none

unfoldable pub magnitude : String → Option ℕ
unfolding parse_digits
magnitude s = if is_empty s then none else parse_digits 0 s

unfoldable pub positive : Option ℕ → Option ℤ
positive none = none
positive (some n) = if ltb n (2 ^ 63) then some (pos n) else none

unfoldable pub negative : Option ℕ → Option ℤ
unfolding negate
negative none = none
negative (some n) = if leb n (2 ^ 63) then some (negate n) else none

-- `strconv.ParseInt(s, 10, 64)`
unfoldable pub parse_int : String → Option ℤ
unfolding magnitude positive negative
parse_int String.[] = none
parse_int (String.◌∷◌ c s) =
    if code c == 45
    then negative (magnitude s)
    else if code c == 43
    then positive (magnitude s)
    else positive (magnitude (String.◌∷◌ c s))

abbrev pub second : ℕ
second = 1000000000

-- A difference of times as a `time.Duration`, which stops at the ends of 64 bits.
unfoldable pub saturate : ℤ → ℤ
saturate (pos d) = if ltb d (2 ^ 63) then pos d else pos (2 ^ 63 - 1)
saturate (negsuc d) = if ltb d (2 ^ 63) then negsuc d else negsuc (2 ^ 63 - 1)

-- The nanoseconds from a time given in seconds to `now`. `time.Unix` counts seconds from year 1 in
-- 64 bits, so that the last 62135596800 values stand for times long past.
unfoldable pub elapsed : ℕ → ℤ → ℤ
unfolding negate
elapsed now (negsuc n) = pos (now + (n + 1) * second)
elapsed now (pos n) =
    if leb (2 ^ 63) (n + 62135596800)
    then pos (now + (2 ^ 64 - n) * second)
    else if leb (n * second) now
    then pos (now - n * second)
    else negate (n * second - now)

-- `now.Sub(eventTime)`
unfoldable pub since : ℕ → ℤ → ℤ
unfolding saturate elapsed
since now sec = saturate (elapsed now sec)

-- `absDuration`: in 64 bits the negation of the least number is that number.
unfoldable pub abs_duration : ℤ → ℤ
abs_duration (pos d) = pos d
abs_duration (negsuc d) = if leb (2 ^ 63) (d + 1) then negsuc d else pos (d + 1)

-- `d > limit`
unfoldable pub exceeds : ℤ → ℕ → Bool
exceeds (pos d) limit = ltb limit d
exceeds (negsuc d) limit = false

-- The test of the window in `Verify`.
unfoldable pub out_of_window : ℕ → ℤ → ℕ → Bool
unfolding since abs_duration exceeds
out_of_window now sec skew = exceeds (abs_duration (since now sec)) skew

parse_int_test : parse_int "-1700000000" ≡ some (negsuc 1699999999)
unfolding parse_int is_empty
parse_int_test = refl
