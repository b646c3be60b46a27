-- ===== src/Base/Decimal.antt =====
-- `strconv.FormatUint(n, 10)`.
use Prim.Native.Nat.{ℕ, zero, suc, ◌+◌, ◌*◌, ◌-◌, ◌/◌, ◌%◌, ◌<◌}
use Prim.Native.Char.{code}
use Prim.Native.String.{String, ◌++◌}
use mathlib.Core.Path.{◌≡◌, refl, sym, ap, ◌∙◌}
use mathlib.Core.Logic.{inl, inr}
use text.Mathlib.TextLemmas.{nil-append, cons-append}
use native.Mathlib.Omega.{arith}
use cova.Base.Tests.{ltb, if◌then◌else◌, Bool-cases}

digit : ℕ → String
digit zero = "0"
digit (suc zero) = "1"
digit (suc (suc zero)) = "2"
digit (suc (suc (suc zero))) = "3"
digit (suc (suc (suc (suc zero)))) = "4"
digit (suc (suc (suc (suc (suc zero))))) = "5"
digit (suc (suc (suc (suc (suc (suc zero)))))) = "6"
digit (suc (suc (suc (suc (suc (suc (suc zero))))))) = "7"
digit (suc (suc (suc (suc (suc (suc (suc (suc zero)))))))) = "8"
digit _ = "9"

-- The digits of `n`; `fuel` bounds their number.
format_fuel : ℕ → ℕ → String
unfolding digit
format_fuel zero n = ""
format_fuel (suc fuel) n =
    let more = format_fuel fuel (n / 10) ++ digit (n % 10) in if ltb n 10 then digit n else more

unfoldable pub format_uint : ℕ → String
unfolding format_fuel
format_uint n = format_fuel (suc n) n

-- The number that a text of digits stands for, read from the left after `acc`.
value : ℕ → String → ℕ
value acc String.[] = acc
value acc (String.◌∷◌ c s) = value (acc * 10 + (code c - 48)) s

value-digit : (acc d : ℕ) → d < 10 → value acc (digit d) ≡ acc * 10 + d
unfolding value digit
value-digit acc zero h = refl
value-digit acc (suc zero) h = refl
value-digit acc (suc (suc zero)) h = refl
value-digit acc (suc (suc (suc zero))) h = refl
value-digit acc (suc (suc (suc (suc zero)))) h = refl
value-digit acc (suc (suc (suc (suc (suc zero))))) h = refl
value-digit acc (suc (suc (suc (suc (suc (suc zero)))))) h = refl
value-digit acc (suc (suc (suc (suc (suc (suc (suc zero))))))) h = refl
value-digit acc (suc (suc (suc (suc (suc (suc (suc (suc zero)))))))) h = refl
value-digit acc (suc (suc (suc (suc (suc (suc (suc (suc (suc zero))))))))) h = refl
value-digit acc (suc (suc (suc (suc (suc (suc (suc (suc (suc (suc n)))))))))) h =
    absurd (omega arith)

value-append : (acc : ℕ) (s t : String) → value acc (s ++ t) ≡ value (value acc s) t
unfolding value
value-append acc String.[] t = rw (nil-append t)
value-append acc (String.◌∷◌ c s) t =
    rw (cons-append c s t) (value-append (acc * 10 + (code c - 48)) s t)

value-format_fuel : (fuel n : ℕ) → n < fuel → value 0 (format_fuel fuel n) ≡ n
unfolding format_fuel
value-format_fuel zero n h = elim h [ ]
value-format_fuel (suc fuel) n h = elim (Bool-cases (ltb n 10)) [
  | inl small ↦ rw small (value-digit 0 n (ground arith) ∙ omega arith)
  | inr large ↦
      rw (large, value-append 0 (format_fuel fuel (n / 10)), value-digit _ (n % 10) (omega arith))
        (let ih = value-format_fuel fuel (n / 10) (ground arith) in omega (arith, ih))
]

-- Two numbers with one decimal form are equal.
pub format_uint_injective : (m n : ℕ) → format_uint m ≡ format_uint n → m ≡ n
unfolding format_uint
format_uint_injective m n e =
    sym (value-format_fuel (suc m) m (omega arith))
    ∙ ap (value 0) e
    ∙ value-format_fuel (suc n) n (omega arith)

format_uint_test : format_uint 1207 ≡ "1207"
unfolding format_uint
format_uint_test = refl
