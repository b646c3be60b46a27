-- ===== src/Base/Bytes.antt =====
-- More of Go's `strings`: the length in bytes of UTF-8, `Fields`, `Split` at a byte, `Trim` of one,
-- prefixes and suffixes.
use Prim.Native.Nat.{ℕ, suc, ◌+◌}
use Prim.Native.Char.{Char, code}
use Prim.Native.String.{String, ◌++◌ as ◌+s◌}
use mathlib.Core.Bool.{Bool, true, false, not}
use text.Mathlib.TextLemmas.{nil-append, cons-append}
use mathlib.Core.Path.{◌≡◌, refl, ap, ◌∙◌}
use mathlib.Core.Logic.{inl, inr}
use mathlib.Core.Option.{Option, none, some}
use native.Mathlib.Omega.{arith}
use mathlib.Core.List.{List, [], ◌∷◌}
use cova.Base.Tests.{ltb, ◌==◌, if◌then◌else◌, map_option, Bool-cases}
use cova.Base.Text.{is_space, ◌=s◌, =s_iff, =s_refl}

unfoldable pub char_bytes : Char → ℕ
char_bytes c =
    if ltb (code c) 0x80
    then 1
    else if ltb (code c) 0x800
    then 2
    else if ltb (code c) 0x10000
    then 3
    else 4

-- `len(s)`
unfoldable pub byte_length : String → ℕ
unfolding char_bytes
byte_length String.[] = 0
byte_length (String.◌∷◌ c s) = char_bytes c + byte_length s

unfoldable pub starts_word : String → Bool
starts_word String.[] = false
starts_word (String.◌∷◌ c s) = not (is_space c)

-- Puts `c` before the first word if it touches it.
unfoldable pub join_word : Char → Bool → List String → List String
join_word c true (w ∷ ws) = String.◌∷◌ c w ∷ ws
join_word c true [] = String.◌∷◌ c String.[] ∷ []
join_word c false ws = String.◌∷◌ c String.[] ∷ ws

-- `strings.Fields`
unfoldable pub fields : String → List String
unfolding starts_word join_word is_space
fields String.[] = []
fields (String.◌∷◌ c s) =
    let rest = fields s in if is_space c then rest else join_word c (starts_word s) rest

-- Puts `c` before the first part.
unfoldable pub grow : Char → List String → List String
grow c [] = String.◌∷◌ c String.[] ∷ []
grow c (w ∷ ws) = String.◌∷◌ c w ∷ ws

-- `strings.Split(s, sep)` for the separator with code `sep`.
unfoldable pub split : ℕ → String → List String
unfolding grow
split sep String.[] = String.[] ∷ []
split sep (String.◌∷◌ c s) =
    let rest = split sep s in if code c == sep then String.[] ∷ rest else grow c rest

unfoldable pub cut_left : ℕ → String → String
cut_left sep String.[] = String.[]
cut_left sep (String.◌∷◌ c s) =
    let rest = cut_left sep s in if code c == sep then rest else String.◌∷◌ c s

unfoldable pub cut_end : ℕ → Char → String → String
cut_end sep c String.[] = if code c == sep then String.[] else String.◌∷◌ c String.[]
cut_end sep c (String.◌∷◌ d s) = String.◌∷◌ c (String.◌∷◌ d s)

unfoldable pub cut_right : ℕ → String → String
unfolding cut_end
cut_right sep String.[] = String.[]
cut_right sep (String.◌∷◌ c s) = cut_end sep c (cut_right sep s)

-- `strings.Trim(s, sep)`
unfoldable pub trim_byte : ℕ → String → String
unfolding cut_left cut_right
trim_byte sep s = cut_right sep (cut_left sep s)

-- `strings.HasPrefix` with `strings.TrimPrefix`: what follows the prefix.
unfoldable pub after_prefix : String → String → Option String
after_prefix String.[] s = some s
after_prefix (String.◌∷◌ p prefix) String.[] = none
after_prefix (String.◌∷◌ p prefix) (String.◌∷◌ c s) =
    let rest = after_prefix prefix s in if code c == code p then rest else none

-- `strings.HasSuffix` with `strings.TrimSuffix`: what stands before the suffix.
unfoldable pub before_suffix : String → String → Option String
before_suffix suffix String.[] = if suffix =s String.[] then some String.[] else none
before_suffix suffix (String.◌∷◌ c s) =
    let rest = before_suffix suffix s in
    if suffix =s String.◌∷◌ c s then some String.[] else map_option (String.◌∷◌ c) rest

unfoldable pub value_or : String → Option String → String
value_or s none = s
value_or s (some t) = t

pub after_prefix-append : (p s : String) → after_prefix p (p +s s) ≡ some s
unfolding after_prefix
after_prefix-append String.[] s = rw (nil-append s) refl
after_prefix-append (String.◌∷◌ c p) s =
    rw (cons-append c p s) (let ih = after_prefix-append p s in ground arith)

-- The length in characters.
chars : String → ℕ
chars String.[] = 0
chars (String.◌∷◌ c s) = suc (chars s)

chars-append : (s t : String) → chars (s +s t) ≡ chars s + chars t
unfolding chars
chars-append String.[] t = rw (nil-append t) (omega arith)
chars-append (String.◌∷◌ c s) t = rw (cons-append c s t) (omega (arith, chars-append s t))

no_longer : (m n : ℕ) → n ≡ suc (m + n) → ⊥
no_longer m n e = omega (arith, e)

longer : (c : Char) (s t : String) → (t =s String.◌∷◌ c (s +s t)) ≡ false
unfolding chars
longer c s t = elim (Bool-cases (t =s String.◌∷◌ c (s +s t))) [
  | inl e ↦
      let same = ap chars ((=s_iff t (String.◌∷◌ c (s +s t))).0 e) in
      let n = chars-append s t in elim (no_longer (chars s) (chars t) (same ∙ ap suc n)) [ ]
  | inr e ↦ e
]

before_suffix_self : (s : String) → before_suffix s s ≡ some String.[]
unfolding before_suffix
before_suffix_self String.[] = rw (=s_refl String.[]) refl
before_suffix_self (String.◌∷◌ c s) = rw (=s_refl (String.◌∷◌ c s)) refl

pub before_suffix-append : (s t : String) → before_suffix t (s +s t) ≡ some s
unfolding before_suffix
before_suffix-append String.[] t = rw (nil-append t) (before_suffix_self t)
before_suffix-append (String.◌∷◌ c s) t =
    rw (cons-append c s t, longer c s t, before_suffix-append s t) refl
