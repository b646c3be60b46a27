-- ===== src/Base/Text.antt =====
-- What the program uses of Go's `strings`: `TrimSpace` and comparison, over the native `String`.
use Prim.Native.Char.{Char, code}
use Prim.Native.String.{String, ◌++◌}
use mathlib.Core.Path.{◌≡◌, refl, subst}
use mathlib.Core.Logic.{◌↔◌, inl, inr}
use mathlib.Core.Bool.{Bool, true, false, not, ◌&&◌, ◌||◌}
use text.Mathlib.Text.{◌==◌ as str_eq}
use text.Mathlib.TextEquality.{eq_iff}
use text.Mathlib.TextPositions.{eq_refl}
use text.Mathlib.TextLemmas.{cons≢nil, nil-append, cons-append}
use native.Mathlib.Omega.{arith}
use cova.Base.Tests.{leb, ◌==◌, if◌then◌else◌, Bool-cases}

infix 50 ◌=s◌
-- Go's `==` on strings.
unfoldable pub ◌=s◌ : String → String → Bool
s =s t = str_eq s t

pub =s_iff : (s t : String) → ((s =s t) ≡ true) ↔ (s ≡ t)
unfolding ◌=s◌
=s_iff s t = eq_iff s t

pub =s_refl : (s : String) → (s =s s) ≡ true
unfolding ◌=s◌
=s_refl s = eq_refl s

-- `unicode.IsSpace`
unfoldable pub is_space : Char → Bool
is_space c =
    let n = code c in
    (leb 9 n && leb n 13)
    || n == 32
    || n == 0x85
    || n == 0xa0
    || n == 0x1680
    || (leb 0x2000 n && leb n 0x200a)
    || n == 0x2028
    || n == 0x2029
    || n == 0x202f
    || n == 0x205f
    || n == 0x3000

unfoldable pub trim_left : String → String
trim_left String.[] = String.[]
trim_left (String.◌∷◌ c s) = let rest = trim_left s in if is_space c then rest else String.◌∷◌ c s

-- Drops `c` if it is a space with nothing behind it.
unfoldable pub trim_end : Char → String → String
trim_end c String.[] = if is_space c then String.[] else String.◌∷◌ c String.[]
trim_end c (String.◌∷◌ d s) = String.◌∷◌ c (String.◌∷◌ d s)

unfoldable pub trim_right : String → String
trim_right String.[] = String.[]
trim_right (String.◌∷◌ c s) = trim_end c (trim_right s)

-- `strings.TrimSpace`
unfoldable pub trim_space : String → String
unfolding trim_left trim_right trim_end is_space
trim_space s = trim_right (trim_left s)

unfoldable pub is_empty : String → Bool
is_empty String.[] = true
is_empty (String.◌∷◌ c s) = false

-- `strings.TrimSpace(s) == ""`
unfoldable pub is_blank : String → Bool
unfolding trim_space is_empty
is_blank s = is_empty (trim_space s)

pub is_empty_iff : (s : String) → (is_empty s ≡ true) ↔ (s ≡ "")
unfolding is_empty
is_empty_iff String.[] = (λ e. refl, λ e. refl)
is_empty_iff (String.◌∷◌ c s) = (λ e. cc, λ e. absurd (cons≢nil e))

trim_right-trim_end :
    (c : Char) (s : String) → trim_right s ≡ s → trim_right (trim_end c s) ≡ trim_end c s
unfolding trim_end
trim_right-trim_end c String.[] h = elim (Bool-cases (is_space c)) [
  | inl e ↦ rw e (unfold trim_right in refl)
  | inr e ↦ rw e (unfold trim_right trim_end in rw e)
]
trim_right-trim_end c (String.◌∷◌ d s) h = unfold trim_right in rw h

trim_right_idem : (s : String) → trim_right (trim_right s) ≡ trim_right s
unfolding trim_right
trim_right_idem String.[] = refl
trim_right_idem (String.◌∷◌ c s) = trim_right-trim_end c (trim_right s) (trim_right_idem s)

trim_left-trim_end :
    (c : Char) (s : String) → is_space c ≡ false → trim_left (trim_end c s) ≡ trim_end c s
unfolding trim_left trim_end
trim_left-trim_end c String.[] e = rw (e, trim_left) (rw e)
trim_left-trim_end c (String.◌∷◌ d s) e = rw e

-- A text that starts with a character other than a space keeps it.
trim_left-trim_right :
    (s : String) → trim_left (trim_right (trim_left s)) ≡ trim_right (trim_left s)
unfolding trim_left
trim_left-trim_right String.[] = unfold trim_right in refl
trim_left-trim_right (String.◌∷◌ c s) = elim (Bool-cases (is_space c)) [
  | inl e ↦ rw e (trim_left-trim_right s)
  | inr e ↦ rw (e, trim_left) (unfold trim_right in trim_left-trim_end c (trim_right s) e)
]

-- `TrimSpace` twice is `TrimSpace`.
pub trim_space_idem : (s : String) → trim_space (trim_space s) ≡ trim_space s
unfolding trim_space
trim_space_idem s = rw (trim_left-trim_right s) (trim_right_idem (trim_left s))

trim_space_test : trim_space " \t a b \n" ≡ "a b"
unfolding trim_space
trim_space_test = refl

unfoldable pub all_solid : String → Bool
all_solid String.[] = true
all_solid (String.◌∷◌ c s) = not (is_space c) && all_solid s

trim_right-cons :
    (c : Char) (s : String)
    → is_space c ≡ false
    → trim_right s ≡ s
    → trim_right (String.◌∷◌ c s) ≡ String.◌∷◌ c s
unfolding trim_right trim_end
trim_right-cons c String.[] h e = rw h
trim_right-cons c (String.◌∷◌ d s) h e = rw e refl

-- A text without spaces at its end keeps them out behind a prefix without spaces.
trim_right-append :
    (p s : String) → all_solid p ≡ true → trim_right s ≡ s → trim_right (p ++ s) ≡ p ++ s
unfolding all_solid
trim_right-append String.[] s h e = rw (nil-append s) e
trim_right-append (String.◌∷◌ c p) s h e =
    rw (cons-append c p s)
      (trim_right-cons c (p ++ s) (ground arith) (trim_right-append p s (ground arith) e))

-- A text that is trimmed has no spaces at its end.
trim_right_trimmed : (s : String) → trim_space s ≡ s → trim_right s ≡ s
unfolding trim_space
trim_right_trimmed s e = subst (λ t. trim_right t ≡ t) e (trim_right_idem (trim_left s))

-- A prefix that starts without a space keeps a trimmed text trimmed.
pub trim_space-append :
    (c : Char) (p s : String)
    → all_solid (String.◌∷◌ c p) ≡ true
    → trim_space s ≡ s
    → trim_space (String.◌∷◌ c p ++ s) ≡ String.◌∷◌ c p ++ s
unfolding trim_space all_solid
trim_space-append c p s h e =
    let solid : is_space c ≡ false = ground arith in
    let kept = trim_right-append (String.◌∷◌ c p) s h (trim_right_trimmed s e) in
    rw (cons-append c p s) (unfold trim_left in rw solid (rw (cons-append c p s) at kept))
