-- ===== src/Base/Split.antt =====
-- Paths in `strings.Split` and `strings.Trim`.
use Prim.Native.Nat.{ℕ}
use Prim.Native.Char.{Char, code}
use Prim.Native.String.{String, ◌++◌ as ◌+s◌}
use text.Mathlib.TextLemmas.{nil-append, cons-append, append_assoc}
use mathlib.Core.Path.{◌≡◌, refl, sym, ap, ◌∙◌}
use mathlib.Core.Logic.{inl, inr}
use mathlib.Core.Bool.{Bool, true, false, not, ◌&&◌}
use mathlib.Core.List.{[], ◌∷◌}
use cova.Base.Tests.{◌==◌, Bool-cases}
use cova.Base.Text.{is_empty}
use cova.Base.Bytes.{split, grow, cut_right, cut_end, cut_left, trim_byte}

-- The text does not hold the byte.
unfoldable pub lacks : ℕ → String → Bool
lacks sep String.[] = true
lacks sep (String.◌∷◌ c s) = not (code c == sep) && lacks sep s

pub split-plain : (sep : ℕ) (p : String) → lacks sep p ≡ true → split sep p ≡ p ∷ []
unfolding split lacks grow
split-plain sep String.[] h = refl
split-plain sep (String.◌∷◌ c p) h = elim (Bool-cases (code c == sep)) [
  | inl e ↦ cc (h, ap (λ b. not b && lacks sep p) e)
  | inr e ↦
      let ih = split-plain sep p (sym (ap (λ b. not b && lacks sep p) e) ∙ h) in rw (e, ih) refl
]

pub split-at :
    (sep : ℕ) (p : String) (c : Char) (s : String)
    → lacks sep p ≡ true
    → code c == sep ≡ true
    → split sep (p +s String.◌∷◌ c s) ≡ p ∷ split sep s
unfolding split lacks grow
split-at sep String.[] c s h e = rw (nil-append (String.◌∷◌ c s), e) refl
split-at sep (String.◌∷◌ d p) c s h e = elim (Bool-cases (code d == sep)) [
  | inl f ↦ cc (h, ap (λ b. not b && lacks sep p) f)
  | inr f ↦
      let ih = split-at sep p c s (sym (ap (λ b. not b && lacks sep p) f) ∙ h) e in
      rw (cons-append d p (String.◌∷◌ c s), f, ih) refl
]

pub cut_end-filled :
    (sep : ℕ) (c : Char) (s : String) → is_empty s ≡ false → cut_end sep c s ≡ String.◌∷◌ c s
unfolding cut_end is_empty
cut_end-filled sep c String.[] h = cc h
cut_end-filled sep c (String.◌∷◌ d s) h = refl

pub filled-append : (p s : String) → is_empty s ≡ false → is_empty (p +s s) ≡ false
unfolding is_empty
filled-append String.[] s h = rw (nil-append s) h
filled-append (String.◌∷◌ c p) s h = rw (cons-append c p s) refl

-- What is cut off the end of a text is cut off whatever stands before it, if more is left.
pub cut_right-append :
    (sep : ℕ) (p s : String)
    → cut_right sep s ≡ s
    → is_empty s ≡ false
    → cut_right sep (p +s s) ≡ p +s s
unfolding cut_right
cut_right-append sep String.[] s h f = rw (nil-append s) h
cut_right-append sep (String.◌∷◌ c p) s h f =
    rw (cons-append c p s, cut_right-append sep p s h f)
      (cut_end-filled sep c (p +s s) (filled-append p s f))

-- A text without the byte has none at its end.
pub cut_right-plain : (sep : ℕ) (s : String) → lacks sep s ≡ true → cut_right sep s ≡ s
unfolding cut_right lacks cut_end
cut_right-plain sep String.[] h = refl
cut_right-plain sep (String.◌∷◌ c s) h = elim (Bool-cases (code c == sep)) [
  | inl e ↦ cc (h, ap (λ b. not b && lacks sep s) e)
  | inr e ↦ rw (cut_right-plain sep s (sym (ap (λ b. not b && lacks sep s) e) ∙ h)) (kept sep c s e)
]
  where
    kept :
        (sep : ℕ) (c : Char) (s : String) → code c == sep ≡ false → cut_end sep c s ≡ String.◌∷◌ c s
    kept sep c String.[] e = rw e refl
    kept sep c (String.◌∷◌ d s) e = refl

pub split-part :
    (sep : ℕ) (p : String) (c : Char) (q s : String)
    → lacks sep p ≡ true
    → code c == sep ≡ true
    → split sep ((p +s String.◌∷◌ c q) +s s) ≡ p ∷ split sep (q +s s)
split-part sep p c q s h e =
    rw (append_assoc p (String.◌∷◌ c q) s, cons-append c q s) (split-at sep p c (q +s s) h e)

-- `strings.Trim` of a text that starts with one of the bytes and does not end with it.
pub trim_byte-append :
    (sep : ℕ) (c d : Char) (p s : String)
    → code c == sep ≡ true
    → code d == sep ≡ false
    → cut_right sep s ≡ s
    → is_empty s ≡ false
    → trim_byte sep (String.◌∷◌ c (String.◌∷◌ d p) +s s) ≡ String.◌∷◌ d p +s s
unfolding trim_byte cut_left
trim_byte-append sep c d p s e f h g =
    rw (cons-append c (String.◌∷◌ d p) s, cons-append d p s, e, f)
      (sym (ap (cut_right sep) (cons-append d p s))
        ∙ (cut_right-append sep (String.◌∷◌ d p) s h g ∙ cons-append d p s))
