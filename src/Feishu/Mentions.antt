-- ===== src/Feishu/Mentions.antt =====
-- The loop of `cleanMention` in internal/channel/feishu/feishu.go ends.
use Prim.Native.Char.{Char, code}
use cova.Base.{
  ℕ, zero, suc, ◌+◌, ◌≤◌, ◌<◌, String, ◌≡◌, refl, sym, subst, Bool, Bool-cases, true, false, Option,
  Option-cases, none, some, inl, inr, if◌then◌else◌, ◌==◌, arith,
}
use cova.Base.Bytes.{after_prefix}
use cova.Feishu.{is_digit, drop_digits, cut_here, cut_mention, mention_loop, chars}

drop_digits-shorter : (s : String) → chars (drop_digits s) ≤ chars s
unfolding drop_digits chars
drop_digits-shorter String.[] = omega arith
drop_digits-shorter (String.◌∷◌ c s) = elim (Bool-cases (is_digit c)) [
  | inl e ↦ rw e (omega (arith, drop_digits-shorter s))
  | inr e ↦ rw e (unfold chars in omega arith)
]

none_of :
    {A : Type 0} (b : Bool) (o : Option A) (a : A) → (if b then o else none) ≡ some a → o ≡ some a
none_of true o a e = e
none_of false o a e = cc e

after_prefix-chars : (p s r : String) → after_prefix p s ≡ some r → chars s ≡ chars p + chars r
unfolding after_prefix chars
after_prefix-chars String.[] s r e = let same : s ≡ r = cc e in rw same (omega arith)
after_prefix-chars (String.◌∷◌ d p) String.[] r e = cc e
after_prefix-chars (String.◌∷◌ d p) (String.◌∷◌ c s) r e =
    omega (arith, after_prefix-chars p s r (none_of (code c == code d) _ r e))

-- The case of a text that starts with a mention, and that of one that does not.
cut_here-shorter :
    (c : Char) (s t : String) (found later : Option String)
    → ((r : String) → found ≡ some r → chars r ≤ chars s)
    → ((r : String) → later ≡ some r → chars r < chars s)
    → cut_here c found later ≡ some t
    → chars t < suc (chars s)
unfolding cut_here chars
cut_here-shorter c s t (some rest) later f g e =
    let same : drop_digits rest ≡ t = cc e in
    rw⁻¹ same (omega (arith, drop_digits-shorter rest, f rest refl))
cut_here-shorter c s t none none f g e = cc e
cut_here-shorter c s t none (some r) f g e =
    let same : String.◌∷◌ c r ≡ t = cc e in rw⁻¹ same (unfold chars in omega (arith, g r refl))

mention_length :
    (c : Char) (s r : String) → after_prefix "@_user_" (String.◌∷◌ c s) ≡ some r → chars r ≤ chars s
unfolding chars
mention_length c s r e = omega (arith, after_prefix-chars "@_user_" (String.◌∷◌ c s) r e)

cut_mention-shorter : (s t : String) → cut_mention s ≡ some t → chars t < chars s
unfolding cut_mention chars
cut_mention-shorter String.[] t e = cc e
cut_mention-shorter (String.◌∷◌ c s) t e =
    cut_here-shorter c s t _ (cut_mention s) (λ r f. mention_length c s r f)
      (λ r f. cut_mention-shorter s r f) e

-- With as many rounds as the text has characters, or more, the loop leaves no mention.
mention_loop_free : (n : ℕ) (s : String) → chars s ≤ n → cut_mention (mention_loop n s) ≡ none
unfolding mention_loop
mention_loop_free zero String.[] le = unfold cut_mention in refl
mention_loop_free zero (String.◌∷◌ c s) le = absurd (unfold chars in omega (arith, le))
mention_loop_free (suc n) s le = elim (Option-cases (cut_mention s)) [
  | inl e ↦
      subst
        (λ (o : Option String).
          cut_mention (elim o [ none ↦ s | some t ↦ mention_loop n t ]) ≡ none)
        (sym e) e
  | inr (t, e) ↦
      subst
        (λ (o : Option String).
          cut_mention (elim o [ none ↦ s | some t ↦ mention_loop n t ]) ≡ none)
        (sym e) (mention_loop_free n t (omega (arith, cut_mention-shorter s t e, le)))
]

-- More rounds than the text has characters change nothing.
mention_loop_steady :
    (n m : ℕ) (s : String) → chars s ≤ n → chars s ≤ m → mention_loop n s ≡ mention_loop m s
unfolding mention_loop chars cut_mention
mention_loop_steady zero zero s le more = refl
mention_loop_steady zero (suc m) String.[] le more = refl
mention_loop_steady zero (suc m) (String.◌∷◌ c s) le more = absurd (omega (arith, le))
mention_loop_steady (suc n) zero String.[] le more = refl
mention_loop_steady (suc n) zero (String.◌∷◌ c s) le more = absurd (omega (arith, more))
mention_loop_steady (suc n) (suc m) s le more =
    again (λ t a b. mention_loop_steady n m t a b) (cut_mention s) refl
  where
    again :
        ((t : String) → chars t ≤ n → chars t ≤ m → mention_loop n t ≡ mention_loop m t)
        → (o : Option String) → cut_mention s ≡ o
        → elim o as (λ x. String) [ none ↦ s | some t ↦ mention_loop n t ]
          ≡ elim o as (λ x. String) [ none ↦ s | some t ↦ mention_loop m t ]
    again ih none e = refl
    again ih (some t) e =
        let shorter = cut_mention-shorter s t e in ih t (omega arith) (omega arith)

-- The loop ends within as many rounds as the text has characters: then no mention is left, and further
-- rounds change nothing.
pub clean_mention_ends :
    (n : ℕ) (s : String)
    → chars s ≤ n
    → (cut_mention (mention_loop n s) ≡ none) × (mention_loop n s ≡ mention_loop (chars s) s)
clean_mention_ends n s le =
    (mention_loop_free n s le, mention_loop_steady n (chars s) s le (omega arith))
