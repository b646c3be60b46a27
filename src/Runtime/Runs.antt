-- ===== src/Runtime/Runs.antt =====
-- internal/expert/runtime/server.go: lists of tasks and the map of pending ones.
use cova.Base.{
  ℕ, suc, ◌≤◌, String, ◌≡◌, refl, false, sym, ap, ◌∙◌, Bool-cases, true, ◌==◌, some, List, [], ◌∷◌,
  ◌⊎◌, inl, inr, Dict, lookup, insert, delete, ◌=s◌, length, arith, if_true, if_false, Option-cases,
}
use mathlib.Core.Path.{subst₂}
use cova.Runtime.Tasks.{Run, cancel_context, taken, taken_or}

module _ {ℓ} {V : Type ℓ} where
  pub length-insert : (k : String) (v : V) (m : Dict V) → length (insert k v m) ≤ suc (length m)
  unfolding insert
  length-insert k v [] = omega arith
  length-insert k v ((j, w) ∷ m) = ground (arith, length-insert k v m)

  pub length-delete : (k : String) (m : Dict V) → length (delete k m) ≤ length m
  unfolding delete
  length-delete k [] = omega arith
  length-delete k ((j, w) ∷ m) = ground (arith, length-delete k m)

  pub length-delete_held :
      (k : String) (v : V) (m : Dict V) → lookup k m ≡ some v → suc (length (delete k m)) ≤ length m
  unfolding delete lookup
  length-delete_held k v [] e = cc e
  length-delete_held k v ((j, w) ∷ m) e = elim (Bool-cases (j =s k)) [
    | inl t ↦ rw t (let le = length-delete k m in omega (arith, le))
    | inr t ↦
        let e' : lookup k m ≡ some v = sym (if_false (j =s k) (some w) (lookup k m) t) ∙ e in
        let le = length-delete_held k v m e' in rw t (omega (arith, le))
  ]

-- Some task of the list is such.
abbrev pub Any : (Run → Type 0) → List Run → Type 0
Any P [] = ⊥
Any P (r ∷ runs) = P r ⊎ Any P runs

pub length-cancel_context : (c : ℕ) (runs : List Run) → length (cancel_context c runs) ≡ length runs
unfolding cancel_context
length-cancel_context c [] = refl
length-cancel_context c (r ∷ runs) = ground (arith, length-cancel_context c runs)

-- What holds of a task before the cancel holds of it, or of its marked form, after.
pub Any-cancel_context :
    (P Q : Run → Type 0) (c : ℕ) (runs : List Run)
    → ((r : Run) → r.context == c ≡ true → P r → Q (record r { canceled = true }))
    → ((r : Run) → r.context == c ≡ false → P r → Q r)
    → Any P runs
    → Any Q (cancel_context c runs)
unfolding cancel_context
Any-cancel_context P Q c [] hit miss h = h
Any-cancel_context P Q c (r ∷ runs) hit miss (inl p) = elim (Bool-cases (r.context == c)) [
  | inl t ↦ rw t (inl (hit r t p))
  | inr t ↦ rw t (inl (miss r t p))
]
Any-cancel_context P Q c (r ∷ runs) hit miss (inr h) =
    let ih = Any-cancel_context P Q c runs hit miss h in
    elim (Bool-cases (r.context == c)) [ inl t ↦ rw t (inr ih) | inr t ↦ rw t (inr ih) ]

-- A task taken out, with the others.
pub record Splits (P : Run → Type 0) (runs : List Run) (r : Run) (rest : List Run) : Type 0 where
  pub lengths : length runs ≡ suc (length rest)
  pub back : Any P runs → P r ⊎ Any P rest

Splits-cons :
    (P : Run → Type 0) (q : Run) (runs : List Run) (r : Run) (rest : List Run)
    → Splits P runs r rest
    → Splits P (q ∷ runs) r (q ∷ rest)
Splits-cons P q runs r rest s = record {
  lengths = let e = s.lengths in omega (arith, e);
  back = λ h. elim h [
    | inl p ↦ inr (inl p)
    | inr a ↦ elim (s.back a) [ inl p ↦ inl p | inr b ↦ inr (inr b) ]
  ];
}

Splits-head : (P : Run → Type 0) (r : Run) (runs : List Run) → Splits P (r ∷ runs) r runs
Splits-head P r runs = record { lengths = refl; back = λ h. h }

pub taken-Splits :
    (P : Run → Type 0) (c : ℕ) (runs : List Run) (r : Run) (rest : List Run)
    → taken c runs ≡ some (r, rest)
    → Splits P runs r rest
unfolding taken taken_or
taken-Splits P c [] r rest e = cc e
taken-Splits P c (q ∷ runs) r rest e = elim (Bool-cases (q.context == c)) [
  | inl t ↦
      let e' : some (q, runs) ≡ some (r, rest) =
        sym (if_true (q.context == c) (some (q, runs)) (taken_or q (taken c runs)) t) ∙ e in
      let same : q ≡ r = cc e' in
      let others : runs ≡ rest = cc e' in
      subst₂ (λ a b. Splits P (q ∷ runs) a b) same others (Splits-head P q runs)
  | inr f ↦
      let e' : taken_or q (taken c runs) ≡ some (r, rest) =
        sym (if_false (q.context == c) (some (q, runs)) (taken_or q (taken c runs)) f) ∙ e in
      elim (Option-cases (taken c runs)) [
        | inl none_left ↦ cc (sym (ap (taken_or q) none_left) ∙ e')
        | inr ((found, others), held) ↦
            let e'' : some (found, q ∷ others) ≡ some (r, rest) = sym (ap (taken_or q) held) ∙ e' in
            let same : found ≡ r = cc e'' in
            let tail : q ∷ others ≡ rest = cc e'' in
            subst₂ (λ a b. Splits P (q ∷ runs) a b) same tail
              (Splits-cons P q runs found others (taken-Splits P c runs found others held))
      ]
]
