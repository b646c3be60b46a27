-- ===== src/Webhook/Marks.antt =====
-- internal/delivery/webhook/verify.go: how long `InMemoryReplayGuard` keeps an id.
use cova.Base.{
  ℕ, zero, suc, ◌+◌, ◌<◌, ◌≤◌, String, ◌≡◌, refl, true, false, Option, none, some, [], ◌∷◌, Dict,
  lookup, ltb, inl, inr, Bool-cases, ◌=s◌, =s_iff, arith, lookup-insert, lookup-insert_self,
}
use cova.Webhook.Guard.{sweep, mark, check_and_mark, given_ttl}

lookup-sweep :
    (now id : ℕ) (k : String) (seen : Dict ℕ)
    → lookup k seen ≡ some id
    → now < id
    → lookup k (sweep now seen) ≡ some id
unfolding sweep lookup
lookup-sweep now id k [] e h = e
lookup-sweep now id k ((j, w) ∷ seen) e h = ground (arith, lookup-sweep now id k seen)

mark_keeps :
    (k i : String) (now until ttl : ℕ) (seen : Dict ℕ) (o : Option ℕ)
    → lookup i seen ≡ o
    → lookup k seen ≡ some until
    → now < until
    → lookup k (mark i now ttl seen o).0 ≡ some until
unfolding mark
mark_keeps k i now until ttl seen none f e h = elim (Bool-cases (i =s k)) [
  | inl same ↦ absurd (let found : lookup i seen ≡ some until = rw ((=s_iff i k).0 same) e in cc)
  | inr other ↦ rw (lookup-insert i k (now + ttl) seen, other) e
]
mark_keeps k i now until ttl seen (some w) f e h = elim (Bool-cases (ltb now w)) [
  | inl live ↦ rw live e
  | inr past ↦ elim (Bool-cases (i =s k)) [
    | inl same ↦
        absurd (let found : lookup i seen ≡ some until = rw ((=s_iff i k).0 same) e in ground arith)
    | inr other ↦ rw (past, lookup-insert i k (now + ttl) seen, other) e
  ]
]

-- Before its time an entry stays, whatever is checked.
pub check_and_mark_keeps :
    (k i : String) (now until ttl : ℕ) (seen : Dict ℕ)
    → lookup k seen ≡ some until
    → now < until
    → lookup k (check_and_mark i now ttl seen).0 ≡ some until
unfolding check_and_mark
check_and_mark_keeps k i now until ttl seen e h =
    mark_keeps k i now until (given_ttl ttl) (sweep now seen) (lookup i (sweep now seen)) refl
      (lookup-sweep now until k seen e h) h

pub check_and_mark_blocks :
    (k : String) (now until ttl : ℕ) (seen : Dict ℕ)
    → lookup k seen ≡ some until
    → now < until
    → (check_and_mark k now ttl seen).1 ≡ true
unfolding check_and_mark mark
check_and_mark_blocks k now until ttl seen e h =
    let live : ltb now until ≡ true = ground arith in rw (lookup-sweep now until k seen e h, live)

mark_marks :
    (k : String) (now ttl : ℕ) (seen : Dict ℕ) (o : Option ℕ)
    → (mark k now ttl seen o).1 ≡ false
    → lookup k (mark k now ttl seen o).0 ≡ some (now + ttl)
unfolding mark
mark_marks k now ttl seen none e = lookup-insert_self k (now + ttl) seen
mark_marks k now ttl seen (some w) e = elim (Bool-cases (ltb now w)) [
  | inl live ↦ absurd (ground arith)
  | inr past ↦ rw past (lookup-insert_self k (now + ttl) seen)
]

-- An id that passes is marked until its time to live is over.
pub check_and_mark_marks :
    (k : String) (now ttl : ℕ) (seen : Dict ℕ)
    → 1 ≤ ttl
    → (check_and_mark k now ttl seen).1 ≡ false
    → lookup k (check_and_mark k now ttl seen).0 ≡ some (now + ttl)
unfolding check_and_mark given_ttl
check_and_mark_marks k now zero seen h e = absurd (omega arith)
check_and_mark_marks k now (suc ttl) seen h e =
    mark_marks k now (suc ttl) (sweep now seen) (lookup k (sweep now seen)) e
