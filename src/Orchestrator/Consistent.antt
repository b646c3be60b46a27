-- ===== src/Orchestrator/Consistent.antt =====
-- The maps of internal/orchestrator/server.go agree with one another, whatever is done to them.
use cova.Base.{
  ℕ, ◌+◌, ◌%◌, ◌^◌, ◌≤◌, ◌<◌, String, Option, List, [], ◌∷◌, length, ◌≡◌, refl, ◌∙◌, ◌⊎◌, Dict, sym,
  subst, ap, some, lookup, insert, delete, arith, Entries, Has, Entries-insert, Entries-delete,
  Has-insert, lookup-insert_self,
}
use cova.Api.{SubmitBriefRequest}
use cova.Orchestrator.System.{System, Action, step, run}
use cova.Orchestrator.Refine.Machine.{step-Moves}
use cova.Orchestrator.Types.{Job, Server, IdempotencyRecord}
use cova.Orchestrator.Rules.{clone_callback_config}
use cova.Orchestrator.Submit.{job_name}
use cova.Orchestrator.Change.{
  Actor, Change, same, update, after, Moves, changes, creates, Attempts, DeadLetters, Fresh, Fixed,
  Evolves, Letters, kept, dropped, added, Recalls, unkeyed, noted,
}

-- The id was given out by the counter.
abbrev pub Numbered : ℕ → String → Type 0
Numbered next_id id = (n : ℕ) × (n ≤ next_id) × (id ≡ job_name n)

pub record IsConsistent (s : Server) : Type 0 where
  pub keyed : Entries (λ id j. j.id ≡ id) s.jobs
  pub numbered : Entries (λ id j. Numbered s.next_id id) s.jobs
  pub attempts : Entries (λ id j. Attempts j) s.jobs
  pub cloned : Entries (λ id j. clone_callback_config j.callback ≡ j.callback) s.jobs
  pub dead : Entries (λ id d. Has id s.jobs) s.dlq
  pub remembered : Entries (λ k r. Has r.job_id s.jobs) s.idem
  pub positive : 1 ≤ s.max_attempts

-- The keys that are there stay when the jobs get an entry.
Has-stays :
    (jobs new : Dict Job) (id : String) (j : Job)
    → new ≡ insert id j jobs
    → (i : String) → Has i jobs
    → Has i new
Has-stays jobs new id j e i h = subst (Has i) (sym e) (Has-insert id i j jobs h)

Has-new : (jobs new : Dict Job) (id : String) (j : Job) → new ≡ insert id j jobs → Has id new
Has-new jobs new id j e = (j, rw e (lookup-insert_self id j jobs))

-- Dead letters stay those of known jobs.
Letters-dead :
    {id : String} (jobs : Dict Job) {old new : DeadLetters}
    → Letters id old new
    → Has id jobs
    → Entries (λ i d. Has i jobs) old
    → Entries (λ i d. Has i jobs) new
Letters-dead jobs (kept q) h all = rw q all
Letters-dead {id} jobs {old} (dropped q) h all = rw q (Entries-delete _ id old all)
Letters-dead {id} jobs {old} (added d q) h all = rw q (Entries-insert _ id d old h all)

Recalls-remembered :
    {id : String} (jobs : Dict Job) {old new : Dict IdempotencyRecord}
    → Recalls id old new
    → Has id jobs
    → Entries (λ k r. Has r.job_id jobs) old
    → Entries (λ k r. Has r.job_id jobs) new
Recalls-remembered jobs (unkeyed q) h all = rw q all
Recalls-remembered jobs {old} (noted k r e f q) h all = rw q (Entries-insert _ k r old (rw e h) all)

module _ (s t : Server) (v : IsConsistent s) where
  update-IsConsistent :
      {w : Actor} (id k : String) (j j' : Job)
      → lookup id s.jobs ≡ some j
      → Evolves w j j'
      → t.jobs ≡ insert id j' s.jobs
      → (k ≡ id) ⊎ (k ≡ j.id)
      → Letters k s.dlq t.dlq
      → Fixed s t
      → IsConsistent t
  update-IsConsistent id k j j' e ev q at l f =
      let stay = Has-stays s.jobs t.jobs id j' q in
      let here : k ≡ id = ground (arith, v.keyed id j e) in
      record {
        keyed =
            rw q (Entries-insert _ id j' s.jobs (ap (λ o. o.id) ev.about ∙ v.keyed id j e) v.keyed);
        numbered = rw (q, f.next_id) (Entries-insert _ id j' s.jobs (v.numbered id j e) v.numbered);
        attempts =
            rw q (Entries-insert _ id j' s.jobs (ev.attempts (v.attempts id j e)) v.attempts);
        cloned =
            let same_callback : j'.callback ≡ j.callback = ap (λ o. o.callback) ev.about in
            rw q (Entries-insert _ id j' s.jobs (rw same_callback (v.cloned id j e)) v.cloned);
        dead =
            Letters-dead t.jobs l (rw here (Has-new s.jobs t.jobs id j' q))
              (λ i d x. stay i (v.dead i d x));
        remembered = rw f.idem (λ i r x. stay r.job_id (v.remembered i r x));
        positive = rw f.max_attempts v.positive;
      }

  create-IsConsistent :
      (j : Job)
      → s.next_id + 1 < 2 ^ 64
      → j.id ≡ job_name ((s.next_id + 1) % 2 ^ 64)
      → t.next_id ≡ (s.next_id + 1) % 2 ^ 64
      → Fresh j s
      → t.jobs ≡ insert j.id j s.jobs
      → t.dlq ≡ delete j.id s.dlq
      → Recalls j.id s.idem t.idem
      → t.max_attempts ≡ s.max_attempts
      → IsConsistent t
  create-IsConsistent j room named next fresh q dead recalls most =
      let stay = Has-stays s.jobs t.jobs j.id j q in
      let next_id : t.next_id ≡ s.next_id + 1 = omega arith in
      record {
        keyed = rw q (Entries-insert _ j.id j s.jobs refl v.keyed);
        numbered = rw q (
            Entries-insert _ j.id j s.jobs (t.next_id, omega arith, rw next named)
              (λ i k x. let (n, le, is) = v.numbered i k x in (n, omega arith, is)));
        attempts =
            let new : Attempts j = ground (arith, v.positive) in
            rw q (Entries-insert _ j.id j s.jobs new v.attempts);
        cloned = rw q (Entries-insert _ j.id j s.jobs fresh.callback v.cloned);
        dead = rw dead (Entries-delete _ j.id s.dlq (λ i d x. stay i (v.dead i d x)));
        remembered =
            Recalls-remembered t.jobs recalls (Has-new s.jobs t.jobs j.id j q)
              (λ i r x. stay r.job_id (v.remembered i r x));
        positive = rw most v.positive;
      }

pub Change-IsConsistent :
    {w : Actor} {s t : Server}
    → Change w s t
    → IsConsistent s
    → IsConsistent t × (t.next_id ≡ s.next_id)
Change-IsConsistent (same jobs dlq f) v = (
  record {
    keyed = rw jobs v.keyed;
    numbered = rw (jobs, f.next_id) v.numbered;
    attempts = rw jobs v.attempts;
    cloned = rw jobs v.cloned;
    dead = rw (jobs, dlq) v.dead;
    remembered = rw (jobs, f.idem) v.remembered;
    positive = rw f.max_attempts v.positive;
  },
  f.next_id,
)
Change-IsConsistent {s} {t} (update id k j j' e w q at l f) v =
    (update-IsConsistent s t v id k j j' e w q at l f, f.next_id)
Change-IsConsistent (after c d) v =
    let (u, m) = Change-IsConsistent c v in let (w, n) = Change-IsConsistent d u in (w, n ∙ m)

pub Moves-IsConsistent :
    {w : Actor} {s t : Server}
    → Moves w s t
    → s.next_id + 1 < 2 ^ 64
    → IsConsistent s
    → IsConsistent t × (t.next_id ≤ s.next_id + 1)
Moves-IsConsistent (changes c) room v = let (w, n) = Change-IsConsistent c v in (w, omega arith)
Moves-IsConsistent {s} {t} (creates j named next fresh q dead recalls most) room v =
    (create-IsConsistent s t v j room named next fresh q dead recalls most, omega arith)

module _ (hash_request : SubmitBriefRequest → Option String) where
  -- Whatever sequence of actions the server goes through, as long as its 64-bit counter has room for
  -- them, its maps stay consistent: each job is stored under its own id, which the counter gave out,
  -- its attempts lie between 1 and their maximum, and every dead letter and every idempotency record
  -- names a job that is there.
  pub run-IsConsistent :
      (y : System) (acts : List Action)
      → y.server.next_id + length acts < 2 ^ 64
      → IsConsistent y.server
      → IsConsistent (run hash_request y acts).server
  unfolding run
  run-IsConsistent y [] room v = v
  run-IsConsistent y (a ∷ acts) room v =
      let (w, n) = Moves-IsConsistent (step-Moves hash_request y a) (omega arith) v in
      run-IsConsistent (step hash_request y a) acts (omega arith) w
