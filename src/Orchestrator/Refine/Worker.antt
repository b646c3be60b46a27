-- ===== src/Orchestrator/Refine/Worker.antt =====
-- The worker's two sections, `processBriefJob` of internal/orchestrator/server.go, as changes.
use cova.Base.{
  ℕ, String, ◌≡◌, refl, inl, inr, false, true, Option, none, some, lookup, arith, ltb, Bool-cases,
}
use cova.Api.{ExpertResult}
use cova.Orchestrator.Types.{Job, Server}
use cova.Orchestrator.Rules.{is_canceled, is_expired, mark_expired}
use cova.Orchestrator.Worker.{
  Outcome, done, async_accepted, execution_failed, started_job, start_found, process_start,
  waiting_job, async_found, noted_job, retried_job, exhausted_job, failed_found, completed_job,
  done_found, finish_found, process_finish,
}
use cova.Orchestrator.Change.{
  worker, stays, overruns, starts, retries, succeeds, fails, Evolves, dropped, added, Change,
  Change-refl,
}
use cova.Orchestrator.Refine.{write, persist-Change, enqueue-Change, put_job-Change}

overrun-Evolves :
    (j : Job) (now : ℕ) → is_canceled j.status ≡ false → Evolves worker j (mark_expired j now)
unfolding mark_expired
overrun-Evolves j now c = record { about = refl; attempts = λ a. a; edge = overruns refl c refl }

start_found-Change :
    (now later : ℕ) (id : String) (s : Server) (o : Option Job)
    → lookup id s.jobs ≡ o
    → Change worker s (start_found now later id s o).0
unfolding start_found
start_found-Change now later id s none e = Change-refl s
start_found-Change now later id s (some j) e = elim (Bool-cases (is_canceled j.status)) [
  | inl c ↦ rw c (Change-refl s)
  | inr c ↦ elim (Bool-cases (is_expired j now)) [
    | inl x ↦ rw (c, x) (put_job-Change s id j _ e (overrun-Evolves j later c))
    | inr x ↦
        rw (c, x)
          (put_job-Change s id j _ e (
            unfold started_job in
            record { about = refl; attempts = λ a. a; edge = starts refl c refl }))
  ]
]

pub process_start-Change :
    (now later : ℕ) (id : String) (s : Server) → Change worker s (process_start now later id s).0
unfolding process_start
process_start-Change now later id s = start_found-Change now later id s (lookup id s.jobs) refl

async_found-Change :
    (now later : ℕ) (id : String) (s : Server) (o : Option Job)
    → lookup id s.jobs ≡ o
    → Change worker s (async_found now later id s o)
unfolding async_found
async_found-Change now later id s none e = Change-refl s
async_found-Change now later id s (some j) e = elim (Bool-cases (is_canceled j.status)) [
  | inl c ↦ rw c (Change-refl s)
  | inr c ↦ elim (Bool-cases (is_expired j now)) [
    | inl x ↦ rw (c, x) (Change-refl s)
    | inr x ↦
        rw (c, x)
          (put_job-Change s id j _ e (
            unfold waiting_job in
            record { about = refl; attempts = λ a. a; edge = starts refl c refl }))
  ]
]

module _ (now : ℕ) (error : String) (j : Job) where
  noted_job-Evolves : Evolves worker j (noted_job now error j)
  unfolding noted_job
  noted_job-Evolves = record { about = refl; attempts = λ a. a; edge = stays refl }

  noted_expired-Evolves :
      is_canceled j.status ≡ false → Evolves worker j (mark_expired (noted_job now error j) now)
  unfolding noted_job mark_expired
  noted_expired-Evolves c = record { about = refl; attempts = λ a. a; edge = overruns refl c refl }

  retried_job-Evolves :
      is_canceled j.status ≡ false
      → ltb j.attempt j.max_attempts ≡ true
      → Evolves worker j (retried_job (noted_job now error j))
  unfolding noted_job retried_job
  retried_job-Evolves c h = record {
    about = refl;
    attempts = λ a. ground arith;
    edge = retries refl c refl;
  }

  exhausted_job-Evolves :
      is_canceled j.status ≡ false → Evolves worker j (exhausted_job (noted_job now error j))
  unfolding noted_job exhausted_job
  exhausted_job-Evolves c = record { about = refl; attempts = λ a. a; edge = fails refl c refl }

failed_found-Change :
    (now : ℕ) (error id : String) (s : Server) (j : Job)
    → lookup id s.jobs ≡ some j
    → Change worker s (failed_found now error id s (noted_job now error j))
unfolding failed_found noted_job
failed_found-Change now error id s j e = elim (Bool-cases (is_canceled j.status)) [
  | inl c ↦ rw c (put_job-Change s id j _ e (noted_job-Evolves now error j))
  | inr c ↦ elim (Bool-cases (is_expired (noted_job now error j) now)) [
    | inl x ↦ rw (c, x) (put_job-Change s id j _ e (noted_expired-Evolves now error j c))
    | inr x ↦ elim (Bool-cases (ltb j.attempt j.max_attempts)) [
      | inl l ↦
          rw (c, x, l)
            (enqueue-Change id (put_job-Change s id j _ e (retried_job-Evolves now error j c l)))
      | inr l ↦
          rw (c, x, l)
            (write _ id id j _ e (exhausted_job-Evolves now error j c) (inl refl) (added _ refl)
              (record { idem = refl; next_id = refl; max_attempts = refl }) refl)
    ]
  ]
]

done_found-Change :
    (now : ℕ) (r : ExpertResult) (id : String) (s : Server) (j : Job)
    → lookup id s.jobs ≡ some j
    → Change worker s (done_found now r id s j).0
unfolding done_found
done_found-Change now r id s j e = elim (Bool-cases (is_canceled j.status)) [
  | inl c ↦ rw c (persist-Change s)
  | inr c ↦ elim (Bool-cases (is_expired j now)) [
    | inl x ↦ rw (c, x) (put_job-Change s id j _ e (overrun-Evolves j now c))
    | inr x ↦
        rw (c, x)
          (write _ id id j _ e
            (unfold completed_job in
              record { about = refl; attempts = λ a. a; edge = succeeds refl c refl })
            (inl refl) (dropped refl) (record { idem = refl; next_id = refl; max_attempts = refl })
            refl)
  ]
]

finish_found-Change :
    (outcome : Outcome) (now later : ℕ) (id : String) (s : Server) (o : Option Job)
    → lookup id s.jobs ≡ o
    → Change worker s (finish_found outcome now later id s o).0
unfolding finish_found
finish_found-Change async_accepted now later id s o e = async_found-Change now later id s o e
finish_found-Change (done r) now later id s none e = Change-refl s
finish_found-Change (done r) now later id s (some j) e = done_found-Change now r id s j e
finish_found-Change (execution_failed error) now later id s none e = Change-refl s
finish_found-Change (execution_failed error) now later id s (some j) e =
    failed_found-Change now error id s j e

pub process_finish-Change :
    (outcome : Outcome) (now later : ℕ) (id : String) (s : Server)
    → Change worker s (process_finish outcome now later id s).0
unfolding process_finish
process_finish-Change outcome now later id s =
    finish_found-Change outcome now later id s (lookup id s.jobs) refl
