-- ===== src/Orchestrator/Retry.antt =====
-- Retries in `processBriefJob`, internal/orchestrator/server.go, run to their end.
use cova.Base.{
  ℕ, zero, suc, ◌+◌, ◌≤◌, String, ◌≡◌, refl, ◌∙◌, ap, true, false, List, [], ◌∷◌, Option, none,
  some, lookup, insert, arith, ltb, if◌then◌else◌, lookup-insert_self,
}
use cova.Api.{SubmitBriefRequest, queued, failed}
use cova.Jobstore
use cova.Orchestrator.Queue
use cova.Orchestrator.Queue.{MemoryQueue}
use cova.Orchestrator.Types.{Job, Server}
use cova.Orchestrator.Rules.{is_canceled, is_expired}
use cova.Orchestrator.Persist.{persist_locked, enqueue}
use cova.Orchestrator.Read.{put_job}
use cova.Orchestrator.Worker.{
  execution_failed, process_start, start_found, started_job, process_finish, finish_found,
  failed_found, noted_job, retried_job, exhausted_job, exhausted_entry,
}
use cova.Orchestrator.System.{System, Action, takes, finishes, take, take_next, finish, step, run}

-- The worker takes the next job and its execution fails; `n` rounds of it.
abbrev pub failing_rounds : String → ℕ → ℕ → List Action
failing_rounds error t zero = []
failing_rounds error t (suc n) =
    takes t t ∷ finishes (execution_failed error) t t ∷ failing_rounds error t n

-- The job waits in the queue, alone, with `k` more attempts after the next; its deadline is not past.
pub record Waiting (id : String) (t k : ℕ) (s : Server) : Type 0 where
  pub job : Job
  pub found : lookup id s.jobs ≡ some job
  pub status : job.status ≡ queued
  pub live : is_expired job t ≡ false
  pub left : job.attempt + k ≡ job.max_attempts
  pub entry : s.queue.items ≡ id ∷ []
  pub room : 1 ≤ s.queue.size
  pub unclosed : s.queue.closed ≡ false

-- The job has failed for good: it is in the dead letters after all its attempts.
pub record Exhausted (id error : String) (s : Server) : Type 0 where
  pub job : Job
  pub found : lookup id s.jobs ≡ some job
  pub status : job.status ≡ failed
  pub all_used : job.attempt ≡ job.max_attempts
  pub letter : Jobstore.DeadLetterEntry
  pub filed : lookup id s.dlq ≡ some letter
  pub attempts : letter.attempts ≡ job.max_attempts
  pub reason : letter.reason ≡ "max_attempts_exhausted"
  pub last_error : letter.last_error ≡ error
  pub entry : s.queue.items ≡ []

enqueue_alone :
    (id : String) (q : MemoryQueue)
    → q.closed ≡ false
    → 1 ≤ q.size
    → Queue.enqueue id (record q { items = [] }) ≡ (record q { items = id ∷ [] }, none)
unfolding Queue.enqueue
enqueue_alone id q unclosed room =
    let fits : ltb 0 q.size ≡ true = ground arith in rw (unclosed, fits)

module _ (id error : String) (t : ℕ) (s : Server) where
  -- The server after the worker has taken the job, and after the failure, if attempts are left.
  taken : Job → Server
  taken j =
      persist_locked
        (put_job id (started_job t j) (record s { queue = record s.queue { items = [] } }))

  noted : Job → Job
  noted j = noted_job t error (started_job t j)

  takes-eq :
      (k : ℕ) (v : Waiting id t k s)
      → take_next t t (record { server = s; busy = none }) none
        ≡ record { server = taken v.job; busy = some id }
  unfolding take_next process_start taken
  takes-eq k v =
      rw (v.entry, Queue.dequeue, Queue.take_first, take)
        (rw (v.found, start_found, v.live, v.status))

  -- The server after the failure, with attempts left and without.
  again : Job → Server
  again j = enqueue id (persist_locked (put_job id (retried_job (noted j)) (taken j)))

  given_up : Job → Server
  given_up j = persist_locked (
      put_job id (exhausted_job (noted j))
        (record (taken j) { dlq = insert id (exhausted_entry t error (noted j)) (taken j).dlq }))

  found_taken : (j : Job) → lookup id (taken j).jobs ≡ some (started_job t j)
  unfolding taken persist_locked put_job
  found_taken j = lookup-insert_self id (started_job t j) s.jobs

  fails-eq :
      (k : ℕ) (v : Waiting id t k s)
      → (process_finish (execution_failed error) t t id (taken v.job)).0
        ≡ (if ltb v.job.attempt v.job.max_attempts then again v.job else given_up v.job)
  unfolding process_finish finish_found again given_up noted
  fails-eq k v =
      let awake : is_canceled (noted v.job).status ≡ false =
        (unfold noted noted_job started_job in refl) in
      let live : is_expired (noted v.job) t ≡ false =
        (unfold noted noted_job started_job is_expired in v.live) in
      let limits : ltb (noted v.job).attempt (noted v.job).max_attempts
          ≡ ltb v.job.attempt v.job.max_attempts =
        (unfold noted noted_job started_job in refl) in
      rw (found_taken v.job, finish_found) (rw (failed_found, awake, live, limits))

  again-Waiting : (k : ℕ) (v : Waiting id t (suc k) s) → Waiting id t k (again v.job)
  unfolding again taken noted enqueue persist_locked put_job retried_job noted_job started_job
  again-Waiting k v =
      let e = enqueue_alone id s.queue v.unclosed v.room in
      record {
        job = retried_job (noted v.job);
        found = lookup-insert_self id _ _;
        status = refl;
        live = (unfold is_expired in v.live);
        left = omega (arith, v.left);
        entry = rw e;
        room = rw e v.room;
        unclosed = rw e v.unclosed;
      }

  given_up-Exhausted : (v : Waiting id t zero s) → Exhausted id error (given_up v.job)
  unfolding given_up taken noted persist_locked put_job exhausted_job noted_job started_job
      exhausted_entry
  given_up-Exhausted v = record {
    job = exhausted_job (noted v.job);
    found = lookup-insert_self id _ _;
    status = refl;
    all_used = omega (arith, v.left);
    letter = exhausted_entry t error (noted v.job);
    filed = lookup-insert_self id _ _;
    attempts = omega (arith, v.left);
    reason = refl;
    last_error = refl;
    entry = refl;
  }

abbrev idle : Server → System
idle s = record { server = s; busy = none }

module _ (hash_request : SubmitBriefRequest → Option String) (error : String) (t : ℕ) where
  round-eq :
      (id : String) (s : Server) (k : ℕ) (v : Waiting id t k s) (rest : List Action)
      → run hash_request (idle s) (takes t t ∷ finishes (execution_failed error) t t ∷ rest)
        ≡ run hash_request
            (idle (
              if ltb v.job.attempt v.job.max_attempts
              then again id error t s v.job
              else given_up id error t s v.job))
            rest
  unfolding run finish
  round-eq id s k v rest =
      ap (λ y. run hash_request (step hash_request y (finishes (execution_failed error) t t)) rest)
        (takes-eq id error t s k v)
      ∙ ap (λ u. run hash_request (idle u) rest) (fails-eq id error t s k v)

  -- A job whose every execution fails is tried as often as it may be, and no more: from the queue,
  -- with `n` attempts left after the next one, it takes exactly `n + 1` rounds of the worker to fail
  -- for good, and it then stands in the dead letters with all its attempts and the last error. It is
  -- the only entry of the queue, which is open and has room for one; its deadline is not past at the
  -- one reading of the clock that all rounds have; and nothing else happens between the rounds.
  pub retries_exhaust :
      (id : String) (n : ℕ) (s : Server)
      → Waiting id t n s
      → Exhausted id error (run hash_request (idle s) (failing_rounds error t (suc n))).server
  retries_exhaust id zero s v =
      let full : ltb v.job.attempt v.job.max_attempts ≡ false = ground (arith, v.left) in
      rw (round-eq id s zero v [], full) (unfold run in given_up-Exhausted id error t s v)
  retries_exhaust id (suc n) s v =
      let more : ltb v.job.attempt v.job.max_attempts ≡ true = ground (arith, v.left) in
      rw (round-eq id s (suc n) v _, more)
        (retries_exhaust id n (again id error t s v.job) (again-Waiting id error t s n v))
