-- ===== src/Orchestrator/Faults.antt =====
-- Behaviour of internal/orchestrator/server.go that callers would not expect.
use cova.Base.{
  ℕ, ◌≤◌, ◌<◌, String, ◌≡◌, refl, true, false, Option, some, lookup, arith, ltb, length, is_empty,
  trim_space, ◌||◌, lookup-insert_self, map_option,
}
use cova.Api.{JobStatus, expired, queued}
use cova.Orchestrator.Queue
use cova.Orchestrator.Queue.{MemoryQueue}
use cova.Orchestrator.Types.{Job, Server, JobParams}
use cova.Orchestrator.Rules.{is_canceled, is_terminal, is_expired, mark_expired, job_in_scope}
use cova.Orchestrator.Persist.{persist_locked, enqueue}
use cova.Orchestrator.Read.{on_job, in_scope, put_job, expire_found, expire_job_if_needed}
use cova.Orchestrator.Control.{replayed_job, replay_found, replay_job}
use cova.Orchestrator.Worker.{
  execution_failed, process_finish, finish_found, failed_found, noted_job, retried_job,
}

abbrev pub status_of : String → Server → Option JobStatus
status_of id s = map_option (λ j. j.status) (lookup id s.jobs)

replayed_expires :
    (later t : ℕ) (p : JobParams) (request_id : String) (s : Server) (j : Job)
    → j.status ≡ expired
    → is_expired j t ≡ true
    → let (u, reply) = replay_found later p request_id s (some j) in
      (reply.code ≡ 202)
      × (status_of p.job_id u ≡ some queued)
      × (status_of p.job_id (expire_job_if_needed t p.job_id u) ≡ some expired)
unfolding replay_found expire_job_if_needed
replayed_expires later t p request_id s j is past =
    rw (is, replay_found)
      (unfold persist_locked put_job enqueue replayed_job in
        (
          refl,
          rw lookup-insert_self,
          rw (lookup-insert_self, expire_found)
              (unfold is_expired in
                rw past (unfold mark_expired put_job persist_locked in rw lookup-insert_self)),
        ))

-- Replaying an expired job is in vain: the replay is accepted and the job is queued, but its deadline
-- stays in the past, so that the next look-up after the deadline marks it expired again.
pub replay_of_expired :
    (stamp now later t : ℕ) (p : JobParams) (s : Server) (j : Job)
    → lookup p.job_id s.jobs ≡ some j
    → j.status ≡ expired
    → is_expired j t ≡ true
    → (is_empty (trim_space p.tenant_id) || is_empty (trim_space p.project_id)) ≡ false
    → job_in_scope j (trim_space p.tenant_id) (trim_space p.project_id) ≡ true
    → let (u, reply) = replay_job stamp now later p s in
      (reply.code ≡ 202)
      × (status_of p.job_id u ≡ some queued)
      × (status_of p.job_id (expire_job_if_needed t p.job_id u) ≡ some expired)
unfolding replay_job on_job
replay_of_expired stamp now later t p s j found is past scoped own =
    let final : is_terminal j.status ≡ true = rw is in
    let idle : expire_job_if_needed now p.job_id s ≡ s =
      (unfold expire_job_if_needed in rw (found, expire_found, final)) in
    rw (scoped, idle, found, in_scope, own) (replayed_expires later t p _ s j is past)

-- The queue takes no entry while it is full.
full_queue : (id : String) (q : MemoryQueue) → q.size ≤ length q.items → (Queue.enqueue id q).0 ≡ q
unfolding Queue.enqueue
full_queue id q h = ground arith

-- A retry that meets a full queue is dropped: the failed job goes back to queued with its next
-- attempt, and no entry for it enters the queue.
pub retry_dropped :
    (error : String) (now later : ℕ) (id : String) (s : Server) (j : Job)
    → lookup id s.jobs ≡ some j
    → is_canceled j.status ≡ false
    → is_expired j now ≡ false
    → j.attempt < j.max_attempts
    → s.queue.size ≤ length s.queue.items
    → let t = (process_finish (execution_failed error) now later id s).0 in
      (status_of id t ≡ some queued) × (t.queue ≡ s.queue)
unfolding process_finish finish_found failed_found noted_job
retry_dropped error now later id s j found c x less full =
    let more : ltb j.attempt j.max_attempts ≡ true = ground arith in
    let fresh : is_expired (noted_job now error j) now ≡ false =
      (unfold is_expired noted_job in x) in
    rw (found, finish_found)
      (rw (c, fresh, more)
        (unfold enqueue persist_locked put_job retried_job in
          (rw lookup-insert_self, full_queue id s.queue full)))
