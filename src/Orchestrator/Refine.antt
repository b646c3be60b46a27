-- ===== src/Orchestrator/Refine.antt =====
-- The handlers and the worker of internal/orchestrator/server.go refine the abstract machine of
-- `Change`: each of their sections is one of its changes.
pub mod Control
pub mod Worker
pub mod Events
pub mod Submit
pub mod Machine
use cova.Base.{
  ℕ, String, ◌≡◌, refl, ◌⊎◌, inl, inr, ◌&&◌, not, true, false, Option, none, some, lookup, arith,
  ltb, ◌=s◌, trim_space, Bool-cases, Option-cases,
}
use cova.Api.{ExpertResult}
use cova.Orchestrator.Queue.{MemoryQueue}
use cova.Orchestrator.Types.{Job, Server}
use cova.Orchestrator.Rules.{is_terminal, is_canceled, is_expired, mark_expired}
use cova.Orchestrator.Persist.{persist_locked, enqueue}
use cova.Orchestrator.Read.{put_job, expire_found, expire_job_if_needed}
use cova.Orchestrator.Types.{JobParams}
use cova.Orchestrator.Rules.{job_in_scope, normalize_request_id}
use cova.Orchestrator.Read.{
  in_scope, on_job, scope_required, job_path, get_job_status, get_job_result,
}
use cova.Orchestrator.Control.{
  can_replay, canceled_job, cancel_found, cancel_job, replayed_job, replay_found, replay_job,
}
use cova.Orchestrator.Worker.{
  Outcome, done, async_accepted, execution_failed, started_job, start_found, process_start,
  waiting_job, async_found, noted_job, retried_job, exhausted_job, failed_found, completed_job,
  done_found, finish_found, process_finish,
}
use cova.Orchestrator.Events.{
  ExpertTaskEventData, reported_success, reported_failure, reported_cancel, report, report_found,
  handle_event,
}
use cova.Api.{Reply}
use cova.Base.{is_empty, ◌||◌}
use cova.Orchestrator.Change.{cancels, replays, starts, retries, succeeds, fails}
use cova.Orchestrator.Change.{
  Actor, Edge, stays, expires, Evolves, Letters, kept, dropped, added, Fixed, Change, same, update,
  after, Change-refl,
}

pub mark_expired-Evolves :
    {w : Actor} (j : Job) (now : ℕ)
    → is_terminal j.status ≡ false
    → Evolves w j (mark_expired j now)
unfolding mark_expired
mark_expired-Evolves j now h = record { about = refl; attempts = λ a. a; edge = expires h refl }

-- Writing back a job that evolved, and saving, is a change.
pub put_job-Change :
    {w : Actor} (s : Server) (id : String) (j j' : Job)
    → lookup id s.jobs ≡ some j
    → Evolves w j j'
    → Change w s (persist_locked (put_job id j' s))
unfolding persist_locked put_job
put_job-Change s id j j' e v =
    update id id j j' e v refl (inl refl) (kept refl)
      (record { idem = refl; next_id = refl; max_attempts = refl })

expire_found-Change :
    {w : Actor} (now : ℕ) (id : String) (s : Server) (o : Option Job)
    → lookup id s.jobs ≡ o
    → Change w s (expire_found now id s o)
unfolding expire_found
expire_found-Change now id s none e = Change-refl s
expire_found-Change now id s (some j) e = elim (Bool-cases (is_terminal j.status)) [
  | inl t ↦ rw t (Change-refl s)
  | inr t ↦ elim (Bool-cases (is_expired j now)) [
    | inl x ↦ rw (t, x) (put_job-Change s id j _ e (mark_expired-Evolves j now t))
    | inr x ↦ rw (t, x) (Change-refl s)
  ]
]

pub expire_job_if_needed-Change :
    {w : Actor} (now : ℕ) (id : String) (s : Server) → Change w s (expire_job_if_needed now id s)
unfolding expire_job_if_needed
expire_job_if_needed-Change now id s = expire_found-Change now id s (lookup id s.jobs) refl

-- Taking the job up to a new server with other dead letters: the general form of a write.
pub write :
    {w : Actor} {s : Server} (t : Server) (id k : String) (j j' : Job)
    → lookup id s.jobs ≡ some j
    → Evolves w j j'
    → (k ≡ id) ⊎ (k ≡ j.id)
    → Letters k s.dlq t.dlq
    → Fixed s t
    → t.jobs ≡ s.jobs
    → Change w s (persist_locked (put_job id j' t))
unfolding persist_locked put_job
write t id k j j' e v at l f h =
    update id k j j' e v (rw h) at l
      (record { idem = f.idem; next_id = f.next_id; max_attempts = f.max_attempts })

-- Saving leaves the maps alone.
pub persist-Change : {w : Actor} (s : Server) → Change w s (persist_locked s)
unfolding persist_locked
persist-Change s = same refl refl (record { idem = refl; next_id = refl; max_attempts = refl })

-- Queueing an entry leaves the maps alone.
pub enqueue-Change :
    {w : Actor} {s t : Server} (id : String) → Change w s t → Change w s (enqueue id t)
unfolding enqueue
enqueue-Change id c =
    after c (same refl refl (record { idem = refl; next_id = refl; max_attempts = refl }))

-- A job that the caller may see is the one that the map holds.
pub in_scope-some :
    (tenant_id project_id : String) (o : Option Job) (j : Job)
    → in_scope tenant_id project_id o ≡ some j
    → (o ≡ some j) × (job_in_scope j tenant_id project_id ≡ true)
unfolding in_scope
in_scope-some tenant_id project_id none j h = cc
in_scope-some tenant_id project_id (some k) j h =
    elim (Bool-cases (job_in_scope k tenant_id project_id)) [
      | inl e ↦ (rw e at h, ground arith)
      | inr e ↦ cc (rw e at h)
    ]

-- A handler on one job is a change if what it goes on with is, for the job that the map holds.
pub on_job-Change :
    {w : Actor} (suffix : String) (stamp now : ℕ) (p : JobParams)
    (go : String → Server → Option Job → Server × Reply) (s : Server)
    → ((request_id : String) (t : Server) → Change w t (go request_id t none).0)
    → ((request_id : String) (t : Server) (j : Job)
        → lookup p.job_id t.jobs ≡ some j
        → Change w t (go request_id t (some j)).0)
    → Change w s (on_job suffix stamp now p go s).0
unfolding on_job
on_job-Change {w} suffix stamp now p go s missing found =
    elim (Bool-cases (is_empty (trim_space p.tenant_id) || is_empty (trim_space p.project_id))) [
      | inl e ↦ rw e (Change-refl s)
      | inr e ↦ rw e (after (expire_job_if_needed-Change now p.job_id s) (rest refl))
    ]
  where
    t : Server
    t = expire_job_if_needed now p.job_id s

    rid : String
    rid = normalize_request_id stamp p.request_id

    rest :
        {o : Option Job}
        → in_scope (trim_space p.tenant_id) (trim_space p.project_id) (lookup p.job_id t.jobs) ≡ o
        → Change w t (go rid t o).0
    rest {o = none} e = missing rid t
    rest {o = some j} e = found rid t j (in_scope-some _ _ _ j e).0
