-- ===== src/Orchestrator/Control.antt =====
-- internal/orchestrator/server.go: `CancelJob` and `ReplayJob`. `stamp`, `now` and `later` are the
-- readings of the clock: for a missing request id, for the expiry and for `UpdatedAt`.
use cova.Base.{ℕ, String, Bool, true, false, Option, none, some, delete, if◌then◌else◌}
use cova.Api.{JobStatus, queued, failed, canceled, expired, Reply}
use cova.Orchestrator.Types.{Job, Server, JobParams}
use cova.Orchestrator.Rules.{is_terminal}
use cova.Orchestrator.Persist.{persist_locked, enqueue}
use cova.Orchestrator.Read.{put_job, job_path, not_found, conflict, status_body, on_job}

unfoldable pub canceled_job : ℕ → Job → Job
canceled_job now j = record j { status = canceled; updated_at = now }

unfoldable pub cancel_found : ℕ → JobParams → String → Server → Option Job → Server × Reply
unfolding canceled_job put_job persist_locked
cancel_found later p request_id s none = (s, not_found (job_path p.job_id "/cancel") request_id)
cancel_found later p request_id s (some j) =
    if is_terminal j.status
    then (
      s,
      conflict (job_path p.job_id "/cancel") request_id "invalid-transition"
          "Invalid state transition" "job is already terminal",
    )
    else (let j' = canceled_job later j in
        (persist_locked (put_job p.job_id j' s), record { code = 202; body = status_body j' }))

-- `CancelJob`
unfoldable pub cancel_job : ℕ → ℕ → ℕ → JobParams → Server → Server × Reply
unfolding on_job cancel_found
cancel_job stamp now later p = on_job "/cancel" stamp now p (cancel_found later p)

abbrev pub can_replay : JobStatus → Bool
can_replay failed = true
can_replay canceled = true
can_replay expired = true
can_replay _ = false

unfoldable pub replayed_job : ℕ → Job → Job
replayed_job now j = record j {
  status = queued;
  progress = 0;
  attempt = 1;
  updated_at = now;
  last_error = none;
}

unfoldable pub replay_found : ℕ → JobParams → String → Server → Option Job → Server × Reply
unfolding replayed_job put_job persist_locked enqueue
replay_found later p request_id s none = (s, not_found (job_path p.job_id "/replay") request_id)
replay_found later p request_id s (some j) =
    if can_replay j.status
    then (let j' = replayed_job later j in
        let stored = put_job p.job_id j' s in
        (
          enqueue j.id (persist_locked (record stored { dlq = delete j.id s.dlq })),
          record { code = 202; body = status_body j' },
        ))
    else (
      s,
      conflict (job_path p.job_id "/replay") request_id "invalid-transition"
          "Invalid state transition" "only failed/canceled/expired jobs can be replayed",
    )

-- `ReplayJob`
unfoldable pub replay_job : ℕ → ℕ → ℕ → JobParams → Server → Server × Reply
unfolding on_job replay_found
replay_job stamp now later p = on_job "/replay" stamp now p (replay_found later p)
