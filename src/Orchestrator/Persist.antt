-- ===== src/Orchestrator/Persist.antt =====
-- internal/orchestrator/server.go: `persistLocked`, `loadState` and `Server.enqueue`.
use cova.Base.{ℕ, String, Bool, true, false, List, [], ◌∷◌, Dict, map_values, ◌==◌, if◌then◌else◌}
use cova.Api.{JobStatus, queued, running}
use cova.Jobstore
use cova.Orchestrator.Queue
use cova.Orchestrator.Types.{Job, IdempotencyRecord, Server}
use cova.Orchestrator.Rules.{clone_callback_config}

unfoldable pub stored_job : Job → Jobstore.Job
stored_job j = record {
  id = j.id;
  tenant_id = j.tenant_id;
  project_id = j.project_id;
  expert_id = j.expert_id;
  expert_name = j.expert_name;
  expert_type = j.expert_type;
  date = j.date;
  status = j.status;
  progress = j.progress;
  submitted_at = j.submitted_at;
  updated_at = j.updated_at;
  attempt = j.attempt;
  max_attempts = j.max_attempts;
  expires_at = j.expires_at;
  last_error = j.last_error;
  result = j.result;
  callback = clone_callback_config j.callback;
}

unfoldable pub stored_idem : IdempotencyRecord → Jobstore.IdempotencyEntry
stored_idem r = record { payload_hash = r.payload_hash; job_id = r.job_id }

-- The state that `persistLocked` saves.
unfoldable pub snapshot : Server → Jobstore.State
snapshot s = record {
  next_id = s.next_id;
  jobs = map_values stored_job s.jobs;
  idempotency = map_values stored_idem s.idem;
  dead_letters = s.dlq;
}

-- `persistLocked`
unfoldable pub persist_locked : Server → Server
persist_locked s = record s { saves = snapshot s ∷ s.saves }

-- `Server.enqueue`: a refused entry is only logged.
unfoldable pub enqueue : String → Server → Server
enqueue id s = record s { queue = (Queue.enqueue id s.queue).0 }

abbrev pub is_running : JobStatus → Bool
is_running running = true
is_running _ = false

abbrev pub is_queued : JobStatus → Bool
is_queued queued = true
is_queued _ = false

-- A job that was running when the process stopped is queued again.
unfoldable pub requeued : Job → Job
requeued j = if is_running j.status then record j { status = queued; progress = 0 } else j

-- One round of the loop over the stored jobs; `max_attempts` is the server's.
unfoldable pub restored_job : ℕ → Jobstore.Job → Job
unfolding requeued
restored_job max_attempts j = requeued (record {
  id = j.id;
  tenant_id = j.tenant_id;
  project_id = j.project_id;
  expert_id = j.expert_id;
  expert_name = j.expert_name;
  expert_type = j.expert_type;
  date = j.date;
  status = j.status;
  progress = j.progress;
  submitted_at = j.submitted_at;
  updated_at = j.updated_at;
  attempt = j.attempt;
  max_attempts = if j.max_attempts == 0 then max_attempts else j.max_attempts;
  expires_at = j.expires_at;
  last_error = j.last_error;
  result = j.result;
  callback = clone_callback_config j.callback;
})

unfoldable pub restored_idem : Jobstore.IdempotencyEntry → IdempotencyRecord
restored_idem r = record { payload_hash = r.payload_hash; job_id = r.job_id }

-- The ids of the queued jobs, in the order of the loop.
unfoldable pub pending : Dict Job → List String
pending [] = []
pending ((id, j) ∷ m) = let rest = pending m in if is_queued j.status then id ∷ rest else rest

unfoldable pub enqueue_all : List String → Server → Server
enqueue_all [] s = s
enqueue_all (id ∷ ids) s = enqueue_all ids (enqueue id s)

unfoldable pub resume : List String → Server → Server
unfolding enqueue_all enqueue
resume [] s = s
resume (id ∷ ids) s = enqueue_all (id ∷ ids) (persist_locked s)

-- `loadState`, once `stateStore.Load` has returned a state.
unfoldable pub load_state : Jobstore.State → Server → Server
load_state state s =
    let jobs = map_values (restored_job s.max_attempts) state.jobs in
    resume (pending jobs) (record s {
      next_id = state.next_id;
      jobs = jobs;
      idem = map_values restored_idem state.idempotency;
      dlq = state.dead_letters;
    })
