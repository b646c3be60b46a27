-- ===== src/Orchestrator/Change.antt =====
-- What one section under the lock does to the server's maps: an abstract machine that the handlers
-- and the worker of internal/orchestrator/server.go refine.
use cova.Base.{
  ℕ, ◌+◌, ◌%◌, ◌^◌, ◌≤◌, String, ◌≡◌, refl, ◌⊎◌, true, false, Option, none, some, Dict, lookup,
  insert, delete,
}
use cova.Api.{JobStatus, queued, running, succeeded, failed, canceled, expired, CallbackConfig}
use cova.Jobstore
use cova.Orchestrator.Types.{Job, Server, IdempotencyRecord}
use cova.Orchestrator.Submit.{job_name}
use cova.Orchestrator.Rules.{is_canceled, is_terminal, clone_callback_config}
use cova.Orchestrator.Control.{can_replay}

-- Who acts: a caller of the interface or an expert runtime, a caller who replays, or the worker.
pub data Actor : Type 0 where
  caller replayer worker : Actor

-- The status diagram. The worker spares canceled jobs only.
pub data Edge (w : Actor) (a b : JobStatus) : Type 0 where
  stays : b ≡ a → Edge w a b
  expires : is_terminal a ≡ false → b ≡ expired → Edge w a b
  cancels : is_terminal a ≡ false → b ≡ canceled → Edge w a b
  reports : is_terminal a ≡ false → (b ≡ succeeded) ⊎ (b ≡ failed) → Edge w a b
  replays : w ≡ replayer → can_replay a ≡ true → b ≡ queued → Edge w a b
  overruns : w ≡ worker → is_canceled a ≡ false → b ≡ expired → Edge w a b
  starts : w ≡ worker → is_canceled a ≡ false → b ≡ running → Edge w a b
  retries : w ≡ worker → is_canceled a ≡ false → b ≡ queued → Edge w a b
  succeeds : w ≡ worker → is_canceled a ≡ false → b ≡ succeeded → Edge w a b
  fails : w ≡ worker → is_canceled a ≡ false → b ≡ failed → Edge w a b

abbrev pub Attempts : Job → Type 0
Attempts j = (1 ≤ j.attempt) × (j.attempt ≤ j.max_attempts)

-- What a job is about: the fields that no handler assigns once the job is stored.
pub record Origin : Type 0 where
  pub id : String
  pub tenant_id : String
  pub project_id : String
  pub expert_id : String
  pub expert_name : String
  pub expert_type : String
  pub date : String
  pub submitted_at : ℕ
  pub max_attempts : ℕ
  pub expires_at : Option ℕ
  pub callback : Option CallbackConfig

abbrev pub origin : Job → Origin
origin j = record {
  id = j.id;
  tenant_id = j.tenant_id;
  project_id = j.project_id;
  expert_id = j.expert_id;
  expert_name = j.expert_name;
  expert_type = j.expert_type;
  date = j.date;
  submitted_at = j.submitted_at;
  max_attempts = j.max_attempts;
  expires_at = j.expires_at;
  callback = j.callback;
}

-- How a stored job may change: what it is about is fixed, and its status follows the diagram.
pub record Evolves (w : Actor) (j j' : Job) : Type 0 where
  pub about : origin j' ≡ origin j
  pub attempts : Attempts j → Attempts j'
  pub edge : Edge w j.status j'.status

abbrev pub DeadLetters : Type 0
DeadLetters = Dict Jobstore.DeadLetterEntry

-- The dead letters change at most at one id.
pub data Letters (id : String) (old new : DeadLetters) : Type 0 where
  kept : new ≡ old → Letters id old new
  dropped : new ≡ delete id old → Letters id old new
  added : (d : Jobstore.DeadLetterEntry) → new ≡ insert id d old → Letters id old new

pub record Fixed (s t : Server) : Type 0 where
  pub idem : t.idem ≡ s.idem
  pub next_id : t.next_id ≡ s.next_id
  pub max_attempts : t.max_attempts ≡ s.max_attempts

-- A job as it is created.
pub record Fresh (j : Job) (s : Server) : Type 0 where
  pub status : j.status ≡ queued
  pub attempt : j.attempt ≡ 1
  pub max_attempts : j.max_attempts ≡ s.max_attempts
  pub callback : clone_callback_config j.callback ≡ j.callback

-- A new job is noted at most under a key that was not in use.
pub data Recalls (id : String) (old new : Dict IdempotencyRecord) : Type 0 where
  unkeyed : new ≡ old → Recalls id old new
  noted :
      (k : String) (r : IdempotencyRecord)
      → r.job_id ≡ id
      → lookup k old ≡ none
      → new ≡ insert k r old
      → Recalls id old new

pub data Change (w : Actor) : Server → Server → Type 0 where
  same : {s t : Server} → t.jobs ≡ s.jobs → t.dlq ≡ s.dlq → Fixed s t → Change w s t
  update :
      {s t : Server} (id k : String) (j j' : Job)
      → lookup id s.jobs ≡ some j
      → Evolves w j j'
      → t.jobs ≡ insert id j' s.jobs
      → (k ≡ id) ⊎ (k ≡ j.id)
      → Letters k s.dlq t.dlq
      → Fixed s t
      → Change w s t
  after : {s t u : Server} → Change w s t → Change w t u → Change w s u

-- Nothing changed.
pub Change-refl : {w : Actor} (s : Server) → Change w s s
Change-refl s = same refl refl (record { idem = refl; next_id = refl; max_attempts = refl })

-- One action: changes, or one new job.
pub data Moves (w : Actor) : Server → Server → Type 0 where
  changes : {s t : Server} → Change w s t → Moves w s t
  creates :
      {s t : Server} (j : Job)
      → j.id ≡ job_name ((s.next_id + 1) % 2 ^ 64)
      → t.next_id ≡ (s.next_id + 1) % 2 ^ 64
      → Fresh j s
      → t.jobs ≡ insert j.id j s.jobs
      → t.dlq ≡ delete j.id s.dlq
      → Recalls j.id s.idem t.idem
      → t.max_attempts ≡ s.max_attempts
      → Moves w s t

pub Moves-refl : {w : Actor} (s : Server) → Moves w s s
Moves-refl s = changes (Change-refl s)
