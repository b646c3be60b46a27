-- ===== src/Jobstore.antt =====
-- internal/storage/jobstore/store.go: the persisted form of the orchestrator's state.
use cova.Base.{ℕ, String, Option, Dict, []}
use cova.Api.{JobStatus, ExpertResult, CallbackConfig}

pub record Job : Type 0 where
  pub id : String
  pub tenant_id : String
  pub project_id : String
  pub expert_id : String
  pub expert_name : String
  pub expert_type : String
  pub date : String
  pub status : JobStatus
  pub progress : ℕ
  pub submitted_at : ℕ
  pub updated_at : ℕ
  pub attempt : ℕ
  pub max_attempts : ℕ
  pub expires_at : Option ℕ
  pub last_error : Option String
  pub result : Option ExpertResult
  pub callback : Option CallbackConfig

pub record IdempotencyEntry : Type 0 where
  pub payload_hash : String
  pub job_id : String

pub record DeadLetterEntry : Type 0 where
  pub job_id : String
  pub tenant_id : String
  pub project_id : String
  pub reason : String
  pub attempts : ℕ
  pub failed_at : ℕ
  pub last_error : String
  pub final_status : JobStatus

pub record State : Type 0 where
  pub next_id : ℕ
  pub jobs : Dict Job
  pub idempotency : Dict IdempotencyEntry
  pub dead_letters : Dict DeadLetterEntry

-- `emptyState`
unfoldable pub empty_state : State
empty_state = record { next_id = 0; jobs = []; idempotency = []; dead_letters = [] }
