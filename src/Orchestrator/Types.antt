-- ===== src/Orchestrator/Types.antt =====
-- internal/orchestrator/server.go: the server's state, and the parameters of its handlers from
-- internal/api/openapi/server_gen.go. Ints are those that the program keeps at 0 or above. What is
-- handed to `stateStore.Save` is listed in `saves`, newest first; the server only logs a failed save.
use cova.Base.{ℕ, String, Option, List, Dict}
use cova.Api.{JobStatus, ExpertResult, CallbackConfig}
use cova.Jobstore
use cova.Orchestrator.Queue.{MemoryQueue}

pub record ExpertMetadata : Type 0 where
  pub expert_id : String
  pub expert_name : String
  pub expert_type : String
  pub version : String
  pub supports : List String

pub record Job : Type 0 where
  pub id : String
  pub tenant_id : String
  pub project_id : String
  pub expert_id : String
  pub expert_name : String
  pub expert_type : String
  pub date : String
  pub status : JobStatus
  pub progress : ℕ
  pub submitted_at : ℕ
  pub updated_at : ℕ
  pub attempt : ℕ
  pub max_attempts : ℕ
  pub expires_at : Option ℕ
  pub last_error : Option String
  pub result : Option ExpertResult
  pub callback : Option CallbackConfig

pub record IdempotencyRecord : Type 0 where
  pub payload_hash : String
  pub job_id : String

pub record Server : Type 0 where
  pub experts : Dict ExpertMetadata
  pub jobs : Dict Job
  pub idem : Dict IdempotencyRecord
  pub dlq : Dict Jobstore.DeadLetterEntry
  pub next_id : ℕ
  pub max_attempts : ℕ
  pub job_ttl : ℕ
  pub queue : MemoryQueue
  pub saves : List Jobstore.State

-- `SubmitBriefJobParams`
pub record SubmitParams : Type 0 where
  pub request_id : String
  pub idempotency_key : String
  pub tenant_id : String
  pub project_id : String

-- `GetJobStatusParams`, `GetJobResultParams`, `CancelJobParams` and `ReplayJobParams`, which have
-- the same fields.
pub record JobParams : Type 0 where
  pub request_id : String
  pub job_id : String
  pub tenant_id : String
  pub project_id : String
