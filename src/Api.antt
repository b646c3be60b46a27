-- ===== src/Api.antt =====
-- pkg/apiv1/types_gen.go: the types that the HTTP interface and the job store share, and the problem
-- reply that internal/orchestrator/server.go builds from them. A `*T` is `Option T`. A time is the
-- number of nanoseconds since 1970; the text that a reply renders it to is left out. `Confidence` is
-- carried and never computed with: it is kept in hundredths.
use cova.Base.{ℕ, String, Bool, List, Option, some, Dict, if◌then◌else◌, ◌=s◌, ◌+s◌}

-- `apiv1.JobStatus`, and the `status…` strings of the orchestrator; `other` is any other text, which
-- only a stored state can bring in.
pub data JobStatus : Type 0 where
  queued running succeeded failed canceled expired : JobStatus
  other : String → JobStatus

pub record CallbackSigning : Type 0 where
  pub algorithm : String
  pub secret_ref : String

pub record CallbackConfig : Type 0 where
  pub url : String
  pub signing : Option CallbackSigning

pub record InferenceConfig : Type 0 where
  pub provider : Option String
  pub credential_mode : Option String
  pub token : Option String

pub record BriefOptions : Type 0 where
  pub max_sources : Option ℕ
  pub language : Option String

pub record SubmitBriefRequest : Type 0 where
  pub tenant_id : Option String
  pub project_id : Option String
  pub expert_id : String
  pub expert_name : Option String
  pub expert_type : Option String
  pub date : String
  pub timezone : Option String
  pub callback : Option CallbackConfig
  pub inference : Option InferenceConfig
  pub options : Option BriefOptions

pub record Citation : Type 0 where
  pub source_id : String
  pub source_name : Option String
  pub title : String
  pub url : Option String
  pub published_at : String

pub record ExpertResult : Type 0 where
  pub title : Option String
  pub answer : String
  pub confidence : ℕ
  pub freshness_cutoff : String
  pub references : List (Dict String)
  pub citations : List Citation
  pub limitations : List String

pub record SubmitBriefResponse : Type 0 where
  pub job_id : String
  pub tenant_id : String
  pub project_id : String
  pub expert_id : String
  pub expert_name : Option String
  pub expert_type : Option String
  pub status : JobStatus
  pub submitted_at : ℕ
  pub request_id : Option String

pub record JobStatusResponse : Type 0 where
  pub job_id : String
  pub tenant_id : String
  pub project_id : String
  pub expert_id : String
  pub expert_name : Option String
  pub expert_type : Option String
  pub status : JobStatus
  pub progress : Option ℕ
  pub submitted_at : ℕ
  pub updated_at : ℕ
  pub attempt : ℕ

pub record JobResultResponse : Type 0 where
  pub job_id : String
  pub tenant_id : String
  pub project_id : String
  pub expert_id : String
  pub expert_name : Option String
  pub expert_type : Option String
  pub status : JobStatus
  pub result : ExpertResult

-- `status_code` is the field `HttpStatus`.
pub record WebhookDeliveryRecord : Type 0 where
  pub delivery_id : String
  pub event_id : String
  pub event_type : String
  pub job_id : Option String
  pub callback_url : String
  pub attempt : ℕ
  pub max_attempts : ℕ
  pub success : Bool
  pub status_code : Option ℕ
  pub error : Option String
  pub requested_at : ℕ
  pub duration_ms : ℕ
  pub next_retry_at : Option ℕ
  pub payload_hash : String

pub record JobDeliveriesResponse : Type 0 where
  pub job_id : String
  pub tenant_id : String
  pub project_id : String
  pub deliveries : List WebhookDeliveryRecord

pub record TimeWindow : Type 0 where
  pub start : String
  pub end : String

pub record QueryRequest : Type 0 where
  pub tenant_id : Option String
  pub project_id : Option String
  pub expert_id : String
  pub expert_name : Option String
  pub expert_type : Option String
  pub question : String
  pub time_window : Option TimeWindow
  pub inference : Option InferenceConfig

pub record ExpertCapability : Type 0 where
  pub expert_id : String
  pub expert_name : String
  pub expert_type : String
  pub supports : List String
  pub status : String
  pub version : String

pub record ExpertCapabilitiesResponse : Type 0 where
  pub experts : List ExpertCapability

pub record Problem : Type 0 where
  pub kind : String
  pub title : String
  pub status : ℕ
  pub detail : Option String
  pub path : Option String
  pub request_id : Option String

-- The body that a handler returns beside its HTTP status code.
pub data Body : Type 0 where
  refused : Problem → Body
  submitted : SubmitBriefResponse → Body
  job_status : JobStatusResponse → Body
  job_result : JobResultResponse → Body
  job_deliveries : JobDeliveriesResponse → Body
  query_answer : ExpertResult → Body
  expert_capabilities : ExpertCapabilitiesResponse → Body

pub record Reply : Type 0 where
  pub code : ℕ
  pub body : Body

-- `inferStatus`
unfoldable pub infer_status : String → ℕ
infer_status code =
    if code =s "invalid-request"
    then 400
    else if code =s "idempotency-mismatch"
    then 409
    else if code =s "not-found"
    then 404
    else if code =s "result-not-ready"
    then 409
    else if code =s "invalid-transition"
    then 409
    else 500

-- `problem`
unfoldable pub problem : String → String → String → String → String → Problem
problem path request_id code title detail = record {
  kind = "https://api.cova.example.com/errors/" +s code;
  title = title;
  status = infer_status code;
  detail = some detail;
  path = some path;
  request_id = some request_id;
}
