-- ===== src/Executor.antt =====
-- internal/worker/executor/runtime.go: `RuntimeExecutor`. `digest` gives the first 16 bytes of a
-- SHA-256 sum and the next 8, in hexadecimal; `decode` is `json.Unmarshal`: none where it fails, and
-- else the result, where there is one. The client answers a request by a `Response`. The encoding of
-- a request succeeds.
pub mod Accepted
mod Examples
use cova.Base.{
  ℕ, zero, suc, ◌*◌, ◌/◌, String, ◌+s◌, Bool, true, false, not, Option, none, some, List, [], ◌∷◌,
  Dict, if◌then◌else◌, ◌==◌, is_empty, is_blank, trim_space, format_uint,
}
use cova.Base.Bytes.{cut_right}
use cova.Api.{ExpertResult}
use cova.Http.{Request, set_header}
use cova.Orchestrator.Worker.{BriefInput, Outcome, done, async_accepted, execution_failed}
use cova.Runtime.{TaskRequest}

pub record RuntimeExecutor : Type 0 where
  pub base_url : String
  pub auth_token : String
  pub async_mode : Bool
  pub task_timeout : ℕ

pub data RuntimeOption : Type 0 where
  with_auth_token : String → RuntimeOption
  with_async_mode : Bool → RuntimeOption
  with_task_timeout : ℕ → RuntimeOption

unfoldable pub apply_option : RuntimeOption → RuntimeExecutor → RuntimeExecutor
apply_option (with_auth_token token) e = record e { auth_token = trim_space token }
apply_option (with_async_mode v) e = record e { async_mode = v }
apply_option (with_task_timeout zero) e = e
apply_option (with_task_timeout (suc v)) e = record e { task_timeout = suc v }

unfoldable pub apply_options : List RuntimeOption → RuntimeExecutor → RuntimeExecutor
unfolding apply_option
apply_options [] e = e
apply_options (o ∷ options) e = apply_options options (apply_option o e)

unfoldable pub new_runtime_executor : String → List RuntimeOption → RuntimeExecutor
unfolding apply_options cut_right
new_runtime_executor base_url options = apply_options options (record {
  base_url = cut_right 47 (trim_space base_url);
  auth_token = "";
  async_mode = false;
  task_timeout = 60 * 1000000000;
})

unfoldable pub timeout_seconds : RuntimeExecutor → ℕ
timeout_seconds e =
    let seconds = e.task_timeout / 1000000000 in if seconds == 0 then 60 else seconds

-- The body of the request; `encode_date` is its input with the date.
unfoldable pub task_request : (String → String) → RuntimeExecutor → BriefInput → TaskRequest
unfolding timeout_seconds
task_request encode_date e i = record {
  task_id = i.job_id;
  job_id = i.job_id;
  tenant_id = i.tenant_id;
  project_id = i.project_id;
  task_type = "daily_brief";
  input = encode_date i.date;
  timeout_seconds = timeout_seconds e;
  trace_id = i.trace_id;
}

unfoldable pub header_if : Bool → String → String → Request → Request
unfolding set_header
header_if true name value r = set_header name value r
header_if false name value r = r

-- `traceparentFromID`
unfoldable pub traceparent_from_id : (String → String × String) → String → String
traceparent_from_id digest id =
    let sum = digest (trim_space id) in "00-" +s (sum.0 +s ("-" +s (sum.1 +s "-01")))

-- The request with its headers, at the path behind the base URL.
unfoldable pub http_request : (String → String × String) → RuntimeExecutor → BriefInput → Request
unfolding header_if set_header traceparent_from_id
http_request digest e i =
    let plain : Request = record {
      method = "POST";
      path = "/runtime/v1/tasks";
      headers = ("Content-Type", "application/json") ∷ [];
      remote_addr = "";
      content_length = none;
      body_limit = none;
    } in
    let authorized =
      header_if (not (is_empty e.auth_token)) "Authorization" ("Bearer " +s e.auth_token) plain in
    let asked = header_if e.async_mode "X-COVA-Execution-Mode" "async" authorized in
    header_if (not (is_blank i.trace_id)) "traceparent" (traceparent_from_id digest i.trace_id)
      (header_if (not (is_blank i.trace_id)) "X-Request-Id" i.trace_id asked)

-- What the client brings back.
pub data Response : Type 0 where
  unreachable : String → Response
  response : ℕ → String → Response

unfoldable pub decoded : Option (Option ExpertResult) → Outcome
decoded none = execution_failed "decode runtime response"
decoded (some none) = execution_failed "runtime response missing result"
decoded (some (some result)) = done result

unfoldable pub outcome_of : (String → Option (Option ExpertResult)) → Response → Outcome
unfolding decoded
outcome_of decode (unreachable e) = execution_failed ("call runtime api: " +s e)
outcome_of decode (response code body) =
    if code == 202
    then async_accepted
    else if code == 200
    then decoded (decode body)
    else execution_failed
        ("runtime api status=" +s (format_uint code +s (" body=" +s trim_space body)))

-- `ExecuteBrief`, where `call` is the client's way to the runtime and back.
unfoldable pub execute_brief :
    (String → Option (Option ExpertResult))
    → (String → String × String)
    → (String → String)
    → (Request → TaskRequest → Response)
    → RuntimeExecutor
    → BriefInput
    → Outcome
unfolding outcome_of http_request task_request
execute_brief decode digest encode_date call e i =
    if is_blank e.base_url
    then execution_failed "runtime base url is required"
    else outcome_of decode (call (http_request digest e i) (task_request encode_date e i))
