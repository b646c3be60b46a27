-- ===== src/Runtime.antt =====
-- internal/expert/runtime/server.go: the server of an expert runtime, its checks of a request.
-- A time and a duration are in nanoseconds. The context of a background task is a number.
pub mod Tasks
pub mod Serve
mod Runs
mod Balance
mod Counts
mod Pending
mod Report
pub mod Paths
mod Lost
pub mod Sink
mod Trust
mod Examples
use cova.Base.{
  ℕ, zero, suc, ◌*◌, String, Bool, true, false, Option, none, some, List, [], ◌∷◌, Dict,
  if◌then◌else◌, ◌=s◌, is_empty, is_blank, trim_space,
}
use cova.Base.Fold.{equal_fold}
use cova.Base.Bytes.{fields}
use cova.Http.{Request, header}

pub record Capability : Type 0 where
  pub expert_id : String
  pub version : String
  pub supports : List String
  pub timeout_seconds : ℕ
  pub max_concurrency : ℕ

-- `input` is the raw JSON; no constraint on the time is 0.
pub record TaskRequest : Type 0 where
  pub task_id : String
  pub job_id : String
  pub tenant_id : String
  pub project_id : String
  pub task_type : String
  pub input : String
  pub timeout_seconds : ℕ
  pub trace_id : String

pub record PendingTask : Type 0 where
  pub context : ℕ

pub record TaskMetrics : Type 0 where
  pub total : ℕ
  pub succeeded : ℕ
  pub accepted : ℕ
  pub canceled : ℕ
  pub failed : ℕ

-- `Server`, without its executor, sink and clock.
pub record Server : Type 0 where
  pub auth_enabled : Bool
  pub auth_token : String
  pub default_async : Bool
  pub default_timeout : ℕ
  pub capability : Capability
  pub pending : Dict PendingTask
  pub seq : ℕ
  pub metrics : TaskMetrics

pub data ServerOption : Type 0 where
  with_auth_token : String → ServerOption
  with_auth_disabled : ServerOption
  with_default_async : Bool → ServerOption
  with_default_timeout : ℕ → ServerOption

unfoldable pub apply_option : ServerOption → Server → Server
apply_option (with_auth_token raw) s =
    if is_blank raw then s else record s { auth_enabled = true; auth_token = trim_space raw }
apply_option with_auth_disabled s = record s { auth_enabled = false; auth_token = "" }
apply_option (with_default_async v) s = record s { default_async = v }
apply_option (with_default_timeout zero) s = s
apply_option (with_default_timeout (suc v)) s = record s { default_timeout = suc v }

unfoldable pub apply_options : List ServerOption → Server → Server
unfolding apply_option
apply_options [] s = s
apply_options (o ∷ options) s = apply_options options (apply_option o s)

-- What `NewServer` reads of a loaded expert.
pub record FirstExpert : Type 0 where
  pub expert_id : String
  pub version : String
  pub capabilities : List String

unfoldable pub filled : List String → List String → List String
filled [] default = default
filled (c ∷ cs) default = c ∷ cs

-- The capability that `NewServer` offers for the snapshot's experts.
unfoldable pub offered : List FirstExpert → Capability
unfolding filled
offered [] = record {
  expert_id = "unknown_expert";
  version = "1.0.0";
  supports = "daily_brief" ∷ "query" ∷ [];
  timeout_seconds = 180;
  max_concurrency = 4;
}
offered (first ∷ more) = record {
  expert_id = first.expert_id;
  version = if is_blank first.version then "1.0.0" else first.version;
  supports = filled first.capabilities ("daily_brief" ∷ "query" ∷ []);
  timeout_seconds = 180;
  max_concurrency = 4;
}

unfoldable pub new_server : List FirstExpert → List ServerOption → Server
unfolding offered apply_options
new_server experts options = apply_options options (record {
  auth_enabled = false;
  auth_token = "";
  default_async = false;
  default_timeout = 180 * 1000000000;
  capability = offered experts;
  pending = [];
  seq = 0;
  metrics = record { total = 0; succeeded = 0; accepted = 0; canceled = 0; failed = 0 };
})

-- The first field that is missing; no error is `none`.
unfoldable pub validate_task_request : TaskRequest → Option String
validate_task_request req =
    if is_blank req.task_id
    then some "field `task_id` is required"
    else if is_blank req.job_id
    then some "field `job_id` is required"
    else if is_blank req.tenant_id
    then some "field `tenant_id` is required"
    else if is_blank req.project_id
    then some "field `project_id` is required"
    else if is_blank req.task_type
    then some "field `task_type` is required"
    else none

-- The words of the Authorization header against the token.
unfoldable pub check_words : String → List String → Option String
check_words expected [] = some "Authorization must use Bearer token"
check_words expected (scheme ∷ []) = some "Authorization must use Bearer token"
check_words expected (scheme ∷ token ∷ []) =
    if equal_fold "bearer" scheme
    then (if token =s expected then none else some "invalid bearer token")
    else some "Authorization must use Bearer token"
check_words expected (scheme ∷ token ∷ extra ∷ words) = some "Authorization must use Bearer token"

unfoldable pub check_auth : Server → Request → Option String
unfolding check_words
check_auth s r =
    let raw = trim_space (header "Authorization" r) in
    if is_empty raw
    then some "missing Authorization header"
    else check_words s.auth_token (fields raw)
