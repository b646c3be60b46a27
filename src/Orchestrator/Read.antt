-- ===== src/Orchestrator/Read.antt =====
-- internal/orchestrator/server.go: `expireJobIfNeeded`, `GetJobStatus` and `GetJobResult`. `stamp`
-- and `now` are the readings of the clock, for a missing request id and for the expiry.
use cova.Base.{
  ℕ, String, Bool, true, false, ◌||◌, Option, none, some, lookup, insert, if◌then◌else◌, ◌+s◌,
  is_empty, trim_space,
}
use cova.Api.{
  JobStatus, succeeded, ExpertResult, Reply, Body, refused, job_status, job_result, problem,
}
use cova.Orchestrator.Types.{Job, Server, JobParams}
use cova.Orchestrator.Rules.{
  is_terminal, is_expired, mark_expired, job_in_scope, normalize_request_id, expert_type_ptr,
}
use cova.Orchestrator.Persist.{persist_locked}

-- Writes back the job that the map holds under `id`.
unfoldable pub put_job : String → Job → Server → Server
put_job id j s = record s { jobs = insert id j s.jobs }

unfoldable pub expire_found : ℕ → String → Server → Option Job → Server
unfolding put_job persist_locked
expire_found now id s none = s
expire_found now id s (some j) =
    if is_terminal j.status
    then s
    else if is_expired j now
    then persist_locked (put_job id (mark_expired j now) s)
    else s

-- `expireJobIfNeeded`
unfoldable pub expire_job_if_needed : ℕ → String → Server → Server
unfolding expire_found
expire_job_if_needed now id s = expire_found now id s (lookup id s.jobs)

unfoldable pub job_path : String → String → String
job_path id suffix = "/v1/assistant/jobs/" +s (id +s suffix)

unfoldable pub scope_required : String → String → Reply
scope_required path request_id = record {
  code = 400;
  body = refused (
      problem path request_id "invalid-request" "Invalid request"
        "headers `X-Tenant-Id` and `X-Project-Id` are required");
}

unfoldable pub not_found : String → String → Reply
not_found path request_id = record {
  code = 404;
  body = refused (problem path request_id "not-found" "Not Found" "job not found");
}

unfoldable pub conflict : String → String → String → String → String → Reply
conflict path request_id code title detail = record {
  code = 409;
  body = refused (problem path request_id code title detail);
}

unfoldable pub status_body : Job → Body
status_body j = job_status (record {
  job_id = j.id;
  tenant_id = j.tenant_id;
  project_id = j.project_id;
  expert_id = j.expert_id;
  expert_name = some j.expert_name;
  expert_type = expert_type_ptr j.expert_type;
  status = j.status;
  progress = some j.progress;
  submitted_at = j.submitted_at;
  updated_at = j.updated_at;
  attempt = j.attempt;
})

-- What a handler goes on with: the job under the id, if the caller's scope holds it.
unfoldable pub in_scope : String → String → Option Job → Option Job
in_scope tenant_id project_id none = none
in_scope tenant_id project_id (some j) =
    if job_in_scope j tenant_id project_id then some j else none

unfoldable pub status_reply : String → String → Option Job → Reply
status_reply path request_id none = not_found path request_id
status_reply path request_id (some j) = record { code = 200; body = status_body j }

abbrev pub is_succeeded : JobStatus → Bool
is_succeeded succeeded = true
is_succeeded _ = false

unfoldable pub result_body : String → String → Job → Option ExpertResult → Reply
result_body path request_id j none =
    conflict path request_id "result-not-ready" "Result not ready" "job is still running"
result_body path request_id j (some r) = record {
  code = 200;
  body = job_result (record {
    job_id = j.id;
    tenant_id = j.tenant_id;
    project_id = j.project_id;
    expert_id = j.expert_id;
    expert_name = some j.expert_name;
    expert_type = expert_type_ptr j.expert_type;
    status = j.status;
    result = r;
  });
}

unfoldable pub result_reply : String → String → Option Job → Reply
unfolding result_body
result_reply path request_id none = not_found path request_id
result_reply path request_id (some j) =
    if is_succeeded j.status
    then result_body path request_id j j.result
    else conflict path request_id "result-not-ready" "Result not ready" "job is still running"

-- The header check, the expiry and the look-up that the handlers on one job begin with: `go` gets the
-- request id, the server after the expiry and the job that the caller may see. The expiry and the
-- handler hold the lock one after the other, and are one step here.
unfoldable pub on_job :
    String
    → ℕ
    → ℕ
    → JobParams
    → (String → Server → Option Job → Server × Reply)
    → Server
    → Server × Reply
unfolding expire_job_if_needed in_scope
on_job suffix stamp now p go s =
    let request_id = normalize_request_id stamp p.request_id in
    let tenant_id = trim_space p.tenant_id in
    let project_id = trim_space p.project_id in
    if is_empty tenant_id || is_empty project_id
    then (s, scope_required (job_path p.job_id suffix) request_id)
    else (let s' = expire_job_if_needed now p.job_id s in
        go request_id s' (in_scope tenant_id project_id (lookup p.job_id s'.jobs)))

unfoldable pub status_found : JobParams → String → Server → Option Job → Server × Reply
unfolding status_reply
status_found p request_id s j = (s, status_reply (job_path p.job_id "") request_id j)

unfoldable pub result_found : JobParams → String → Server → Option Job → Server × Reply
unfolding result_reply
result_found p request_id s j = (s, result_reply (job_path p.job_id "/result") request_id j)

-- `GetJobStatus`
unfoldable pub get_job_status : ℕ → ℕ → JobParams → Server → Server × Reply
unfolding on_job status_found
get_job_status stamp now p = on_job "" stamp now p (status_found p)

-- `GetJobResult`
unfoldable pub get_job_result : ℕ → ℕ → JobParams → Server → Server × Reply
unfolding on_job result_found
get_job_result stamp now p = on_job "/result" stamp now p (result_found p)
