-- ===== src/Openapi/Dispatch.antt =====
-- internal/api/openapi/server_gen.go: `Handler`, over an implementation of `ServerInterface` with the
-- state `S`. The body of a request comes decoded, as each of the two types where it is one.
use cova.Base.{String, ◌+s◌, Option, none, some, Dict, ℕ}
use cova.Api.{SubmitBriefRequest, QueryRequest, Reply, refused}
use cova.Http.{Request}
use cova.Openapi.{
  Operation, submit_brief_job, get_job_status, get_job_result, get_job_deliveries, cancel_job,
  replay_job, query_expert, get_expert_capabilities, routes, find_route, trimmed_header,
  submit_params, job_params,
}
use cova.Orchestrator.Types.{SubmitParams, JobParams}
use cova.Orchestrator.Inquiry.{ScopeParams}

-- What an implementation returns: a status with a body, or an error.
pub data Result : Type 0 where
  replied : Reply → Result
  unimplemented : Result
  failed : String → Result

pub record ServerInterface (S : Type 0) : Type 0 where
  pub submit_brief_job : SubmitParams → SubmitBriefRequest → S → S × Result
  pub get_job_status : JobParams → S → S × Result
  pub get_job_result : JobParams → S → S × Result
  pub get_job_deliveries : JobParams → S → S × Result
  pub cancel_job : JobParams → S → S × Result
  pub replay_job : JobParams → S → S × Result
  pub query_expert : ScopeParams → QueryRequest → S → S × Result
  pub get_expert_capabilities : ScopeParams → S → S × Result

-- The body of a request.
pub record Payload : Type 0 where
  pub submission : Option SubmitBriefRequest
  pub query : Option QueryRequest

unfoldable pub scope_params : Request → ScopeParams
unfolding trimmed_header
scope_params r = record {
  request_id = trimmed_header "X-Request-Id" r;
  tenant_id = trimmed_header "X-Tenant-Id" r;
  project_id = trimmed_header "X-Project-Id" r;
}

-- `writeProblem`
unfoldable pub handler_problem : Request → String → String → ℕ → String → Reply
unfolding trimmed_header
handler_problem r code title status detail = record {
  code = status;
  body = refused (record {
    kind = "https://api.cova.example.com/errors/" +s code;
    title = title;
    status = status;
    detail = some detail;
    path = some r.path;
    request_id = some (trimmed_header "X-Request-Id" r);
  });
}

unfoldable pub bad_body : Request → Reply
unfolding handler_problem
bad_body r =
    handler_problem r "invalid-request" "Invalid request" 400 "request body must be valid JSON"

unfoldable pub written : Request → Result → Reply
unfolding handler_problem
written r (replied reply) = reply
written r unimplemented =
    handler_problem r "not-implemented" "Not implemented" 501 "operation is not implemented"
written r (failed e) = handler_problem r "internal-error" "Internal error" 500 e

module _ {S : Type 0} (impl : ServerInterface S) where
  unfoldable pub finish : Request → S × Result → S × Reply
  unfolding written
  finish r (s, result) = (s, written r result)

  unfoldable pub dispatch_submit : Request → Option SubmitBriefRequest → S → S × Reply
  unfolding finish bad_body submit_params
  dispatch_submit r none s = (s, bad_body r)
  dispatch_submit r (some req) s = finish r (impl.submit_brief_job (submit_params r) req s)

  unfoldable pub dispatch_query : Request → Option QueryRequest → S → S × Reply
  unfolding finish bad_body scope_params
  dispatch_query r none s = (s, bad_body r)
  dispatch_query r (some req) s = finish r (impl.query_expert (scope_params r) req s)

  -- `dispatch`
  unfoldable pub dispatch : Operation → Dict String → Request → Payload → S → S × Reply
  unfolding dispatch_submit dispatch_query finish job_params scope_params
  dispatch submit_brief_job params r body s = dispatch_submit r body.submission s
  dispatch get_job_status params r body s = finish r (impl.get_job_status (job_params params r) s)
  dispatch get_job_result params r body s = finish r (impl.get_job_result (job_params params r) s)
  dispatch get_job_deliveries params r body s =
      finish r (impl.get_job_deliveries (job_params params r) s)
  dispatch cancel_job params r body s = finish r (impl.cancel_job (job_params params r) s)
  dispatch replay_job params r body s = finish r (impl.replay_job (job_params params r) s)
  dispatch query_expert params r body s = dispatch_query r body.query s
  dispatch get_expert_capabilities params r body s =
      finish r (impl.get_expert_capabilities (scope_params r) s)

  -- No reply is the plain 404 of `http.NotFound`.
  unfoldable pub dispatch_found :
      Request → Payload → S → Option (Operation × Dict String) → S × Option Reply
  unfolding dispatch
  dispatch_found r body s none = (s, none)
  dispatch_found r body s (some (op, params)) =
      let done = dispatch op params r body s in (done.0, some done.1)

  -- `ServeHTTP`
  unfoldable pub serve_http : Request → Payload → S → S × Option Reply
  unfolding dispatch_found find_route routes
  serve_http r body s = dispatch_found r body s (find_route routes r)
