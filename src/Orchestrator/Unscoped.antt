-- ===== src/Orchestrator/Unscoped.antt =====
-- The handler of internal/api/openapi/server_gen.go over internal/orchestrator/server.go: a request
-- whose headers do not name a tenant and a project.
use cova.Base.{
  ℕ, String, ◌≡◌, refl, Bool, true, ◌||◌, Option, none, some, List, inl, inr, ◌⊎◌, Dict, is_empty,
  is_blank, trim_space, trim_space_idem,
}
use cova.Api.{SubmitBriefRequest, QueryRequest, Reply}
use cova.Http.{Request, header}
use cova.Webhook.Dispatcher.{DeliveryRecord}
use cova.Openapi.{
  Operation, submit_brief_job, get_job_status, get_job_result, get_job_deliveries, cancel_job,
  replay_job, query_expert, get_expert_capabilities, routes, find_route, trimmed_header, job_params,
  submit_params,
}
use cova.Openapi.Dispatch.{
  Payload, serve_http, dispatch, dispatch_found, dispatch_submit, dispatch_query, finish, written,
  bad_body, handler_problem, scope_params,
}
use cova.Orchestrator.Types.{Job, Server, JobParams, SubmitParams}
use cova.Orchestrator.Read
use cova.Orchestrator.Read.{on_job, scope_required}
use cova.Orchestrator.Control
use cova.Orchestrator.Submit
use cova.Orchestrator.Submit.{check_submit, decide, invalid}
use cova.Orchestrator.Inquiry
use cova.Orchestrator.Inquiry.{ScopeParams, check_query, invalid_query, query_reply}
use cova.Orchestrator.Service.{Readings, service, answered}

-- No tenant, or no project.
unfoldable pub unscoped : String → String → Bool
unscoped tenant_id project_id = is_blank tenant_id || is_blank project_id

-- The status code of an answer; no reply is 404.
unfoldable pub code_of : Option Reply → ℕ
code_of none = 404
code_of (some reply) = reply.code

-- Nothing is done, and the caller is told 400.
abbrev Denied : Server → Server × Reply → Type 0
Denied s d = (d.0 ≡ s) × (d.1.code ≡ 400)

retrimmed :
    (r : Request)
    → unscoped (header "X-Tenant-Id" r) (header "X-Project-Id" r) ≡ true
    → is_empty (trim_space (trimmed_header "X-Tenant-Id" r))
        || is_empty (trim_space (trimmed_header "X-Project-Id" r))
      ≡ true
unfolding unscoped is_blank trimmed_header
retrimmed r e =
    rw (trim_space_idem (header "X-Tenant-Id" r), trim_space_idem (header "X-Project-Id" r)) e

on_job-Denied :
    (suffix : String) (stamp now : ℕ) (p : JobParams)
    (go : String → Server → Option Job → Server × Reply) (s : Server)
    → is_empty (trim_space p.tenant_id) || is_empty (trim_space p.project_id) ≡ true
    → Denied s (on_job suffix stamp now p go s)
unfolding on_job scope_required
on_job-Denied suffix stamp now p go s e = rw e (refl, refl)

submit-Denied :
    (hash_request : SubmitBriefRequest → Option String) (stamp now : ℕ) (p : SubmitParams)
    (req : SubmitBriefRequest) (s : Server)
    → is_empty (trim_space p.tenant_id) || is_empty (trim_space p.project_id) ≡ true
    → Denied s (Submit.submit_brief_job hash_request stamp now p req s)
unfolding Submit.submit_brief_job check_submit decide invalid
submit-Denied hash_request stamp now p req s e = rw e (refl, refl)

query-Denied :
    (render : ℕ → String) (stamp now : ℕ) (p : ScopeParams) (req : QueryRequest) (s : Server)
    → is_empty (trim_space p.tenant_id) || is_empty (trim_space p.project_id) ≡ true
    → Denied s (Inquiry.query_expert render stamp now p req s)
unfolding Inquiry.query_expert check_query query_reply invalid_query
query-Denied render stamp now p req s e = rw e (refl, refl)

experts-Denied :
    (stamp : ℕ) (p : ScopeParams) (s : Server)
    → is_empty (trim_space p.tenant_id) || is_empty (trim_space p.project_id) ≡ true
    → Denied s (Inquiry.get_expert_capabilities stamp p s)
unfolding Inquiry.get_expert_capabilities scope_required is_blank
experts-Denied stamp p s e = rw e (refl, refl)

module _ (hash_request : SubmitBriefRequest → Option String)
    (reader : Option (String → Option (List DeliveryRecord))) (render : ℕ → String) (c : Readings)
    (r : Request) (s : Server)
    (e : is_empty (trim_space (trimmed_header "X-Tenant-Id" r))
        || is_empty (trim_space (trimmed_header "X-Project-Id" r))
      ≡ true) where
  submit_dispatched :
      (o : Option SubmitBriefRequest)
      → Denied s (dispatch_submit (service hash_request reader render c) r o s)
  unfolding dispatch_submit bad_body handler_problem finish written service answered submit_params
  submit_dispatched none = (refl, refl)
  submit_dispatched (some req) = submit-Denied hash_request c.stamp c.now (submit_params r) req s e

  query_dispatched :
      (o : Option QueryRequest)
      → Denied s (dispatch_query (service hash_request reader render c) r o s)
  unfolding dispatch_query bad_body handler_problem finish written service answered scope_params
  query_dispatched none = (refl, refl)
  query_dispatched (some req) = query-Denied render c.stamp c.now (scope_params r) req s e

  dispatched :
      (op : Operation) (params : Dict String) (body : Payload)
      → Denied s (dispatch (service hash_request reader render c) op params r body s)
  unfolding dispatch finish written service answered job_params scope_params Read.get_job_status
      Read.get_job_result Control.cancel_job Control.replay_job Inquiry.get_job_deliveries
  dispatched submit_brief_job params body = submit_dispatched body.submission
  dispatched get_job_status params body =
      on_job-Denied "" c.stamp c.now (job_params params r) (Read.status_found (job_params params r))
        s e
  dispatched get_job_result params body =
      on_job-Denied "/result" c.stamp c.now (job_params params r)
        (Read.result_found (job_params params r)) s e
  dispatched get_job_deliveries params body =
      on_job-Denied "/deliveries" c.stamp c.now (job_params params r)
        (Inquiry.deliveries_found reader (job_params params r)) s e
  dispatched cancel_job params body =
      on_job-Denied "/cancel" c.stamp c.now (job_params params r)
        (Control.cancel_found c.later (job_params params r)) s e
  dispatched replay_job params body =
      on_job-Denied "/replay" c.stamp c.now (job_params params r)
        (Control.replay_found c.later (job_params params r)) s e
  dispatched query_expert params body = query_dispatched body.query
  dispatched get_expert_capabilities params body = experts-Denied c.stamp (scope_params r) s e

  found-Denied :
      (o : Option (Operation × Dict String)) (body : Payload)
      → ((dispatch_found (service hash_request reader render c) r body s o).0 ≡ s)
        × ((code_of (dispatch_found (service hash_request reader render c) r body s o).1 ≡ 400)
            ⊎ (o ≡ none))
  unfolding dispatch_found code_of
  found-Denied none body = (refl, inr refl)
  found-Denied (some (op, params)) body = let d = dispatched op params body in (d.0, inl d.1)

-- Whatever a request without a tenant or without a project asks for, nothing is done, and it is told
-- 400 wherever there is a route for it.
pub unscoped_refused :
    (hash_request : SubmitBriefRequest → Option String)
    (reader : Option (String → Option (List DeliveryRecord))) (render : ℕ → String) (c : Readings)
    (r : Request) (body : Payload) (s : Server)
    → unscoped (header "X-Tenant-Id" r) (header "X-Project-Id" r) ≡ true
    → ((serve_http (service hash_request reader render c) r body s).0 ≡ s)
      × ((code_of (serve_http (service hash_request reader render c) r body s).1 ≡ 400)
          ⊎ (find_route routes r ≡ none))
unfolding serve_http
unscoped_refused hash_request reader render c r body s e =
    found-Denied hash_request reader render c r s (retrimmed r e) (find_route routes r) body
