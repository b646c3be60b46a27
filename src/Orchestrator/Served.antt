-- ===== src/Orchestrator/Served.antt =====
-- The handler of internal/api/openapi/server_gen.go over internal/orchestrator/server.go: whose jobs a
-- request is told of, and a request without a tenant or a project.
use cova.Base.{
  ℕ, String, ◌≡◌, ◌≢◌, refl, ap, subst, Bool, Bool-cases, true, false, ◌||◌, Option, Option-cases,
  none, some, List, inl, inr, Dict, is_blank, trim_space, trim_space_idem,
}
use cova.Api.{SubmitBriefRequest, QueryRequest, Body, Reply, Problem, refused}
use cova.Http.{Request, header}
use cova.Webhook.Dispatcher.{DeliveryRecord}
use cova.Openapi.{
  Operation, submit_brief_job, get_job_status, get_job_result, get_job_deliveries, cancel_job,
  replay_job, query_expert, get_expert_capabilities, routes, find_route, trimmed_header, job_params,
}
use cova.Openapi.Dispatch.{
  Payload, serve_http, dispatch, dispatch_found, dispatch_query, finish, written, bad_body,
  handler_problem, scope_params,
}
use cova.Orchestrator.Types.{ExpertMetadata, Server, JobParams}
use cova.Orchestrator.Read.{not_found, scope_required}
use cova.Orchestrator.Inquiry
use cova.Orchestrator.Inquiry.{
  ScopeParams, deliveries_found, deliveries_reply, read_deliveries, check_query, invalid_query,
  query_reply, mock_answer,
}
use cova.Orchestrator.Submit.{Checked, reject, pass, ◌>>=◌, ◌>>◌, refuse_if, or_refuse}
use cova.Orchestrator.Service.{Readings, service, answered}
use cova.Orchestrator.Scope.{Owns, on_job-Owns, replies_own}

-- A refusal speaks of no job.
abbrev pub Refusal : Reply → Type 0
Refusal r = (p : Problem) × (r.body ≡ refused p)

unfoldable pub Refuses {ℓ} : {A : Type ℓ} → Checked A → Type 0
Refuses (reject r) = Refusal r
Refuses (pass a) = Unit

pass-Refuses {ℓ} : {A : Type ℓ} (a : A) → Refuses (pass a)
unfolding Refuses
pass-Refuses a = tt

refuse_if-Refuses {ℓ} :
    {A : Type ℓ} (b : Bool) (r : Reply) (k : Checked A)
    → Refusal r
    → Refuses k
    → Refuses (refuse_if b r >> k)
unfolding Refuses
refuse_if-Refuses true r k h g = h
refuse_if-Refuses false r k h g = g

or_refuse-Refuses {ℓ κ} :
    {A : Type ℓ} {B : Type κ} (o : Option A) (r : Reply) (k : A → Checked B)
    → Refusal r
    → ((a : A) → Refuses (k a))
    → Refuses (or_refuse o r >>= k)
unfolding Refuses
or_refuse-Refuses none r k h g = h
or_refuse-Refuses (some a) r k h g = g a

invalid_query-Refusal : (request_id detail : String) → Refusal (invalid_query request_id detail)
unfolding invalid_query
invalid_query-Refusal request_id detail = (_, refl)

check_query-Refuses :
    (id : String) (p : ScopeParams) (req : QueryRequest) (experts : Dict ExpertMetadata)
    → Refuses (check_query id p req experts)
unfolding check_query
check_query-Refuses id p req experts =
    search (refuse_if-Refuses, or_refuse-Refuses, invalid_query-Refusal, pass-Refuses) depth 20

query_reply-Owns :
    (tenant_id project_id : String) (render : ℕ → String) (now : ℕ) (req : QueryRequest)
    (m : Checked ExpertMetadata)
    → Refuses m
    → Owns tenant_id project_id (query_reply render now req m).body
unfolding query_reply mock_answer Refuses
query_reply-Owns tenant_id project_id render now req (reject r) (q, e) = rw e tt
query_reply-Owns tenant_id project_id render now req (pass a) h = tt

module _ (hash_request : SubmitBriefRequest → Option String)
    (reader : Option (String → Option (List DeliveryRecord))) (render : ℕ → String)
    (c : Readings) where
  deliveries-Owns :
      (p : JobParams) (s : Server)
      → Owns
          (trim_space p.tenant_id)
          (trim_space p.project_id)
          (Inquiry.get_job_deliveries reader c.stamp c.now p s).1.body
  unfolding Inquiry.get_job_deliveries deliveries_found not_found deliveries_reply
  deliveries-Owns p =
      on_job-Owns "/deliveries" c.stamp c.now p (deliveries_found reader p) (λ r t. tt)
        (λ r t j h. elim (Option-cases (read_deliveries reader p.job_id)) [
          | inl e ↦ rw e tt
          | inr (records, e) ↦ rw e h
        ])

  query-Owns :
      (tenant_id project_id : String) (p : ScopeParams) (req : QueryRequest) (s : Server)
      → Owns tenant_id project_id (Inquiry.query_expert render c.stamp c.now p req s).1.body
  unfolding Inquiry.query_expert
  query-Owns tenant_id project_id p req s =
      query_reply-Owns tenant_id project_id render c.now req _
        (check_query-Refuses _ p req s.experts)

  experts-Owns :
      (tenant_id project_id : String) (p : ScopeParams) (s : Server)
      → Owns tenant_id project_id (Inquiry.get_expert_capabilities c.stamp p s).1.body
  unfolding Inquiry.get_expert_capabilities scope_required
  experts-Owns tenant_id project_id p s =
      elim (Bool-cases (is_blank p.tenant_id || is_blank p.project_id)) [
        | inl e ↦ rw e tt
        | inr e ↦ rw e tt
      ]

  -- The tenant and the project of a request's headers.
  abbrev Tells : Request → Body → Type 0
  Tells r body = Owns (trimmed_header "X-Tenant-Id" r) (trimmed_header "X-Project-Id" r) body

  retrimmed :
      (r : Request) (body : Body)
      → Owns
          (trim_space (trimmed_header "X-Tenant-Id" r))
          (trim_space (trimmed_header "X-Project-Id" r))
          body
      → Tells r body
  unfolding trimmed_header
  retrimmed r body h =
      subst (λ a. Owns a (trimmed_header "X-Project-Id" r) body)
        (trim_space_idem (header "X-Tenant-Id" r))
        (subst (λ b. Owns (trim_space (trimmed_header "X-Tenant-Id" r)) b body)
          (trim_space_idem (header "X-Project-Id" r)) h)

  query_dispatched :
      (r : Request) (o : Option QueryRequest) (s : Server)
      → Tells r (dispatch_query (service hash_request reader render c) r o s).1.body
  unfolding dispatch_query bad_body handler_problem finish written service answered
  query_dispatched r none s = tt
  query_dispatched r (some req) s = query-Owns _ _ (scope_params r) req s

  dispatched :
      (op : Operation) (params : Dict String) (r : Request) (body : Payload) (s : Server)
      → op ≢ submit_brief_job
      → Tells r (dispatch (service hash_request reader render c) op params r body s).1.body
  unfolding dispatch finish written service answered job_params
  dispatched submit_brief_job params r body s other = elim (other refl) [ ]
  dispatched get_job_status params r body s other =
      retrimmed r _ (replies_own c.stamp c.now c.later (job_params params r) s).0
  dispatched get_job_result params r body s other =
      retrimmed r _ (replies_own c.stamp c.now c.later (job_params params r) s).1
  dispatched get_job_deliveries params r body s other =
      retrimmed r _ (deliveries-Owns (job_params params r) s)
  dispatched cancel_job params r body s other =
      retrimmed r _ (replies_own c.stamp c.now c.later (job_params params r) s).2
  dispatched replay_job params r body s other =
      retrimmed r _ (replies_own c.stamp c.now c.later (job_params params r) s).3
  dispatched query_expert params r body s other = query_dispatched r body.query s
  dispatched get_expert_capabilities params r body s other = experts-Owns _ _ (scope_params r) s

  found-Tells :
      (o : Option (Operation × Dict String)) (r : Request) (body : Payload) (s : Server)
      (reply : Reply)
      → ((params : Dict String) → o ≢ some (submit_brief_job, params))
      → (dispatch_found (service hash_request reader render c) r body s o).1 ≡ some reply
      → Tells r reply.body
  unfolding dispatch_found
  found-Tells none r body s reply other e = cc e
  found-Tells (some (op, params)) r body s reply other e =
      let same : (dispatch (service hash_request reader render c) op params r body s).1 ≡ reply =
        cc e in
      subst (λ (q : Reply). Tells r q.body) same
        (dispatched op params r body s (λ is. other params (ap (λ o. some (o, params)) is)))

  -- Whatever the handler answers to a request that is not a submission says nothing of a job but of
  -- one that belongs to the tenant and the project that the request's headers name.
  pub served-Owns :
      (r : Request) (body : Payload) (s : Server) (reply : Reply)
      → ((params : Dict String) → find_route routes r ≢ some (submit_brief_job, params))
      → (serve_http (service hash_request reader render c) r body s).1 ≡ some reply
      → Owns (trimmed_header "X-Tenant-Id" r) (trimmed_header "X-Project-Id" r) reply.body
  unfolding serve_http
  served-Owns r body s reply other e = found-Tells (find_route routes r) r body s reply other e
