-- ===== src/Executor/Accepted.antt =====
-- internal/worker/executor/runtime.go with internal/expert/runtime/server.go: a task handed over.
use cova.Base.{
  ℕ, String, ◌+s◌, ◌≡◌, refl, ap, ◌∙◌, Bool, Bool-cases, true, false, not, ◌||◌, Option, none, some,
  inl, inr, lookup, insert, is_empty, is_blank, trim_space, ◌=s◌,
}
use cova.Base.Fold.{equal_fold}
use cova.Api.{ExpertResult}
use cova.Http.{Request, header, set_header, or_blank}
use cova.Orchestrator.Worker.{BriefInput, async_accepted}
use cova.Runtime.{TaskRequest, check_auth, validate_task_request}
use cova.Runtime.Tasks.{
  System, create_task, start_checked, start_valid, start_async, counted, count_total,
}
use cova.Runtime.Serve.{Answer, serve_http, created, status_of, reply_code}
use cova.Runtime.Paths.{let_in, routed_create, task_held}
use cova.Executor.{
  RuntimeExecutor, task_request, traceparent_from_id, header_if, http_request, response, outcome_of,
  execute_brief,
}

sent_mode :
    (digest : String → String × String) (e : RuntimeExecutor) (i : BriefInput)
    → e.async_mode ≡ true
    → header "X-COVA-Execution-Mode" (http_request digest e i) ≡ "async"
unfolding http_request header_if header set_header or_blank lookup insert ◌=s◌
sent_mode digest e i async = elim (Bool-cases (is_empty e.auth_token)) [
  | inl a ↦ elim (Bool-cases (is_blank i.trace_id)) [
    | inl t ↦ rw (a, async, t) refl
    | inr t ↦ rw (a, async, t) refl
  ]
  | inr a ↦ elim (Bool-cases (is_blank i.trace_id)) [
    | inl t ↦ rw (a, async, t) refl
    | inr t ↦ rw (a, async, t) refl
  ]
]

or_true : (b : Bool) → b || true ≡ true
or_true true = refl
or_true false = refl

sent_async :
    (digest : String → String × String) (e : RuntimeExecutor) (i : BriefInput) (default : Bool)
    → e.async_mode ≡ true
    → default
        || equal_fold "async"
            (trim_space (header "X-COVA-Execution-Mode" (http_request digest e i)))
      ≡ true
unfolding equal_fold trim_space is_empty
sent_async digest e i default async = rw (sent_mode digest e i async) (or_true default)

header_if_keeps :
    (b : Bool) (name value : String) (r : Request)
    → ((header_if b name value r).method ≡ r.method) × ((header_if b name value r).path ≡ r.path)
unfolding header_if set_header
header_if_keeps true name value r = (refl, refl)
header_if_keeps false name value r = (refl, refl)

sent_path :
    (digest : String → String × String) (e : RuntimeExecutor) (i : BriefInput)
    → ((http_request digest e i).method ≡ "POST")
      × ((http_request digest e i).path ≡ "/runtime/v1/tasks")
unfolding http_request
sent_path digest e i =
    let d =
      header_if_keeps (not (is_blank i.trace_id)) "traceparent"
        (traceparent_from_id digest i.trace_id) _ in
    let c = header_if_keeps (not (is_blank i.trace_id)) "X-Request-Id" i.trace_id _ in
    let b = header_if_keeps e.async_mode "X-COVA-Execution-Mode" "async" _ in
    let a =
      header_if_keeps (not (is_empty e.auth_token)) "Authorization" ("Bearer " +s e.auth_token) _ in
    (d.0 ∙ c.0 ∙ b.0 ∙ a.0, d.1 ∙ c.1 ∙ b.1 ∙ a.1)

sent_valid :
    (encode_date : String → String) (e : RuntimeExecutor) (i : BriefInput)
    → is_blank i.job_id ≡ false
    → is_blank i.tenant_id ≡ false
    → is_blank i.project_id ≡ false
    → validate_task_request (task_request encode_date e i) ≡ none
unfolding validate_task_request task_request is_blank trim_space is_empty
sent_valid encode_date e i job tenant project = rw (job, tenant, project) refl

accepted_code :
    (date_of : String → String) (now : ℕ) (today : String) (req : TaskRequest) (r : Request)
    (y : System)
    → validate_task_request req ≡ none
    → y.server.default_async || equal_fold "async" (trim_space (header "X-COVA-Execution-Mode" r))
      ≡ true
    → status_of (created date_of now today (some req) r y).1 ≡ 202
unfolding created create_task start_checked start_valid start_async status_of reply_code counted
    count_total
accepted_code date_of now today req r y valid async = rw (valid, async) refl

module _ (date_of encode_date : String → String) (digest : String → String × String)
    (encode : Answer → String) (decode : String → Option (Option ExpertResult)) (now : ℕ)
    (today : String) (e : RuntimeExecutor) (i : BriefInput) (y : System) where
  abbrev served : System × Answer
  served =
      serve_http date_of now today (some (task_request encode_date e i)) (http_request digest e i) y

  served-created :
      check_auth y.server (http_request digest e i) ≡ none
      → served
        ≡ created date_of now today
            (some (task_request encode_date e i))
            (http_request digest e i)
            y
  served-created fits =
      let path = sent_path digest e i in
      let_in date_of now today (some (task_request encode_date e i)) (http_request digest e i) y
        fits
      ∙ routed_create date_of now today (some (task_request encode_date e i))
          (http_request digest e i) y path.0 path.1

  -- In asynchronous mode, an executor whose token the runtime takes hands over a job whose id, tenant
  -- and project are not blank: if the runtime reads the body as sent and its answer comes back, the
  -- worker is told that the task was accepted, and the task is pending there under the job's id.
  pub execute_accepted :
      is_blank e.base_url ≡ false
      → e.async_mode ≡ true
      → is_blank i.job_id ≡ false
      → is_blank i.tenant_id ≡ false
      → is_blank i.project_id ≡ false
      → check_auth y.server (http_request digest e i) ≡ none
      → (execute_brief decode digest encode_date
            (λ r t.
              response
                (status_of (serve_http date_of now today (some t) r y).1)
                (encode (serve_http date_of now today (some t) r y).1))
            e
            i
          ≡ async_accepted)
        × (lookup i.job_id
              (serve_http date_of now today
                (some (task_request encode_date e i))
                (http_request digest e i)
                y).0.server.pending
            ≡ some (record { context = y.next_context }))
  unfolding execute_brief outcome_of created task_request
  execute_accepted based async job tenant project fits =
      let valid = sent_valid encode_date e i job tenant project in
      let mode = sent_async digest e i y.server.default_async async in
      let code =
        ap (λ (a : System × Answer). status_of a.1) (served-created fits)
        ∙ accepted_code date_of now today (task_request encode_date e i) (http_request digest e i) y
            valid mode in
      (
        rw (based, code) refl,
        rw (served-created fits) (
            task_held date_of now today (header "X-COVA-Execution-Mode" (http_request digest e i))
              (task_request encode_date e i) y valid mode),
      )
