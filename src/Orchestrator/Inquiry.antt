-- ===== src/Orchestrator/Inquiry.antt =====
-- internal/orchestrator/server.go: `GetJobDeliveries`, `QueryExpert` and `GetExpertCapabilities`.
-- `reader` is `deliveryRead.ListByJobID`, where there is a reader, and none where that fails; `render`
-- is the time's `Format`. `stamp` and `now` are the readings of the clock.
use cova.Base.{
  ℕ, ◌-◌, ◌*◌, String, ◌+s◌, not, ◌||◌, Option, none, some, List, [], ◌∷◌, Dict, lookup,
  if◌then◌else◌, is_empty, is_blank, trim_space,
}
use cova.Api.{
  Reply, refused, problem, WebhookDeliveryRecord, job_deliveries, QueryRequest, query_answer,
  ExpertCapability, expert_capabilities,
}
use cova.Webhook.Dispatcher.{DeliveryRecord}
use cova.Orchestrator.Types.{ExpertMetadata, Job, Server, JobParams}
use cova.Orchestrator.Rules.{normalize_request_id, expert_supports}
use cova.Orchestrator.Read.{job_path, not_found, on_job, scope_required}
use cova.Orchestrator.Submit.{
  Checked, reject, pass, ◌>>=◌, ◌>>◌, refuse_if, or_refuse, body_differs,
}

unfoldable pub delivery_item : DeliveryRecord → WebhookDeliveryRecord
delivery_item rec = record {
  delivery_id = rec.delivery_id;
  event_id = rec.event_id;
  event_type = rec.event_type;
  job_id = if is_blank rec.job_id then none else some rec.job_id;
  callback_url = rec.callback_url;
  attempt = rec.attempt;
  max_attempts = rec.max_attempts;
  success = rec.success;
  status_code = rec.http_status;
  error = rec.error;
  requested_at = rec.requested_at;
  duration_ms = rec.duration_ms;
  next_retry_at = rec.next_retry_at;
  payload_hash = rec.payload_hash;
}

unfoldable pub delivery_items : List DeliveryRecord → List WebhookDeliveryRecord
unfolding delivery_item
delivery_items [] = []
delivery_items (rec ∷ records) = delivery_item rec ∷ delivery_items records

-- The records of a job; without a reader there are none.
unfoldable pub read_deliveries :
    Option (String → Option (List DeliveryRecord)) → String → Option (List DeliveryRecord)
read_deliveries none job_id = some []
read_deliveries (some list) job_id = list job_id

unfoldable pub deliveries_reply : JobParams → String → Job → Option (List DeliveryRecord) → Reply
unfolding delivery_items
deliveries_reply p request_id j none = record {
  code = 500;
  body = refused (
      problem (job_path p.job_id "/deliveries") request_id "internal-error" "Internal error"
        "failed to list webhook deliveries");
}
deliveries_reply p request_id j (some records) = record {
  code = 200;
  body = job_deliveries (record {
    job_id = p.job_id;
    tenant_id = j.tenant_id;
    project_id = j.project_id;
    deliveries = delivery_items records;
  });
}

unfoldable pub deliveries_found :
    Option (String → Option (List DeliveryRecord))
    → JobParams
    → String
    → Server
    → Option Job
    → Server × Reply
unfolding deliveries_reply read_deliveries
deliveries_found reader p request_id s none =
    (s, not_found (job_path p.job_id "/deliveries") request_id)
deliveries_found reader p request_id s (some j) =
    (s, deliveries_reply p request_id j (read_deliveries reader p.job_id))

-- `GetJobDeliveries`
unfoldable pub get_job_deliveries :
    Option (String → Option (List DeliveryRecord)) → ℕ → ℕ → JobParams → Server → Server × Reply
unfolding on_job deliveries_found
get_job_deliveries reader stamp now p = on_job "/deliveries" stamp now p (deliveries_found reader p)

-- `QueryExpertParams` and `GetExpertCapabilitiesParams`, which have the same fields.
pub record ScopeParams : Type 0 where
  pub request_id : String
  pub tenant_id : String
  pub project_id : String

abbrev query_path : String
query_path = "/v1/assistant/query"

unfoldable pub invalid_query : String → String → Reply
invalid_query request_id detail = record {
  code = 400;
  body = refused (problem query_path request_id "invalid-request" "Invalid request" detail);
}

-- The checks of `QueryExpert`, in the source's order. The id is looked up as it came.
unfoldable pub check_query :
    String → ScopeParams → QueryRequest → Dict ExpertMetadata → Checked ExpertMetadata
unfolding body_differs invalid_query
check_query request_id p req experts = do
  let tenant_id = trim_space p.tenant_id
  let project_id = trim_space p.project_id
  refuse_if (is_empty tenant_id || is_empty project_id)
      (invalid_query request_id "headers `X-Tenant-Id` and `X-Project-Id` are required")
  refuse_if (body_differs req.tenant_id tenant_id)
      (invalid_query request_id "body `tenant_id` does not match header `X-Tenant-Id`")
  refuse_if (body_differs req.project_id project_id)
      (invalid_query request_id "body `project_id` does not match header `X-Project-Id`")
  refuse_if (is_blank req.expert_id) (invalid_query request_id "field `expert_id` is required")
  refuse_if (is_blank req.question) (invalid_query request_id "field `question` is required")
  expert ← or_refuse (lookup req.expert_id experts) (invalid_query request_id "unknown `expert_id`")
  refuse_if (not (expert_supports expert "query"))
      (invalid_query request_id "expert does not support `query`")
  pass expert

-- The answer is made up on the spot.
unfoldable pub mock_answer : (ℕ → String) → ℕ → QueryRequest → ExpertMetadata → Reply
mock_answer render now req expert = record {
  code = 200;
  body = query_answer (record {
    title = some ("Quick answer from " +s expert.expert_name);
    answer = "Mock answer for question: " +s req.question;
    confidence = 76;
    freshness_cutoff = render now;
    references =
        (("kind", "article")
          ∷ ("ref_id", "src_query_001")
          ∷ ("title", "Mock Query Source")
          ∷ ("uri", "https://example.com/mock-query-source")
          ∷ ("published_at", render (now - 10 * 60 * 1000000000))
          ∷ [])
        ∷ [];
    citations = [];
    limitations = [];
  });
}

unfoldable pub query_reply : (ℕ → String) → ℕ → QueryRequest → Checked ExpertMetadata → Reply
unfolding mock_answer
query_reply render now req (reject r) = r
query_reply render now req (pass expert) = mock_answer render now req expert

-- `QueryExpert`
unfoldable pub query_expert :
    (ℕ → String) → ℕ → ℕ → ScopeParams → QueryRequest → Server → Server × Reply
unfolding query_reply check_query
query_expert render stamp now p req s =
    let request_id = normalize_request_id stamp p.request_id in
    (s, query_reply render now req (check_query request_id p req s.experts))

unfoldable pub capabilities : Dict ExpertMetadata → List ExpertCapability
capabilities [] = []
capabilities ((id, e) ∷ experts) =
    (record {
      expert_id = e.expert_id;
      expert_name = e.expert_name;
      expert_type = e.expert_type;
      supports = e.supports;
      status = "active";
      version = e.version;
    })
    ∷ capabilities experts

-- `GetExpertCapabilities`
unfoldable pub get_expert_capabilities : ℕ → ScopeParams → Server → Server × Reply
unfolding capabilities scope_required
get_expert_capabilities stamp p s =
    if is_blank p.tenant_id || is_blank p.project_id
    then (s, scope_required "/v1/assistant/experts" (normalize_request_id stamp p.request_id))
    else (
      s,
      record {
        code = 200;
        body = expert_capabilities (record { experts = capabilities s.experts });
      },
    )
