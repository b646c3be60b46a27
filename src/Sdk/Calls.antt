-- ===== src/Sdk/Calls.antt =====
-- sdk/go/cova/client_gen.go: the methods of `Client`, with the arguments of theirs that they never use.
use cova.Base.{ℕ, String, ◌+s◌, Option, none, some, [], Dict}
use cova.Api.{SubmitBriefRequest, QueryRequest}
use cova.Openapi
use cova.Openapi.{Operation}
use cova.Openapi.Dispatch.{Payload}
use cova.Sdk.{Client, Libraries, Answer, answer, do_json, header_unless_empty}

-- The last arguments of every method.
pub record CallIds : Type 0 where
  pub request_id : String
  pub tenant_id : String
  pub project_id : String

unfoldable pub call_headers : CallIds → Dict String
unfolding header_unless_empty
call_headers ids = header_unless_empty "X-Request-Id" ids.request_id []

unfoldable pub submit_headers : String → CallIds → Dict String
unfolding header_unless_empty call_headers
submit_headers key ids = header_unless_empty "Idempotency-Key" key (call_headers ids)

-- The path of a job, with what follows its id.
unfoldable pub job_path : String → String → String
job_path id suffix = "/v1/assistant/jobs/" +s (id +s suffix)

unfoldable pub submission : SubmitBriefRequest → Option Payload
submission req = some (record { submission = some req; query = none })

unfoldable pub question : QueryRequest → Option Payload
question req = some (record { submission = none; query = some req })

module _ {H S : Type 0} (libs : Libraries H S) (c : Client H) where
  -- What the methods share: the call of `doJSON`, and the reading of what it returns with the status
  -- that the method takes for success.
  unfoldable pub exchange :
      Operation → String → String → Option Payload → Dict String → ℕ → S → S × Answer
  unfolding do_json answer
  exchange op method path body headers expected s =
      let got = do_json libs c method path body headers s in
      (got.0, answer expected (libs.decode op) got.1)

  unfoldable pub submit_brief_job : SubmitBriefRequest → String → CallIds → S → S × Answer
  unfolding exchange submission submit_headers
  submit_brief_job req key ids s =
      exchange Openapi.submit_brief_job "POST" "/v1/assistant/jobs" (submission req)
        (submit_headers key ids) 202 s

  unfoldable pub get_job_status : String → CallIds → S → S × Answer
  unfolding exchange job_path call_headers
  get_job_status job_id ids s =
      exchange Openapi.get_job_status "GET" (job_path job_id "") none (call_headers ids) 200 s

  unfoldable pub get_job_result : String → CallIds → S → S × Answer
  unfolding exchange job_path call_headers
  get_job_result job_id ids s =
      exchange Openapi.get_job_result "GET" (job_path job_id "/result") none (call_headers ids) 200
        s

  unfoldable pub get_job_deliveries : String → CallIds → S → S × Answer
  unfolding exchange job_path call_headers
  get_job_deliveries job_id ids s =
      exchange Openapi.get_job_deliveries "GET" (job_path job_id "/deliveries") none
        (call_headers ids) 200 s

  unfoldable pub cancel_job : String → CallIds → S → S × Answer
  unfolding exchange job_path call_headers
  cancel_job job_id ids s =
      exchange Openapi.cancel_job "POST" (job_path job_id "/cancel") none (call_headers ids) 202 s

  unfoldable pub replay_job : String → CallIds → S → S × Answer
  unfolding exchange job_path call_headers
  replay_job job_id ids s =
      exchange Openapi.replay_job "POST" (job_path job_id "/replay") none (call_headers ids) 202 s

  unfoldable pub query_expert : QueryRequest → CallIds → S → S × Answer
  unfolding exchange question call_headers
  query_expert req ids s =
      exchange Openapi.query_expert "POST" "/v1/assistant/query" (question req) (call_headers ids)
        200 s

  unfoldable pub get_expert_capabilities : CallIds → S → S × Answer
  unfolding exchange call_headers
  get_expert_capabilities ids s =
      exchange Openapi.get_expert_capabilities "GET" "/v1/assistant/experts" none (call_headers ids)
        200 s

-- The calls that a client can make.
pub data Call : Type 0 where
  submits : SubmitBriefRequest → String → CallIds → Call
  asks_status : String → CallIds → Call
  asks_result : String → CallIds → Call
  asks_deliveries : String → CallIds → Call
  cancels : String → CallIds → Call
  replays : String → CallIds → Call
  queries : QueryRequest → CallIds → Call
  asks_experts : CallIds → Call

unfoldable pub perform : {H S : Type 0} → Libraries H S → Client H → Call → S → S × Answer
unfolding submit_brief_job get_job_status get_job_result get_job_deliveries cancel_job replay_job
    query_expert get_expert_capabilities
perform libs c (submits req key ids) s = submit_brief_job libs c req key ids s
perform libs c (asks_status id ids) s = get_job_status libs c id ids s
perform libs c (asks_result id ids) s = get_job_result libs c id ids s
perform libs c (asks_deliveries id ids) s = get_job_deliveries libs c id ids s
perform libs c (cancels id ids) s = cancel_job libs c id ids s
perform libs c (replays id ids) s = replay_job libs c id ids s
perform libs c (queries req ids) s = query_expert libs c req ids s
perform libs c (asks_experts ids) s = get_expert_capabilities libs c ids s
