-- ===== src/Sdk/Refused.antt =====
-- sdk/go/cova/client_gen.go against the handler of internal/api/openapi/server_gen.go over
-- internal/orchestrator/server.go: what a client's calls come to when nothing stands between.
use cova.Base.{
  ℕ, String, ◌+s◌, ◌≡◌, refl, Bool, Option-cases, true, false, Option, none, some, List, inl, inr,
  ◌⊎◌, Dict, is_blank, ◌==◌,
}
use cova.Api.{SubmitBriefRequest, Reply, Body, Problem}
use cova.Http.{Request}
use cova.Webhook.Dispatcher.{DeliveryRecord}
use cova.Openapi
use cova.Openapi.{routes, find_route, Operation}
use cova.Openapi.Dispatch.{Payload, serve_http, dispatch_found}
use cova.Orchestrator.Types.{Server}
use cova.Orchestrator.Service.{Readings, service}
use cova.Orchestrator.Unscoped.{unscoped, code_of, unscoped_refused}
use cova.Sdk.{
  Client, Libraries, Exchange, response, Answer, accepted, problem, call_failed, answer, problem_or,
  received, json_request, do_json, body_error, marshalled, send_request, payload,
}
use cova.Sdk.Calls.{
  Call, perform, submission, question, job_path, exchange, submits, asks_status, asks_result,
  asks_deliveries, cancels, replays, queries, asks_experts, call_headers, submit_headers,
  submit_brief_job, get_job_status, get_job_result, get_job_deliveries, cancel_job, replay_job,
  query_expert, get_expert_capabilities,
}
use cova.Sdk.Silent.{
  IsSilent, spares, json_request-IsSilent, call_headers-spares, submit_headers-spares,
}

unfoldable pub returns_value : Answer → Bool
returns_value (accepted body) = true
returns_value (problem p) = false
returns_value (call_failed e) = false

abbrev pub Declined : Answer → Type 0
Declined a = returns_value a ≡ false

problem_or-Declined : (status : ℕ) (p : Option Problem) → Declined (problem_or status p)
unfolding problem_or returns_value
problem_or-Declined status none = refl
problem_or-Declined status (some p) = refl

answer-Declined :
    (expected status : ℕ) (decode : String → String ⊎ Body)
    (decode_problem : String → Option Problem) (text : String)
    → status == expected ≡ false
    → Declined (answer expected decode (received decode_problem (response status text)))
unfolding answer received
answer-Declined expected status decode decode_problem text e = rw e (problem_or-Declined status _)

lost_code :
    (hash_request : SubmitBriefRequest → Option String)
    (reader : Option (String → Option (List DeliveryRecord))) (render : ℕ → String) (c : Readings)
    (r : Request) (body : Payload) (s : Server)
    → find_route routes r ≡ none
    → code_of (serve_http (service hash_request reader render c) r body s).1 ≡ 404
unfolding serve_http dispatch_found code_of
lost_code hash_request reader render c r body s e = rw e refl

module _ (hash_request : SubmitBriefRequest → Option String)
    (reader : Option (String → Option (List DeliveryRecord))) (render : ℕ → String) (c : Readings)
    {H : Type 0} (encode : Option Reply → String) where
  -- An http client that reaches the server, with nothing between.
  unfoldable pub direct : H → Request → Payload → Server → Server × Exchange
  direct h r body s =
      let served = serve_http (service hash_request reader render c) r body s in
      (served.0, response (code_of served.1) (encode served.1))

  unfoldable pub connected : Libraries H Server → Libraries H Server
  unfolding direct
  connected libs = record libs { send = direct }

  direct_refused :
      (h : H) (r : Request) (body : Payload) (s : Server) (expected : ℕ)
      (decode : String → String ⊎ Body) (decode_problem : String → Option Problem)
      → IsSilent r
      → 400 == expected ≡ false
      → 404 == expected ≡ false
      → ((direct h r body s).0 ≡ s)
        × Declined (answer expected decode (received decode_problem (direct h r body s).1))
  unfolding direct unscoped is_blank
  direct_refused h r body s expected decode decode_problem e f g =
      let refused = unscoped_refused hash_request reader render c r body s (rw e refl) in
      (
        refused.0,
        elim refused.1 [
          | inl told ↦ answer-Declined expected _ decode decode_problem _ (rw told f)
          | inr lost ↦
              answer-Declined expected _ decode decode_problem _
                (rw (lost_code hash_request reader render c r body s lost) g)
        ],
      )

  send_refused :
      (libs : Libraries H Server) (client : Client H) (op : Operation) (method : String)
      (body : Option Payload) (headers : Dict String) (expected : ℕ) (s : Server)
      → spares headers ≡ true
      → 400 == expected ≡ false
      → 404 == expected ≡ false
      → (u : String ⊎ String)
      → ((send_request (connected libs) client method body headers u s).0 ≡ s)
        × Declined (
            answer expected
              (libs.decode op)
              (send_request (connected libs) client method body headers u s).1)
  unfolding send_request connected answer returns_value
  send_refused libs client op method body headers expected s e f g (inl m) = (refl, refl)
  send_refused libs client op method body headers expected s e f g (inr place) =
      direct_refused client.http_client (json_request client.token method place body headers)
        (payload body) s expected (libs.decode op) libs.decode_problem
        (json_request-IsSilent client.token method place body headers e) f g

  exchange_refused :
      (libs : Libraries H Server) (client : Client H) (op : Operation) (method path : String)
      (body : Option Payload) (headers : Dict String) (expected : ℕ) (s : Server)
      → spares headers ≡ true
      → 400 == expected ≡ false
      → 404 == expected ≡ false
      → ((exchange (connected libs) client op method path body headers expected s).0 ≡ s)
        × Declined (exchange (connected libs) client op method path body headers expected s).1
  unfolding exchange do_json marshalled connected answer returns_value
  exchange_refused libs client op method path body headers expected s e f g =
      elim (Option-cases (body_error libs.marshal_error body)) [
        | inr (m, failed) ↦ rw failed (refl, refl)
        | inl fine ↦ rw fine (
            send_refused libs client op method body headers expected s e f g
              (libs.url_path (client.base_url +s path)))
      ]

  -- An http client that reaches the server with nothing between gets nothing done: whatever it
  -- calls, and whatever tenant and project it names in the call, the server stays as it is, and the
  -- call does not return a value.
  pub client_refused :
      (libs : Libraries H Server) (client : Client H) (call : Call) (s : Server)
      → ((perform (connected libs) client call s).0 ≡ s)
        × Declined (perform (connected libs) client call s).1
  unfolding perform submit_brief_job get_job_status get_job_result get_job_deliveries cancel_job
      replay_job query_expert get_expert_capabilities
  client_refused libs client (submits req key ids) s =
      exchange_refused libs client Openapi.submit_brief_job "POST" "/v1/assistant/jobs"
        (submission req) (submit_headers key ids) 202 s (submit_headers-spares key ids) refl refl
  client_refused libs client (asks_status id ids) s =
      exchange_refused libs client Openapi.get_job_status "GET" (job_path id "") none
        (call_headers ids) 200 s (call_headers-spares ids) refl refl
  client_refused libs client (asks_result id ids) s =
      exchange_refused libs client Openapi.get_job_result "GET" (job_path id "/result") none
        (call_headers ids) 200 s (call_headers-spares ids) refl refl
  client_refused libs client (asks_deliveries id ids) s =
      exchange_refused libs client Openapi.get_job_deliveries "GET" (job_path id "/deliveries") none
        (call_headers ids) 200 s (call_headers-spares ids) refl refl
  client_refused libs client (cancels id ids) s =
      exchange_refused libs client Openapi.cancel_job "POST" (job_path id "/cancel") none
        (call_headers ids) 202 s (call_headers-spares ids) refl refl
  client_refused libs client (replays id ids) s =
      exchange_refused libs client Openapi.replay_job "POST" (job_path id "/replay") none
        (call_headers ids) 202 s (call_headers-spares ids) refl refl
  client_refused libs client (queries req ids) s =
      exchange_refused libs client Openapi.query_expert "POST" "/v1/assistant/query" (question req)
        (call_headers ids) 200 s (call_headers-spares ids) refl refl
  client_refused libs client (asks_experts ids) s =
      exchange_refused libs client Openapi.get_expert_capabilities "GET" "/v1/assistant/experts"
        none (call_headers ids) 200 s (call_headers-spares ids) refl refl
