-- ===== src/Sdk/Routed.antt =====
-- sdk/go/cova/client_gen.go against the routes of internal/api/openapi/server_gen.go: which operation
-- a client's call reaches, with which job.
use cova.Base.{
  ℕ, String, ◌+s◌, ◌≡◌, refl, ◌∙◌, Bool, Bool-cases, true, false, not, Option, none, some, List, [],
  ◌∷◌, inl, inr, Dict, insert, is_empty, is_blank, ◌=s◌,
}
use cova.Base.Bytes.{trim_byte}
use cova.Base.Split.{lacks}
use cova.Http.{Request, set_header}
use cova.Openapi
use cova.Openapi.{
  routes, find_route, Operation, split_path, match_path, match_parts, bind_part, param_key,
  take_route, closed_by_brace, before_brace,
}
use cova.Openapi.Dispatch.{Payload}
use cova.Sdk.{
  Client, Libraries, send_error, json_request, body_error, do_json, marshalled, send_request,
  set_headers, set_when, has_body, set_unless_blank,
}
use cova.Sdk.Silent.{plain_request}
use cova.Sdk.Calls.{
  Call, perform, submission, question, job_path, exchange, submits, asks_status, asks_result,
  asks_deliveries, cancels, replays, queries, asks_experts, call_headers, submit_headers,
  submit_brief_job, get_job_status, get_job_result, get_job_deliveries, cancel_job, replay_job,
  query_expert, get_expert_capabilities,
}
use cova.Sdk.Paths.{is_part, short_parts, long_parts}

-- `find_route` on the parts of a path.
find_parts : List Openapi.Route → String → List String → Option (Operation × Dict String)
unfolding take_route match_parts split_path
find_parts [] method parts = none
find_parts (route ∷ more) method parts =
    take_route (method =s route.method) route.operation (match_parts (split_path route.path) parts)
      (find_parts more method parts)

find_route-parts :
    (table : List Openapi.Route) (r : Request)
    → find_route table r ≡ find_parts table r.method (split_path r.path)
unfolding find_route find_parts match_path
find_route-parts [] r = refl
find_route-parts (route ∷ more) r = rw (find_route-parts more r) refl

routed_by :
    (r : Request) (method path : String) (parts : List String)
    (found : Option (Operation × Dict String))
    → (r.method ≡ method) × (r.path ≡ path)
    → split_path path ≡ parts
    → find_parts routes method parts ≡ found
    → find_route routes r ≡ found
routed_by r method path parts found (e, f) g h = find_route-parts routes r ∙ (rw (e, f, g) h)

-- Setting headers leaves the method and the path.
abbrev Aims : String → String → Request → Type 0
Aims method path r = (r.method ≡ method) × (r.path ≡ path)

set_when-Aims :
    (b : Bool) (name value method path : String) (r : Request)
    → Aims method path r
    → Aims method path (set_when b name value r)
unfolding set_when set_header
set_when-Aims true name value method path r h = h
set_when-Aims false name value method path r h = h

set_unless_blank-Aims :
    (name value method path : String) (r : Request)
    → Aims method path r
    → Aims method path (set_unless_blank name value r)
unfolding set_unless_blank set_header
set_unless_blank-Aims name value method path r h = elim (Bool-cases (is_blank value)) [
  | inl b ↦ rw b h
  | inr b ↦ rw b h
]

set_headers-Aims :
    (headers : Dict String) (method path : String) (r : Request)
    → Aims method path r
    → Aims method path (set_headers headers r)
unfolding set_headers
set_headers-Aims [] method path r h = h
set_headers-Aims ((name, value) ∷ headers) method path r h =
    set_headers-Aims headers method path (set_unless_blank name value r)
      (set_unless_blank-Aims name value method path r h)

json_request-Aims :
    (token method path : String) (body : Option Payload) (headers : Dict String)
    → Aims method path (json_request token method path body headers)
unfolding json_request set_header
json_request-Aims token method path body headers = set_headers-Aims headers method path _ (
    set_when-Aims (not (is_empty token)) "Authorization" ("Bearer " +s token) method path _ (
      set_when-Aims (has_body body) "Content-Type" "application/json" method path
        (plain_request method path) (refl, refl)))

-- An http client that notes the operation that the routes of the server find for a request.
unfoldable pub noting :
    {H : Type 0}
    → Libraries H (Option (Operation × Dict String))
    → Libraries H (Option (Operation × Dict String))
unfolding find_route routes
noting libs = record libs { send = λ h r body s. (find_route routes r, send_error "") }

exchange-routed :
    {H : Type 0}
    → (libs : Libraries H (Option (Operation × Dict String))) (client : Client H) (op : Operation)
      (method path : String) (parts : List String) (body : Option Payload) (headers : Dict String)
      (expected : ℕ) (found : Option (Operation × Dict String))
    → body_error libs.marshal_error body ≡ none
    → libs.url_path (client.base_url +s path) ≡ inr path
    → split_path path ≡ parts
    → find_parts routes method parts ≡ found
    → (exchange (noting libs) client op method path body headers expected none).0 ≡ found
unfolding exchange do_json marshalled send_request noting
exchange-routed libs client op method path parts body headers expected found e f g h =
    rw (e, f)
      (routed_by (json_request client.token method path body headers) method path parts found
        (json_request-Aims client.token method path body headers) g h)

-- The path that a call writes.
unfoldable pub path_of : Call → String
unfolding job_path
path_of (submits req key ids) = "/v1/assistant/jobs"
path_of (asks_status id ids) = job_path id ""
path_of (asks_result id ids) = job_path id "/result"
path_of (asks_deliveries id ids) = job_path id "/deliveries"
path_of (cancels id ids) = job_path id "/cancel"
path_of (replays id ids) = job_path id "/replay"
path_of (queries req ids) = "/v1/assistant/query"
path_of (asks_experts ids) = "/v1/assistant/experts"

abbrev job_id_is : String → Dict String
job_id_is id = ("job_id", id) ∷ []

-- The operation that a call means, with the parameters of its path.
unfoldable pub meant : Call → Operation × Dict String
meant (submits req key ids) = (Openapi.submit_brief_job, [])
meant (asks_status id ids) = (Openapi.get_job_status, job_id_is id)
meant (asks_result id ids) = (Openapi.get_job_result, job_id_is id)
meant (asks_deliveries id ids) = (Openapi.get_job_deliveries, job_id_is id)
meant (cancels id ids) = (Openapi.cancel_job, job_id_is id)
meant (replays id ids) = (Openapi.replay_job, job_id_is id)
meant (queries req ids) = (Openapi.query_expert, [])
meant (asks_experts ids) = (Openapi.get_expert_capabilities, [])

-- The id of a call is one part of a path, where it has one.
unfoldable pub is_addressed : Call → Bool
unfolding is_part
is_addressed (submits req key ids) = true
is_addressed (asks_status id ids) = is_part id
is_addressed (asks_result id ids) = is_part id
is_addressed (asks_deliveries id ids) = is_part id
is_addressed (cancels id ids) = is_part id
is_addressed (replays id ids) = is_part id
is_addressed (queries req ids) = true
is_addressed (asks_experts ids) = true

-- Each call of a client reaches the operation that it means, with the job that it names: where the
-- bodies can be marshalled, the URL of the call has the path that the call wrote behind the base URL,
-- and the id is one part of a path.
pub call_routed :
    {H : Type 0}
    → (libs : Libraries H (Option (Operation × Dict String))) (client : Client H) (call : Call)
    → ((b : Payload) → libs.marshal_error b ≡ none)
    → libs.url_path (client.base_url +s path_of call) ≡ inr (path_of call)
    → is_addressed call ≡ true
    → (perform (noting libs) client call none).0 ≡ some (meant call)
unfolding perform submit_brief_job get_job_status get_job_result get_job_deliveries cancel_job
    replay_job query_expert get_expert_capabilities path_of meant is_addressed body_error submission
    question find_parts routes match_parts bind_part param_key take_route closed_by_brace
    before_brace ◌=s◌ insert is_empty split_path trim_byte lacks
call_routed libs client (asks_status id ids) m u h =
    exchange-routed libs client Openapi.get_job_status "GET" (job_path id "")
      ("v1" ∷ "assistant" ∷ "jobs" ∷ id ∷ []) none (call_headers ids) 200
      (some (Openapi.get_job_status, job_id_is id)) refl u (short_parts id h) refl
call_routed libs client (asks_result id ids) m u h =
    exchange-routed libs client Openapi.get_job_result "GET" (job_path id "/result")
      ("v1" ∷ "assistant" ∷ "jobs" ∷ id ∷ "result" ∷ []) none (call_headers ids) 200
      (some (Openapi.get_job_result, job_id_is id)) refl u (long_parts id "result" h refl refl) refl
call_routed libs client (asks_deliveries id ids) m u h =
    exchange-routed libs client Openapi.get_job_deliveries "GET" (job_path id "/deliveries")
      ("v1" ∷ "assistant" ∷ "jobs" ∷ id ∷ "deliveries" ∷ []) none (call_headers ids) 200
      (some (Openapi.get_job_deliveries, job_id_is id)) refl u
      (long_parts id "deliveries" h refl refl) refl
call_routed libs client (cancels id ids) m u h =
    exchange-routed libs client Openapi.cancel_job "POST" (job_path id "/cancel")
      ("v1" ∷ "assistant" ∷ "jobs" ∷ id ∷ "cancel" ∷ []) none (call_headers ids) 202
      (some (Openapi.cancel_job, job_id_is id)) refl u (long_parts id "cancel" h refl refl) refl
call_routed libs client (replays id ids) m u h =
    exchange-routed libs client Openapi.replay_job "POST" (job_path id "/replay")
      ("v1" ∷ "assistant" ∷ "jobs" ∷ id ∷ "replay" ∷ []) none (call_headers ids) 202
      (some (Openapi.replay_job, job_id_is id)) refl u (long_parts id "replay" h refl refl) refl
call_routed libs client (submits req key ids) m u h =
    exchange-routed libs client Openapi.submit_brief_job "POST" "/v1/assistant/jobs"
      ("v1" ∷ "assistant" ∷ "jobs" ∷ []) (submission req) (submit_headers key ids) 202
      (some (Openapi.submit_brief_job, [])) (m _) u refl refl
call_routed libs client (queries req ids) m u h =
    exchange-routed libs client Openapi.query_expert "POST" "/v1/assistant/query"
      ("v1" ∷ "assistant" ∷ "query" ∷ []) (question req) (call_headers ids) 200
      (some (Openapi.query_expert, [])) (m _) u refl refl
call_routed libs client (asks_experts ids) m u h =
    exchange-routed libs client Openapi.get_expert_capabilities "GET" "/v1/assistant/experts"
      ("v1" ∷ "assistant" ∷ "experts" ∷ []) none (call_headers ids) 200
      (some (Openapi.get_expert_capabilities, [])) refl u refl refl
