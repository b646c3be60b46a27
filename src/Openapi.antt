-- ===== src/Openapi.antt =====
-- internal/api/openapi/server_gen.go: the routes of the server, and what a request says to the
-- operation behind each.
pub mod Dispatch
use cova.Base.{
  String, Bool, true, false, Option, none, some, List, [], ◌∷◌, Dict, lookup, insert, ◌==◌,
  if◌then◌else◌, ◌=s◌, is_empty, trim_space,
}
use Prim.Native.Char.{Char, code}
use cova.Base.Bytes.{split, trim_byte}
use cova.Http.{Request, header, or_blank}
use cova.Orchestrator.Types.{SubmitParams, JobParams}

pub data Operation : Type 0 where
  submit_brief_job : Operation
  get_job_status : Operation
  get_job_result : Operation
  get_job_deliveries : Operation
  cancel_job : Operation
  replay_job : Operation
  query_expert : Operation
  get_expert_capabilities : Operation

pub record Route : Type 0 where
  pub method : String
  pub path : String
  pub operation : Operation

unfoldable pub routes : List Route
routes =
    (record { method = "POST"; path = "/v1/assistant/jobs"; operation = submit_brief_job })
    ∷ (record { method = "GET"; path = "/v1/assistant/jobs/{job_id}"; operation = get_job_status })
    ∷ (record {
      method = "GET";
      path = "/v1/assistant/jobs/{job_id}/result";
      operation = get_job_result;
    })
    ∷ (record {
      method = "GET";
      path = "/v1/assistant/jobs/{job_id}/deliveries";
      operation = get_job_deliveries;
    })
    ∷ (record {
      method = "POST";
      path = "/v1/assistant/jobs/{job_id}/cancel";
      operation = cancel_job;
    })
    ∷ (record {
      method = "POST";
      path = "/v1/assistant/jobs/{job_id}/replay";
      operation = replay_job;
    })
    ∷ (record { method = "POST"; path = "/v1/assistant/query"; operation = query_expert })
    ∷ (record {
      method = "GET";
      path = "/v1/assistant/experts";
      operation = get_expert_capabilities;
    })
    ∷ []

unfoldable pub split_path : String → List String
unfolding trim_byte split
split_path path =
    let trimmed = trim_byte 47 path in if is_empty trimmed then [] else split 47 trimmed

unfoldable pub before_brace : Char → Option String → Option String
before_brace c none = none
before_brace c (some s) = some (String.◌∷◌ c s)

-- The text before a closing brace at the end.
unfoldable pub closed_by_brace : String → Option String
unfolding before_brace
closed_by_brace String.[] = none
closed_by_brace (String.◌∷◌ c String.[]) = if code c == 125 then some String.[] else none
closed_by_brace (String.◌∷◌ c (String.◌∷◌ d s)) = before_brace c (closed_by_brace (String.◌∷◌ d s))

-- The name of a part in braces.
unfoldable pub param_key : String → Option String
unfolding closed_by_brace
param_key String.[] = none
param_key (String.◌∷◌ c s) =
    let inside = closed_by_brace s in if code c == 123 then inside else none

unfoldable pub bind_part :
    Option String → String → String → Option (Dict String) → Option (Dict String)
bind_part key p a none = none
bind_part none p a (some params) = if p =s a then some params else none
bind_part (some key) p a (some params) = some (insert key a params)

unfoldable pub match_parts : List String → List String → Option (Dict String)
unfolding bind_part param_key
match_parts [] [] = some []
match_parts [] (a ∷ actual) = none
match_parts (p ∷ pattern_parts) [] = none
match_parts (p ∷ pattern_parts) (a ∷ actual) =
    bind_part (param_key p) p a (match_parts pattern_parts actual)

unfoldable pub match_path : String → String → Option (Dict String)
unfolding match_parts split_path
match_path path actual = match_parts (split_path path) (split_path actual)

unfoldable pub take_route :
    Bool
    → Operation
    → Option (Dict String)
    → Option (Operation × Dict String)
    → Option (Operation × Dict String)
take_route false op params rest = rest
take_route true op none rest = rest
take_route true op (some params) rest = some (op, params)

-- The loop of `ServeHTTP`: the first route of the method whose path matches.
unfoldable pub find_route : List Route → Request → Option (Operation × Dict String)
unfolding take_route match_path
find_route [] r = none
find_route (route ∷ more) r =
    take_route (r.method =s route.method) route.operation (match_path route.path r.path)
      (find_route more r)

unfoldable pub trimmed_header : String → Request → String
trimmed_header name r = trim_space (header name r)

unfoldable pub submit_params : Request → SubmitParams
unfolding trimmed_header
submit_params r = record {
  request_id = trimmed_header "X-Request-Id" r;
  idempotency_key = trimmed_header "Idempotency-Key" r;
  tenant_id = trimmed_header "X-Tenant-Id" r;
  project_id = trimmed_header "X-Project-Id" r;
}

unfoldable pub job_params : Dict String → Request → JobParams
unfolding trimmed_header or_blank
job_params params r = record {
  request_id = trimmed_header "X-Request-Id" r;
  job_id = or_blank (lookup "job_id" params);
  tenant_id = trimmed_header "X-Tenant-Id" r;
  project_id = trimmed_header "X-Project-Id" r;
}
