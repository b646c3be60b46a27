-- ===== src/Gateway/Examples.antt =====
-- internal/api/gateway/middleware.go at small inputs: the theorems at concrete requests.
use cova.Base.{
  ℕ, zero, suc, ◌+◌, ◌-◌, ◌*◌, ◌%◌, ◌^◌, ◌<◌, ◌≤◌, String, ◌≡◌, refl, Bool, true, false, Option,
  none, some, List, [], ◌∷◌, Dict, lookup, insert, length, ◌=s◌, is_empty, is_blank, trim_space,
  arith, ltb, format_uint,
}
use cova.Base.Fold.{equal_fold}
use cova.Base.Bytes.{fields, byte_length}
use cova.Http.{Request, header, set_header}
use cova.Gateway.Auth.{Principal, grant, authorize, auth_tokens}
use cova.Gateway.Limiter.{Float64, new_limiter, allow, client_key}
use cova.Gateway.Limiter.Bound.{granted, asks, Rises}
use cova.Gateway.Limiter.Window.{after_calls, granted_bound}
use cova.Gateway.Metrics.{new_gateway_metrics, snapshot, forwarded}
use cova.Gateway.Metrics.Log.{Entry, note_all}
use cova.Gateway.Metrics.Log
use cova.Gateway.Metrics.Counts.{Reports, snapshot-Reports}
use cova.Gateway.Handler.{Config, Middleware, Clock, passed, enter, validate_request, valid}
use cova.Gateway.Scoped.{Bearer, named}
use cova.Gateway.Admitted.{Admitted, enter-Admitted}
use cova.Api.{SubmitBriefRequest, Reply}
use cova.Openapi.Dispatch.{Payload, serve_http}
use cova.Orchestrator.Service.{Readings, service}
use cova.Orchestrator.Scope.{Owns}
use cova.Orchestrator.Read.{get_job_status}
use cova.Gateway.Tenants.{bound_tokens_isolate}
use cova.Gateway.Bypass.{slash_bypasses}
use cova.Openapi.{
  find_route, routes, submit_brief_job, job_params, match_path, match_parts, split_path, bind_part,
  param_key, take_route, closed_by_brace, before_brace,
}
use cova.Orchestrator.Types.{Server}
use cova.Orchestrator.Start.{new_server}
use cova.Jobstore.{empty_state}

-- Numbers that are rounded up to an even count of units, 10 ^ 10 to a token.
abbrev even_up : Float64
even_up = record { one = 10 ^ 10; round = λ n. n + n % 2; times = λ rate time. rate * time + 1 }

-- Two requests of one address at a second's distance; a burst of 2, a third of a token a second.
granted_bound_example :
    granted "a"
        (("a", 2000000000) ∷ ("b", 2000000000) ∷ ("a", 3000000000) ∷ [])
        (after_calls (("a", 1000000000) ∷ []) (new_limiter even_up 3 2))
      * 10 ^ 10
    ≤ 2 * 10 ^ 10 + ((3000000000 - 1500000000) * 4 + 2 * (3 * 1))
unfolding Rises asks ◌=s◌
granted_bound_example =
    granted_bound even_up 3 4 1 2 "a" (("a", 1000000000) ∷ [])
      (("a", 2000000000) ∷ ("b", 2000000000) ∷ ("a", 3000000000) ∷ []) 0 1500000000 3000000000
      (omega arith) refl (omega arith) (omega arith) (λ n h. omega arith) (λ time h. omega arith)
      (omega arith, omega arith) (omega arith, (omega arith, (omega arith, omega arith)))

abbrev entry : ℕ → ℕ → Entry
entry status second = record { status = status; outcome = forwarded; second = second }

abbrev log : List Entry
log = entry 200 5 ∷ entry 0 30 ∷ entry 404 65 ∷ []

snapshot-Reports_example : Reports 70 log (snapshot 70 (note_all log new_gateway_metrics))
unfolding Log.Rises
snapshot-Reports_example =
    snapshot-Reports 70 log (omega arith) (omega arith, (omega arith, (omega arith, omega arith)))

abbrev config : Config
config = record {
  auth_enabled = true;
  auth_tokens = [];
  auth_bindings = (record { token = "tok"; tenant_id = "t1"; project_id = "p1" }) ∷ [];
  rate_limit_enabled = false;
  float = even_up;
  rate = 0;
  burst = 0;
  max_body_bytes = 0;
}

abbrev principal : Principal
principal = record { tenant_id = "t1"; project_id = "p1" }

abbrev middleware : Middleware
middleware = record {
  cfg = config;
  known = ("tok", principal) ∷ [];
  limiter = new_limiter even_up 0 0;
  seq = 0;
  metrics = new_gateway_metrics;
}

known_tokens : auth_tokens true [] config.auth_bindings ≡ grant middleware.known
unfolding auth_tokens is_blank trim_space is_empty insert
known_tokens = refl

abbrev clock : Clock
clock = record { stamp = "20260227T000000"; now = 7; second = 1 }

abbrev asking : Request
asking = record {
  method = "GET";
  path = "/v1/assistant/jobs/job_1";
  headers = ("Authorization", "bearer  tok") ∷ [];
  remote_addr = "10.0.0.1:5";
  content_length = none;
  body_limit = none;
}

abbrev trace : String → String
trace s = s

abbrev split_host : String → Option String
split_host s = none

asking-Bearer : Bearer middleware.known asking principal
unfolding header fields equal_fold trim_space is_empty lookup ◌=s◌
asking-Bearer = record {
  scheme = "bearer";
  token = "tok";
  words = refl;
  is_bearer = refl;
  holder = refl;
}

abbrev asked : Request
asked = record asking {
  headers =
      ("Authorization", "bearer  tok")
      ∷ ("X-Request-Id", "gw_20260227T000000_1")
      ∷ ("traceparent", "gw_20260227T000000_1")
      ∷ ("X-Tenant-Id", "t1")
      ∷ ("X-Project-Id", "p1")
      ∷ [];
}

asking_passes : (enter trace split_host clock asking middleware).1 ≡ passed asked
unfolding enter authorize header set_header fields equal_fold trim_space is_empty is_blank lookup
    insert ◌=s◌ byte_length cova.Base.format_uint
asking_passes = refl

enter-Admitted_example : Admitted middleware.known asking asked
enter-Admitted_example =
    enter-Admitted trace split_host clock asking asked middleware refl asking_passes

abbrev server : Server
server = new_server [] [] empty_state

abbrev hash_date : SubmitBriefRequest → Option String
hash_date req = some req.date

abbrev sixth : Readings
sixth = record { stamp = 0; now = 6; later = 6 }

abbrev empty_body : Payload
empty_body = record { submission = none; query = none }

abbrev told : Reply
told = (get_job_status 0 6 (job_params (("job_id", "job_1") ∷ []) asked) server).1

bound_tokens_isolate_example : Owns (trim_space "t1") (trim_space "p1") told.body
unfolding serve_http find_route routes match_path match_parts split_path bind_part param_key
    take_route closed_by_brace before_brace service insert ◌=s◌ is_empty
bound_tokens_isolate_example =
    bound_tokens_isolate trace split_host hash_date none format_uint sixth clock asking asked
      middleware principal empty_body server told refl asking-Bearer refl asking_passes
      (λ params e. cc e) refl

abbrev sneaking : Request
sneaking = record asking {
  method = "POST";
  path = "/v1/assistant/jobs/";
  content_length = some (2 ^ 40);
}

abbrev guarded : Middleware
guarded = record middleware {
  cfg = record config { rate_limit_enabled = true; max_body_bytes = 1000 };
  limiter = new_limiter even_up 3 2;
}

abbrev sneaked : Request
sneaked = record asked {
  method = "POST";
  path = "/v1/assistant/jobs/";
  content_length = some (2 ^ 40);
}

sneaking_granted : authorize guarded.known (named trace clock sneaking guarded) ≡ grant sneaked
unfolding authorize header set_header fields equal_fold trim_space is_empty is_blank lookup insert
    ◌=s◌ cova.Base.format_uint cova.Gateway.Handler.inject_traceparent
    cova.Gateway.Handler.inject_request_id
sneaking_granted = refl

sneaking_allowed : (allow (client_key split_host sneaking) clock.now guarded.limiter).1 ≡ true
unfolding allow new_limiter lookup
sneaking_allowed = refl

slash_bypasses_example :
    ((enter trace split_host clock sneaking guarded).1 ≡ passed sneaked)
    × (sneaked.body_limit ≡ sneaking.body_limit)
    × (find_route routes sneaked ≡ some (submit_brief_job, []))
slash_bypasses_example =
    slash_bypasses trace split_host clock sneaking sneaked guarded refl refl refl refl
      sneaking_granted sneaking_allowed (unfold byte_length header lookup ◌=s◌ in omega arith)
      (unfold byte_length header lookup ◌=s◌ in omega arith)
