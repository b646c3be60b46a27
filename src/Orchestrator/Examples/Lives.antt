-- ===== src/Orchestrator/Examples/Lives.antt =====
-- internal/orchestrator/server.go with its handler and through restarts, at concrete inputs.
use cova.Base.{◌+◌, ◌^◌, ◌<◌, refl, [], ◌∷◌, none, arith, length, format_uint}
use cova.Api.{Reply}
use cova.Http.{Request, header, or_blank}
use cova.Jobstore.{empty_state}
use cova.Openapi.{
  routes, find_route, match_path, match_parts, split_path, bind_part, param_key, take_route,
  closed_by_brace, before_brace, trimmed_header,
}
use cova.Openapi.Dispatch.{Payload, serve_http}
use cova.Orchestrator.Types.{JobParams}
use cova.Orchestrator.Persist.{snapshot}
use cova.Orchestrator.Read.{get_job_status}
use cova.Orchestrator.System.{run}
use cova.Orchestrator.Consistent.{IsConsistent}
use cova.Orchestrator.Service.{Readings, service}
use cova.Orchestrator.Scope.{Owns}
use cova.Orchestrator.Served.{served-Owns}
use cova.Orchestrator.History.{Life, started, total, stored, history-IsConsistent}
use cova.Orchestrator.Settled.{Canceled, history_keeps_canceled}
use cova.Orchestrator.Examples.{
  program, macro_expert, hash_date, later_actions, submitting, submitted_system, canceled_system,
  canceled_first, canceled_found, canceled-IsConsistent,
}

abbrev asking : Request
asking = record {
  method = "GET";
  path = "/v1/assistant/jobs/job_1";
  headers = ("X-Tenant-Id", "t1") ∷ ("X-Project-Id", " p1") ∷ [];
  remote_addr = "";
  content_length = none;
  body_limit = none;
}

abbrev empty_body : Payload
empty_body = record { submission = none; query = none }

abbrev sixth : Readings
sixth = record { stamp = 0; now = 6; later = 6 }

abbrev asked : JobParams
asked = record { request_id = ""; job_id = "job_1"; tenant_id = "t1"; project_id = "p1" }

abbrev told : Reply
told = (get_job_status 0 6 asked submitted_system.server).1

served-Owns_example :
    Owns (trimmed_header "X-Tenant-Id" asking) (trimmed_header "X-Project-Id" asking) told.body
unfolding program serve_http find_route routes match_path match_parts split_path bind_part param_key
    take_route closed_by_brace before_brace trimmed_header header or_blank service
served-Owns_example =
    served-Owns hash_date none format_uint sixth asking empty_body submitted_system.server told
      (λ params e. cc e) refl

abbrev first_life : Life
first_life = record { experts = macro_expert ∷ []; settings = []; actions = submitting ∷ [] }

abbrev second_life : Life
second_life = record { experts = macro_expert ∷ []; settings = []; actions = later_actions }

history-IsConsistent_example :
    IsConsistent
      (run hash_date
        (started second_life (stored hash_date (first_life ∷ []) empty_state))
        later_actions).server
history-IsConsistent_example =
    history-IsConsistent hash_date (first_life ∷ []) second_life (unfold total in omega arith)

abbrev idle_life : Life
idle_life = record { experts = []; settings = []; actions = [] }

canceled_room :
    canceled_system.server.next_id + total (idle_life ∷ []) + length later_actions < 2 ^ 64
unfolding program total
canceled_room = omega arith

history_keeps_canceled_example :
    Canceled "job_1" canceled_first
      (run hash_date
        (started second_life (stored hash_date (idle_life ∷ []) (snapshot canceled_system.server)))
        later_actions).server
history_keeps_canceled_example =
    history_keeps_canceled hash_date canceled_system.server "job_1" canceled_first (idle_life ∷ [])
      second_life canceled-IsConsistent canceled_found refl canceled_room (tt, tt)
      ((λ e. cc), ((λ e. cc), tt))
