-- ===== src/Orchestrator/Service.antt =====
-- internal/orchestrator/server.go: `Server` as the implementation of `openapi.ServerInterface`, at the
-- readings of the clock in one request.
use cova.Base.{ℕ, String, Option, List}
use cova.Api.{SubmitBriefRequest, Reply}
use cova.Webhook.Dispatcher.{DeliveryRecord}
use cova.Openapi.Dispatch.{ServerInterface, Result, replied}
use cova.Orchestrator.Types.{Server}
use cova.Orchestrator.Submit.{submit_brief_job}
use cova.Orchestrator.Read.{get_job_status, get_job_result}
use cova.Orchestrator.Control.{cancel_job, replay_job}
use cova.Orchestrator.Inquiry.{get_job_deliveries, query_expert, get_expert_capabilities}

-- The readings of the clock: for a missing request id, for the expiry and for `UpdatedAt`.
pub record Readings : Type 0 where
  pub stamp : ℕ
  pub now : ℕ
  pub later : ℕ

-- No method of the server returns an error.
unfoldable pub answered : Server × Reply → Server × Result
answered (s, reply) = (s, replied reply)

module _ (hash_request : SubmitBriefRequest → Option String)
    (reader : Option (String → Option (List DeliveryRecord))) (render : ℕ → String) where
  unfoldable pub service : Readings → ServerInterface Server
  unfolding answered submit_brief_job get_job_status get_job_result get_job_deliveries cancel_job
      replay_job query_expert get_expert_capabilities
  service c = record {
    submit_brief_job = λ p req s. answered (submit_brief_job hash_request c.stamp c.now p req s);
    get_job_status = λ p s. answered (get_job_status c.stamp c.now p s);
    get_job_result = λ p s. answered (get_job_result c.stamp c.now p s);
    get_job_deliveries = λ p s. answered (get_job_deliveries reader c.stamp c.now p s);
    cancel_job = λ p s. answered (cancel_job c.stamp c.now c.later p s);
    replay_job = λ p s. answered (replay_job c.stamp c.now c.later p s);
    query_expert = λ p req s. answered (query_expert render c.stamp c.now p req s);
    get_expert_capabilities = λ p s. answered (get_expert_capabilities c.stamp p s);
  }
