-- ===== src/Orchestrator/Examples/Totals.antt =====
-- `MetricsSnapshot` of internal/orchestrator/server.go on two jobs.
use cova.Base.{◌≡◌, refl, [], ◌∷◌, lookup, insert, ◌=s◌}
use cova.Api.{failed}
use cova.Orchestrator.Types.{Server}
use cova.Orchestrator.Metrics.{metrics_snapshot, by_status, TenantMetrics, result_tokens}
use cova.Orchestrator.Sums.{total, metrics_add_up}
use cova.Orchestrator.Examples.{program, fresh_server, queued_job}

abbrev two_jobs : Server
two_jobs = record fresh_server {
  jobs =
      ("job_1", queued_job)
      ∷ ("job_2", record queued_job { id = "job_2"; status = failed; attempt = 3 })
      ∷ [];
}

totals_by_status :
    (metrics_snapshot two_jobs).by_status
    ≡ ("queued", 1)
      ∷ ("running", 0)
      ∷ ("succeeded", 0)
      ∷ ("failed", 1)
      ∷ ("canceled", 0)
      ∷ ("expired", 0)
      ∷ []
unfolding program metrics_snapshot by_status lookup insert ◌=s◌
totals_by_status = refl

metrics_add_up_example :
    let m = metrics_snapshot two_jobs in
    (total (λ n. n) m.by_status ≡ 2)
    × (total (λ (t : TenantMetrics). t.jobs_total) m.by_tenant ≡ 2)
    × (total (λ (t : TenantMetrics). t.retry_count) m.by_tenant ≡ 2)
    × (total (λ (t : TenantMetrics). t.estimated_tokens) m.by_tenant ≡ 0)
unfolding metrics_snapshot total result_tokens
metrics_add_up_example = metrics_add_up two_jobs
