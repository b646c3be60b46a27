-- ===== src/Orchestrator/Metrics.antt =====
-- internal/orchestrator/server.go: `MetricsSnapshot`, without its time. Counters are Go's int, which
-- no number of jobs held in memory fills.
use cova.Base.{ℕ, ◌+◌, ◌-◌, String, ◌+s◌, Option, none, some, [], ◌∷◌, Dict, lookup, insert, length}
use cova.Api.{JobStatus, queued, running, succeeded, failed, canceled, expired, other, ExpertResult}
use cova.Orchestrator.Queue.{depth}
use cova.Orchestrator.Rules.{estimate_tokens}
use cova.Orchestrator.Types.{Job, Server}

-- The six counts of a tenant.
pub record Counts : Type 0 where
  pub queued_jobs : ℕ
  pub running_jobs : ℕ
  pub succeeded_jobs : ℕ
  pub failed_jobs : ℕ
  pub canceled_jobs : ℕ
  pub expired_jobs : ℕ

unfoldable pub no_counts : Counts
no_counts = record {
  queued_jobs = 0;
  running_jobs = 0;
  succeeded_jobs = 0;
  failed_jobs = 0;
  canceled_jobs = 0;
  expired_jobs = 0;
}

unfoldable pub tally : JobStatus → Counts → Counts
tally queued c = record c { queued_jobs = c.queued_jobs + 1 }
tally running c = record c { running_jobs = c.running_jobs + 1 }
tally succeeded c = record c { succeeded_jobs = c.succeeded_jobs + 1 }
tally failed c = record c { failed_jobs = c.failed_jobs + 1 }
tally canceled c = record c { canceled_jobs = c.canceled_jobs + 1 }
tally expired c = record c { expired_jobs = c.expired_jobs + 1 }
tally (other text) c = c

unfoldable pub status_text : JobStatus → String
status_text queued = "queued"
status_text running = "running"
status_text succeeded = "succeeded"
status_text failed = "failed"
status_text canceled = "canceled"
status_text expired = "expired"
status_text (other text) = text

unfoldable pub or_zero : Option ℕ → ℕ
or_zero none = 0
or_zero (some n) = n

-- `out.ByStatus[item.Status]++`
unfoldable pub add_status : JobStatus → Dict ℕ → Dict ℕ
unfolding status_text or_zero
add_status status counts =
    let key = status_text status in insert key (or_zero (lookup key counts) + 1) counts

unfoldable pub zero_by_status : Dict ℕ
zero_by_status =
    ("queued", 0)
    ∷ ("running", 0)
    ∷ ("succeeded", 0)
    ∷ ("failed", 0)
    ∷ ("canceled", 0)
    ∷ ("expired", 0)
    ∷ []

pub record TenantMetrics : Type 0 where
  pub tenant_id : String
  pub project_id : String
  pub jobs_total : ℕ
  pub counts : Counts
  pub retry_count : ℕ
  pub estimated_tokens : ℕ

unfoldable pub kept_tenant : Option TenantMetrics → TenantMetrics
unfolding no_counts
kept_tenant none = record {
  tenant_id = "";
  project_id = "";
  jobs_total = 0;
  counts = no_counts;
  retry_count = 0;
  estimated_tokens = 0;
}
kept_tenant (some t) = t

unfoldable pub result_tokens : Option ExpertResult → ℕ
unfolding estimate_tokens
result_tokens none = 0
result_tokens (some r) = estimate_tokens r.answer

unfoldable pub add_job : Job → TenantMetrics → TenantMetrics
unfolding tally result_tokens
add_job j t = record {
  tenant_id = j.tenant_id;
  project_id = j.project_id;
  jobs_total = t.jobs_total + 1;
  counts = tally j.status t.counts;
  retry_count = t.retry_count + (j.attempt - 1);
  estimated_tokens = t.estimated_tokens + result_tokens j.result;
}

unfoldable pub add_tenant : Job → Dict TenantMetrics → Dict TenantMetrics
unfolding add_job kept_tenant
add_tenant j tenants =
    let key = j.tenant_id +s ("::" +s j.project_id) in
    insert key (add_job j (kept_tenant (lookup key tenants))) tenants

-- The loop over the jobs.
unfoldable pub by_status : Dict Job → Dict ℕ → Dict ℕ
unfolding add_status
by_status [] counts = counts
by_status ((id, j) ∷ jobs) counts = by_status jobs (add_status j.status counts)

unfoldable pub by_tenant : Dict Job → Dict TenantMetrics → Dict TenantMetrics
unfolding add_tenant
by_tenant [] tenants = tenants
by_tenant ((id, j) ∷ jobs) tenants = by_tenant jobs (add_tenant j tenants)

pub record MetricsSnapshot : Type 0 where
  pub queue_depth : ℕ
  pub jobs_total : ℕ
  pub dlq_total : ℕ
  pub by_status : Dict ℕ
  pub by_tenant : Dict TenantMetrics

unfoldable pub metrics_snapshot : Server → MetricsSnapshot
unfolding by_status by_tenant zero_by_status depth
metrics_snapshot s = record {
  queue_depth = depth s.queue;
  jobs_total = length s.jobs;
  dlq_total = length s.dlq;
  by_status = by_status s.jobs zero_by_status;
  by_tenant = by_tenant s.jobs [];
}
