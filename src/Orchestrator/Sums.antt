-- ===== src/Orchestrator/Sums.antt =====
-- `MetricsSnapshot` of internal/orchestrator/server.go: its sums over the statuses and the tenants.
use cova.Base.{
  ℕ, ◌+◌, ◌-◌, String, ◌+s◌, ◌≡◌, refl, sym, ◌∙◌, inl, inr, Option, none, some, [], ◌∷◌, Dict,
  length, lookup, insert, arith, Bool-cases, ◌=s◌, map_option,
}
use cova.Orchestrator.Types.{Job, Server}
use cova.Orchestrator.Metrics.{
  TenantMetrics, metrics_snapshot, by_status, by_tenant, add_status, add_tenant, add_job,
  kept_tenant, or_zero, zero_by_status, status_text, result_tokens,
}

-- The sum over the entries of a map.
unfoldable pub total {ℓ} : {V : Type ℓ} → (V → ℕ) → Dict V → ℕ
total f [] = 0
total f ((k, v) ∷ m) = f v + total f m

-- What a setting adds is the new value less the old one.
total-insert {ℓ} :
    {V : Type ℓ} (f : V → ℕ) (k : String) (v : V) (m : Dict V)
    → total f (insert k v m) + or_zero (map_option f (lookup k m)) ≡ total f m + f v
unfolding total insert lookup or_zero
total-insert f k v [] = omega arith
total-insert f k v ((j, w) ∷ m) = elim (Bool-cases (j =s k)) [
  | inl e ↦ rw e (omega arith)
  | inr e ↦ rw e (omega (arith, total-insert f k v m))
]

total-by_status :
    (jobs : Dict Job) (counts : Dict ℕ)
    → total (λ n. n) (by_status jobs counts) ≡ total (λ n. n) counts + length jobs
unfolding by_status add_status
total-by_status [] counts = omega arith
total-by_status ((id, j) ∷ jobs) counts =
    let key = status_text j.status in
    let old = lookup key counts in
    let step = total-insert (λ n. n) key (or_zero old + 1) counts in
    omega (arith, total-by_status jobs (insert key (or_zero old + 1) counts), step, same_option old)
  where
    same_option : (o : Option ℕ) → or_zero (map_option (λ n. n) o) ≡ or_zero o
    same_option none = refl
    same_option (some n) = refl

-- A count of the tenants to which each job adds its share, and which is 0 for a new tenant.
module _ (f : TenantMetrics → ℕ) (share : Job → ℕ) (new : f (kept_tenant none) ≡ 0)
    (adds : (j : Job) (t : TenantMetrics) → f (add_job j t) ≡ f t + share j) where
  kept_count : (o : Option TenantMetrics) → or_zero (map_option f o) ≡ f (kept_tenant o)
  unfolding or_zero
  kept_count none = sym new
  kept_count (some t) = unfold kept_tenant in refl

  total-by_tenant :
      (jobs : Dict Job) (tenants : Dict TenantMetrics)
      → total f (by_tenant jobs tenants) ≡ total f tenants + total share jobs
  unfolding by_tenant add_tenant total
  total-by_tenant [] tenants = omega arith
  total-by_tenant ((id, j) ∷ jobs) tenants =
      let key = j.tenant_id +s ("::" +s j.project_id) in
      let old = lookup key tenants in
      let next = add_job j (kept_tenant old) in
      omega (
        arith,
        total-insert f key next tenants,
        kept_count old,
        adds j (kept_tenant old),
        total-by_tenant jobs (insert key next tenants),
      )

  total-by_all_tenants : (jobs : Dict Job) → total f (by_tenant jobs []) ≡ total share jobs
  total-by_all_tenants jobs = total-by_tenant jobs [] ∙ (unfold total in omega arith)

total-by_all_statuses :
    (jobs : Dict Job) → total (λ n. n) (by_status jobs zero_by_status) ≡ length jobs
total-by_all_statuses jobs =
    total-by_status jobs zero_by_status ∙ (unfold zero_by_status total in omega arith)

total_ones : (jobs : Dict Job) → total (λ j. 1) jobs ≡ length jobs
unfolding total
total_ones [] = refl
total_ones (e ∷ jobs) = omega (arith, total_ones jobs)

-- The counts of a snapshot over the statuses, and those over the tenants, add up to the number of
-- jobs; the retries and the estimated tokens of the tenants add up to those of the jobs.
pub metrics_add_up :
    (s : Server)
    → let m = metrics_snapshot s in
      (total (λ n. n) m.by_status ≡ m.jobs_total)
      × (total (λ (t : TenantMetrics). t.jobs_total) m.by_tenant ≡ m.jobs_total)
      × (total (λ (t : TenantMetrics). t.retry_count) m.by_tenant
          ≡ total (λ (j : Job). j.attempt - 1) s.jobs)
      × (total (λ (t : TenantMetrics). t.estimated_tokens) m.by_tenant
          ≡ total (λ (j : Job). result_tokens j.result) s.jobs)
unfolding metrics_snapshot add_job kept_tenant
metrics_add_up s = (
  total-by_all_statuses s.jobs,
  total-by_all_tenants (λ t. t.jobs_total) (λ j. 1) refl (λ j t. refl) s.jobs ∙ total_ones s.jobs,
  total-by_all_tenants (λ t. t.retry_count) (λ j. j.attempt - 1) refl (λ j t. refl) s.jobs,
  total-by_all_tenants (λ t. t.estimated_tokens) (λ j. result_tokens j.result) refl (λ j t. refl)
      s.jobs,
)
