-- ===== src/Orchestrator/Scope.antt =====
-- Tenants and projects in the handlers on one job, internal/orchestrator/server.go.
use cova.Base.{
  ℕ, String, ◌≡◌, inl, inr, true, ◌||◌, Option, none, some, lookup, delete, arith, =s_iff,
  Bool-cases, Option-cases, is_empty, trim_space,
}
use cova.Api.{
  Body, Reply, refused, submitted, job_status, job_result, job_deliveries, query_answer,
  expert_capabilities,
}
use cova.Orchestrator.Types.{Job, Server, JobParams}
use cova.Orchestrator.Rules.{job_in_scope, is_terminal}
use cova.Orchestrator.Read.{
  expire_job_if_needed, in_scope, on_job, scope_required, not_found, conflict, status_body,
  status_found, result_body, result_found, is_succeeded, get_job_status, get_job_result,
}
use cova.Orchestrator.Control.{cancel_found, cancel_job, replay_found, replay_job, can_replay}
use cova.Orchestrator.Refine.{in_scope-some}

-- What a reply says of a job is said of one in this scope.
abbrev pub Owns : String → String → Body → Type 0
Owns tenant_id project_id (refused p) = Unit
Owns tenant_id project_id (submitted b) = (b.tenant_id ≡ tenant_id) × (b.project_id ≡ project_id)
Owns tenant_id project_id (job_status b) = (b.tenant_id ≡ tenant_id) × (b.project_id ≡ project_id)
Owns tenant_id project_id (job_result b) = (b.tenant_id ≡ tenant_id) × (b.project_id ≡ project_id)
Owns tenant_id project_id (job_deliveries b) =
    (b.tenant_id ≡ tenant_id) × (b.project_id ≡ project_id)
Owns tenant_id project_id (query_answer b) = Unit
Owns tenant_id project_id (expert_capabilities b) = Unit

job_in_scope_ids :
    (j : Job) (tenant_id project_id : String)
    → job_in_scope j tenant_id project_id ≡ true
    → (j.tenant_id ≡ tenant_id) × (j.project_id ≡ project_id)
unfolding job_in_scope
job_in_scope_ids j tenant_id project_id h =
    ground (arith, =s_iff j.tenant_id tenant_id, =s_iff j.project_id project_id)

module _ (suffix : String) (stamp now : ℕ) (p : JobParams)
    (go : String → Server → Option Job → Server × Reply)
    (missing : (r : String) (t : Server)
      → Owns (trim_space p.tenant_id) (trim_space p.project_id) (go r t none).1.body)
    (found : (r : String) (t : Server) (j : Job)
      → (j.tenant_id ≡ trim_space p.tenant_id) × (j.project_id ≡ trim_space p.project_id)
      → Owns (trim_space p.tenant_id) (trim_space p.project_id) (go r t (some j)).1.body) where
  go-Owns :
      (r : String) (t : Server) (o : Option Job)
      → Owns
          (trim_space p.tenant_id)
          (trim_space p.project_id)
          (go r t (in_scope (trim_space p.tenant_id) (trim_space p.project_id) o)).1.body
  go-Owns r t o =
      elim (Option-cases (in_scope (trim_space p.tenant_id) (trim_space p.project_id) o)) [
        | inl e ↦ rw e (missing r t)
        | inr (j, e) ↦ rw e (found r t j (job_in_scope_ids j _ _ (in_scope-some _ _ o j e).1))
      ]

  pub on_job-Owns :
      (s : Server)
      → Owns
          (trim_space p.tenant_id)
          (trim_space p.project_id)
          (on_job suffix stamp now p go s).1.body
  unfolding on_job scope_required
  on_job-Owns s =
      elim (Bool-cases (is_empty (trim_space p.tenant_id) || is_empty (trim_space p.project_id))) [
        | inl e ↦ rw e tt
        | inr e ↦ rw e (go-Owns _ _ (lookup p.job_id (expire_job_if_needed now p.job_id s).jobs))
      ]

module _ (later : ℕ) (p : JobParams) (r : String) (t : Server) (tenant_id project_id : String) where
  missing-Owns :
      Owns tenant_id project_id (status_found p r t none).1.body
      × Owns tenant_id project_id (result_found p r t none).1.body
      × Owns tenant_id project_id (cancel_found later p r t none).1.body
      × Owns tenant_id project_id (replay_found later p r t none).1.body
  unfolding status_found result_found cancel_found replay_found not_found
  missing-Owns = (tt, tt, tt, tt)

  module _ (j : Job) (h : (j.tenant_id ≡ tenant_id) × (j.project_id ≡ project_id)) where
    status_found-Owns : Owns tenant_id project_id (status_found p r t (some j)).1.body
    unfolding status_found status_body
    status_found-Owns = h

    result_found-Owns : Owns tenant_id project_id (result_found p r t (some j)).1.body
    unfolding result_found conflict
    result_found-Owns = elim (Bool-cases (is_succeeded j.status)) [
      | inr e ↦ rw e tt
      | inl e ↦ elim (Option-cases j.result) [
        | inl none_yet ↦ rw (e, none_yet, result_body) tt
        | inr (result, is) ↦ rw (e, is, result_body) h
      ]
    ]

    cancel_found-Owns : Owns tenant_id project_id (cancel_found later p r t (some j)).1.body
    unfolding cancel_found conflict status_body
    cancel_found-Owns = elim (Bool-cases (is_terminal j.status)) [
      | inl e ↦ rw e tt
      | inr e ↦ rw e h
    ]

    replay_found-Owns : Owns tenant_id project_id (replay_found later p r t (some j)).1.body
    unfolding replay_found conflict status_body
    replay_found-Owns = elim (Bool-cases (can_replay j.status)) [ inl e ↦ rw e h | inr e ↦ rw e tt ]

-- Whatever `GetJobStatus`, `GetJobResult`, `CancelJob` and `ReplayJob` say of a job, they say of one
-- that belongs to the tenant and the project that the caller's headers name.
pub replies_own :
    (stamp now later : ℕ) (p : JobParams) (s : Server)
    → let Own = Owns (trim_space p.tenant_id) (trim_space p.project_id) in
      Own (get_job_status stamp now p s).1.body
      × Own (get_job_result stamp now p s).1.body
      × Own (cancel_job stamp now later p s).1.body
      × Own (replay_job stamp now later p s).1.body
replies_own stamp now later p s =
    let tenant = trim_space p.tenant_id in
    let project = trim_space p.project_id in
    (
      (unfold get_job_status in
          on_job-Owns "" stamp now p (status_found p)
            (λ r t. (missing-Owns later p r t tenant project).0)
            (λ r t j h. status_found-Owns later p r t tenant project j h) s),
      (unfold get_job_result in
          on_job-Owns "/result" stamp now p (result_found p)
            (λ r t. (missing-Owns later p r t tenant project).1)
            (λ r t j h. result_found-Owns later p r t tenant project j h) s),
      (unfold cancel_job in
          on_job-Owns "/cancel" stamp now p (cancel_found later p)
            (λ r t. (missing-Owns later p r t tenant project).2)
            (λ r t j h. cancel_found-Owns later p r t tenant project j h) s),
      (unfold replay_job in
          on_job-Owns "/replay" stamp now p (replay_found later p)
            (λ r t. (missing-Owns later p r t tenant project).3)
            (λ r t j h. replay_found-Owns later p r t tenant project j h) s),
    )

-- The server without one job.
unfoldable pub without : String → Server → Server
without id s = record s { jobs = delete id s.jobs }
