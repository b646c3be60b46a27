-- ===== src/Orchestrator/Submit.antt =====
-- internal/orchestrator/server.go: `SubmitBriefJob`. `hash_request` is `hashRequestPayload` (JSON and
-- SHA-256, `none` where the encoder fails); `stamp` and `now` are the readings of the clock.
use cova.Base.{
  ℕ, String, Bool, true, false, ◌&&◌, ◌||◌, not, ◌+◌, ◌%◌, ◌^◌, Option, none, some, Dict, lookup,
  insert, delete, if◌then◌else◌, ◌=s◌, ◌+s◌, is_empty, is_blank, trim_space, format_uint,
}
use cova.Api.{SubmitBriefRequest, Reply, queued, refused, submitted, problem}
use cova.Orchestrator.Types.{ExpertMetadata, Job, Server, SubmitParams, IdempotencyRecord}
use cova.Orchestrator.Rules.{
  ptr_value, expert_type_ptr, normalize_request_id, clone_callback_config, scoped_idempotency_key,
  expert_supports,
}
use cova.Orchestrator.Date.{is_date}
use cova.Orchestrator.Persist.{persist_locked, enqueue}

-- A chain of checks that stops at the first refusal.
pub data Checked {ℓ} (A : Type ℓ) : Type ℓ where
  reject : Reply → Checked A
  pass : A → Checked A

infixl 5 ◌>>=◌ ◌>>◌
abbrev pub ◌>>=◌ {ℓ κ} : {A : Type ℓ} {B : Type κ} → Checked A → (A → Checked B) → Checked B
reject r >>= f = reject r
pass a >>= f = f a

abbrev pub ◌>>◌ {ℓ} : {B : Type ℓ} → Checked (Unit {0}) → Checked B → Checked B
m >> k = m >>= λ _. k

abbrev pub refuse_if : Bool → Reply → Checked (Unit {0})
refuse_if true r = reject r
refuse_if false r = pass tt

abbrev pub or_refuse {ℓ} : {A : Type ℓ} → Option A → Reply → Checked A
or_refuse none r = reject r
or_refuse (some a) r = pass a

abbrev jobs_path : String
jobs_path = "/v1/assistant/jobs"

unfoldable pub invalid : String → String → Reply
invalid request_id detail = record {
  code = 400;
  body = refused (problem jobs_path request_id "invalid-request" "Invalid request" detail);
}

unfoldable pub internal : String → String → Reply
internal request_id detail = record {
  code = 500;
  body = refused (problem jobs_path request_id "internal-error" "Internal error" detail);
}

unfoldable pub mismatch : String → Reply
mismatch request_id = record {
  code = 409;
  body = refused (
      problem jobs_path request_id "idempotency-mismatch" "Idempotency mismatch"
        "same Idempotency-Key with different payload");
}

-- An optional id of the body has to agree with the header's.
unfoldable pub body_differs : Option String → String → Bool
body_differs none id = false
body_differs (some v) id = not (is_blank v) && not (trim_space v =s id)

-- What `SubmitBriefJob` has computed when it takes the lock.
pub record Admission : Type 0 where
  pub tenant_id : String
  pub project_id : String
  pub expert_id : String
  pub expert_name : String
  pub expert_type : String
  pub payload_hash : String
  pub idempotency_key : String

module _ (hash_request : SubmitBriefRequest → Option String) where
  -- The checks before the lock, in the source's order.
  unfoldable pub check_submit :
      String → SubmitParams → SubmitBriefRequest → Dict ExpertMetadata → Checked Admission
  unfolding body_differs invalid internal
  check_submit request_id p req experts = do
    let tenant_id = trim_space p.tenant_id
    let project_id = trim_space p.project_id
    refuse_if (is_empty tenant_id || is_empty project_id)
        (invalid request_id "headers `X-Tenant-Id` and `X-Project-Id` are required")
    refuse_if (body_differs req.tenant_id tenant_id)
        (invalid request_id "body `tenant_id` does not match header `X-Tenant-Id`")
    refuse_if (body_differs req.project_id project_id)
        (invalid request_id "body `project_id` does not match header `X-Project-Id`")
    let expert_id = trim_space req.expert_id
    refuse_if (is_empty expert_id) (invalid request_id "field `expert_id` is required")
    refuse_if (is_blank req.date) (invalid request_id "field `date` is required")
    refuse_if (not (is_date req.date)) (invalid request_id "field `date` must use YYYY-MM-DD")
    expert ← or_refuse (lookup expert_id experts) (invalid request_id "unknown `expert_id`")
    refuse_if (not (expert_supports expert "daily_brief"))
        (invalid request_id "expert does not support `daily_brief`")
    let name = ptr_value req.expert_name
    let kind = ptr_value req.expert_type
    hash ← or_refuse (hash_request req) (internal request_id "failed to hash request")
    pass (record {
      tenant_id = tenant_id;
      project_id = project_id;
      expert_id = expert_id;
      expert_name = if is_blank name then expert.expert_name else name;
      expert_type = if is_blank kind then expert.expert_type else kind;
      payload_hash = hash;
      idempotency_key = scoped_idempotency_key tenant_id project_id p.idempotency_key;
    })

-- The `202 Accepted` reply for a job.
unfoldable pub accepted : String → Job → Reply
accepted request_id j = record {
  code = 202;
  body = submitted (record {
    job_id = j.id;
    tenant_id = j.tenant_id;
    project_id = j.project_id;
    expert_id = j.expert_id;
    expert_name = some j.expert_name;
    expert_type = expert_type_ptr j.expert_type;
    status = j.status;
    submitted_at = j.submitted_at;
    request_id = some request_id;
  });
}

-- `"job_" + strconv.FormatUint(n, 10)`
unfoldable pub job_name : ℕ → String
job_name n = "job_" +s format_uint n

unfoldable pub new_job : String → ℕ → SubmitBriefRequest → Admission → Server → Job
new_job id now req a s = record {
  id = id;
  tenant_id = a.tenant_id;
  project_id = a.project_id;
  expert_id = a.expert_id;
  expert_name = a.expert_name;
  expert_type = a.expert_type;
  date = req.date;
  status = queued;
  progress = 0;
  submitted_at = now;
  updated_at = now;
  attempt = 1;
  max_attempts = s.max_attempts;
  expires_at = some (now + s.job_ttl);
  last_error = none;
  result = none;
  callback = clone_callback_config req.callback;
}

unfoldable pub remember : Admission → String → Dict IdempotencyRecord → Dict IdempotencyRecord
remember a id idem =
    if is_empty a.idempotency_key
    then idem
    else insert a.idempotency_key (record { payload_hash = a.payload_hash; job_id = id }) idem

-- A new job: stored, persisted and queued. `nextID` is a uint64.
unfoldable pub create : String → ℕ → SubmitBriefRequest → Admission → Server → Server × Reply
create request_id now req a s =
    let n = (s.next_id + 1) % 2 ^ 64 in
    let id = job_name n in
    let j = new_job id now req a s in
    let stored = record s {
      next_id = n;
      jobs = insert id j s.jobs;
      dlq = delete id s.dlq;
      idem = remember a id s.idem;
    } in
    (enqueue id (persist_locked stored), accepted request_id j)

unfoldable pub replay_reply : String → Option Job → Reply
unfolding accepted internal
replay_reply request_id none = internal request_id "idempotency record exists without job"
replay_reply request_id (some j) = accepted request_id j

unfoldable pub known : String → Admission → IdempotencyRecord → Server → Reply
known request_id a r s =
    if r.payload_hash =s a.payload_hash
    then replay_reply request_id (lookup r.job_id s.jobs)
    else mismatch request_id

-- The idempotency record that applies, if any.
unfoldable pub recall : Admission → Server → Option IdempotencyRecord
recall a s = if is_empty a.idempotency_key then none else lookup a.idempotency_key s.idem

unfoldable pub admit :
    String → ℕ → SubmitBriefRequest → Admission → Server → Option IdempotencyRecord → Server × Reply
admit request_id now req a s none = create request_id now req a s
admit request_id now req a s (some r) = (s, known request_id a r s)

-- The rest of `SubmitBriefJob`, under the lock.
unfoldable pub decide :
    String → ℕ → SubmitBriefRequest → Server → Checked Admission → Server × Reply
unfolding admit recall
decide request_id now req s (reject r) = (s, r)
decide request_id now req s (pass a) = admit request_id now req a s (recall a s)

-- `SubmitBriefJob`
unfoldable pub submit_brief_job :
    (SubmitBriefRequest → Option String)
    → ℕ
    → ℕ
    → SubmitParams
    → SubmitBriefRequest
    → Server
    → Server × Reply
unfolding decide
submit_brief_job hash_request stamp now p req s =
    let request_id = normalize_request_id stamp p.request_id in
    decide request_id now req s (check_submit hash_request request_id p req s.experts)
