-- ===== src/Orchestrator/Collision.antt =====
-- The idempotency keys of `SubmitBriefJob`, internal/orchestrator/server.go, across tenants.
use cova.Base.{
  ℕ, String, ◌+s◌, ◌≡◌, refl, sym, ◌∙◌, false, inl, inr, Bool-cases, Option, some, lookup, =s_refl,
  is_empty, trim_space,
}
use text.Mathlib.TextLemmas.{append_assoc}
use cova.Api.{SubmitBriefRequest}
use cova.Orchestrator.Types.{Server, Job, SubmitParams, IdempotencyRecord}
use cova.Orchestrator.Rules.{normalize_request_id, scoped_idempotency_key}
use cova.Orchestrator.Submit.{
  Admission, pass, check_submit, submit_brief_job, decide, recall, admit, known, replay_reply,
  accepted,
}

-- The separator may stand in a tenant's or a project's name.
scoped_keys_collide :
    (a b c raw : String)
    → scoped_idempotency_key (a +s ("::" +s b)) c raw
      ≡ scoped_idempotency_key a (b +s ("::" +s c)) raw
unfolding scoped_idempotency_key
scoped_keys_collide a b c raw = elim (Bool-cases (is_empty (trim_space raw))) [
  | inl none_given ↦ rw none_given refl
  | inr given ↦ rw given (simp append_assoc)
]

-- A submission of the tenant `a` and the project `b::c` whose key and payload were used before by the
-- tenant `a::b` and the project `c` is told of the job of those, with 202.
pub foreign_key_replayed :
    (hash_request : SubmitBriefRequest → Option String) (stamp now : ℕ) (p : SubmitParams)
    (req : SubmitBriefRequest) (s : Server) (m : Admission) (a b c raw : String)
    (r : IdempotencyRecord) (j : Job)
    → check_submit hash_request (normalize_request_id stamp p.request_id) p req s.experts ≡ pass m
    → m.idempotency_key ≡ scoped_idempotency_key a (b +s ("::" +s c)) raw
    → is_empty m.idempotency_key ≡ false
    → lookup (scoped_idempotency_key (a +s ("::" +s b)) c raw) s.idem ≡ some r
    → r.payload_hash ≡ m.payload_hash
    → lookup r.job_id s.jobs ≡ some j
    → submit_brief_job hash_request stamp now p req s
      ≡ (s, accepted (normalize_request_id stamp p.request_id) j)
unfolding submit_brief_job decide recall
foreign_key_replayed hash_request stamp now p req s m a b c raw r j checks key keyed noted agree
      found =
    let same = key ∙ sym (scoped_keys_collide a b c raw) in
    let noted_key = rw (← same) at noted in
    let told : known (normalize_request_id stamp p.request_id) m r s
        ≡ accepted (normalize_request_id stamp p.request_id) j =
      unfold known replay_reply in rw (agree, =s_refl m.payload_hash, found) refl in
    rw (checks, decide, recall, keyed, noted_key, admit, told) refl
