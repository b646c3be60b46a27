-- ===== src/Orchestrator/Refine/Submit.antt =====
-- `SubmitBriefJob` of internal/orchestrator/server.go as a move.
use cova.Base.{ℕ, String, ◌≡◌, refl, inl, inr, Option, none, some, Bool-cases, is_empty}
use cova.Api.{SubmitBriefRequest}
use cova.Orchestrator.Types.{Server, SubmitParams, IdempotencyRecord}
use cova.Orchestrator.Persist.{persist_locked, enqueue}
use cova.Orchestrator.Callback.{clone_callback_config_idem}
use cova.Orchestrator.Submit.{
  Checked, reject, pass, Admission, check_submit, new_job, remember, create, recall, admit, decide,
  submit_brief_job,
}
use cova.Orchestrator.Change.{Recalls, unkeyed, noted, caller, Moves, Moves-refl}

remember-Recalls :
    (a : Admission) (id : String) (s : Server)
    → recall a s ≡ none
    → Recalls id s.idem (remember a id s.idem)
unfolding remember recall
remember-Recalls a id s e = elim (Bool-cases (is_empty a.idempotency_key)) [
  | inl t ↦ rw t (unkeyed refl)
  | inr t ↦ rw t (noted a.idempotency_key _ refl (rw t at e) refl)
]

create-Moves :
    (request_id : String) (now : ℕ) (req : SubmitBriefRequest) (a : Admission) (s : Server)
    → recall a s ≡ none
    → Moves caller s (create request_id now req a s).0
unfolding create new_job persist_locked enqueue
create-Moves request_id now req a s e =
    Moves.creates (new_job _ now req a s) refl refl
      (record {
        status = refl;
        attempt = refl;
        max_attempts = refl;
        callback = clone_callback_config_idem req.callback;
      })
      refl refl (remember-Recalls a _ s e) refl

admit-Moves :
    (request_id : String) (now : ℕ) (req : SubmitBriefRequest) (a : Admission) (s : Server)
    (o : Option IdempotencyRecord)
    → recall a s ≡ o
    → Moves caller s (admit request_id now req a s o).0
unfolding admit
admit-Moves request_id now req a s none e = create-Moves request_id now req a s e
admit-Moves request_id now req a s (some r) e = Moves-refl s

decide-Moves :
    (request_id : String) (now : ℕ) (req : SubmitBriefRequest) (s : Server) (c : Checked Admission)
    → Moves caller s (decide request_id now req s c).0
unfolding decide
decide-Moves request_id now req s (reject r) = Moves-refl s
decide-Moves request_id now req s (pass a) = admit-Moves request_id now req a s (recall a s) refl

pub submit_brief_job-Moves :
    (hash_request : SubmitBriefRequest → Option String) (stamp now : ℕ) (p : SubmitParams)
    (req : SubmitBriefRequest) (s : Server)
    → Moves caller s (submit_brief_job hash_request stamp now p req s).0
unfolding submit_brief_job
submit_brief_job-Moves hash_request stamp now p req s =
    decide-Moves _ now req s (check_submit hash_request _ p req s.experts)
