-- ===== src/Orchestrator/Refine/Control.antt =====
-- `CancelJob`, `ReplayJob` and the reading handlers of internal/orchestrator/server.go as changes.
use cova.Base.{ℕ, String, ◌≡◌, refl, inl, inr, false, true, some, lookup, arith, Bool-cases}
use cova.Orchestrator.Types.{Job, Server, JobParams}
use cova.Orchestrator.Rules.{is_terminal}
use cova.Orchestrator.Read.{status_found, result_found, get_job_status, get_job_result}
use cova.Orchestrator.Control.{
  can_replay, canceled_job, cancel_found, cancel_job, replayed_job, replay_found, replay_job,
}
use cova.Orchestrator.Change.{
  Actor, caller, replayer, cancels, replays, Evolves, dropped, Change, Change-refl,
}
use cova.Orchestrator.Refine.{write, enqueue-Change, put_job-Change, on_job-Change}

pub get_job_status-Change :
    {w : Actor} (stamp now : ℕ) (p : JobParams) (s : Server)
    → Change w s (get_job_status stamp now p s).0
unfolding get_job_status status_found
get_job_status-Change stamp now p s =
    on_job-Change "" stamp now p (status_found p) s (λ r t. Change-refl t)
      (λ r t j e. Change-refl t)

pub get_job_result-Change :
    {w : Actor} (stamp now : ℕ) (p : JobParams) (s : Server)
    → Change w s (get_job_result stamp now p s).0
unfolding get_job_result result_found
get_job_result-Change stamp now p s =
    on_job-Change "/result" stamp now p (result_found p) s (λ r t. Change-refl t)
      (λ r t j e. Change-refl t)

canceled_job-Evolves :
    (j : Job) (now : ℕ) → is_terminal j.status ≡ false → Evolves caller j (canceled_job now j)
unfolding canceled_job
canceled_job-Evolves j now h = record { about = refl; attempts = λ a. a; edge = cancels h refl }

cancel_found-Change :
    (later : ℕ) (p : JobParams) (request_id : String) (s : Server) (j : Job)
    → lookup p.job_id s.jobs ≡ some j
    → Change caller s (cancel_found later p request_id s (some j)).0
unfolding cancel_found
cancel_found-Change later p request_id s j e = elim (Bool-cases (is_terminal j.status)) [
  | inl t ↦ rw t (Change-refl s)
  | inr t ↦ rw t (put_job-Change s p.job_id j _ e (canceled_job-Evolves j later t))
]

pub cancel_job-Change :
    (stamp now later : ℕ) (p : JobParams) (s : Server)
    → Change caller s (cancel_job stamp now later p s).0
unfolding cancel_job
cancel_job-Change stamp now later p s =
    on_job-Change "/cancel" stamp now p (cancel_found later p) s
      (λ r t. unfold cancel_found in Change-refl t) (cancel_found-Change later p)

replayed_job-Evolves :
    (j : Job) (now : ℕ) → can_replay j.status ≡ true → Evolves replayer j (replayed_job now j)
unfolding replayed_job
replayed_job-Evolves j now h = record {
  about = refl;
  attempts = λ a. omega arith;
  edge = replays refl h refl;
}

replay_found-Change :
    (later : ℕ) (p : JobParams) (request_id : String) (s : Server) (j : Job)
    → lookup p.job_id s.jobs ≡ some j
    → Change replayer s (replay_found later p request_id s (some j)).0
unfolding replay_found
replay_found-Change later p request_id s j e = elim (Bool-cases (can_replay j.status)) [
  | inr c ↦ rw c (Change-refl s)
  | inl c ↦ rw c (
      enqueue-Change j.id (
        write _ p.job_id j.id j _ e (replayed_job-Evolves j later c) (inr refl) (dropped refl)
          (record { idem = refl; next_id = refl; max_attempts = refl }) refl))
]

pub replay_job-Change :
    (stamp now later : ℕ) (p : JobParams) (s : Server)
    → Change replayer s (replay_job stamp now later p s).0
unfolding replay_job
replay_job-Change stamp now later p s =
    on_job-Change "/replay" stamp now p (replay_found later p) s
      (λ r t. unfold replay_found in Change-refl t) (replay_found-Change later p)
