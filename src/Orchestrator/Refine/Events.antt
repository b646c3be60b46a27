-- ===== src/Orchestrator/Refine/Events.antt =====
-- The event handler of internal/orchestrator/server.go as a change, and with the other handlers the
-- refinement theorem: every action but a submission is a change of the abstract machine.
use cova.Base.{
  ℕ, ◌≡◌, refl, inl, inr, ◌=s◌, trim_space, false, Option, none, some, lookup, Bool-cases,
}
use cova.Orchestrator.Types.{Job, Server}
use cova.Orchestrator.Rules.{is_terminal}
use cova.Orchestrator.Events.{
  ExpertTaskEventData, reported_success, reported_failure, reported_cancel, report, report_found,
  handle_event,
}
use cova.Orchestrator.Change.{caller, reports, cancels, dropped, added, Change, Change-refl}
use cova.Orchestrator.Refine.{write, put_job-Change}

report-Change :
    (now : ℕ) (d : ExpertTaskEventData) (s : Server) (j : Job)
    → lookup d.job_id s.jobs ≡ some j
    → is_terminal j.status ≡ false
    → Change caller s (report now d s j).0
unfolding report
report-Change now d s j e t = elim (Bool-cases (trim_space d.status =s "succeeded")) [
  | inl a ↦ rw a (
      write _ d.job_id j.id j _ e
        (unfold reported_success in
          record { about = refl; attempts = λ a. a; edge = reports t (inl refl) })
        (inr refl) (dropped refl) (record { idem = refl; next_id = refl; max_attempts = refl })
        refl)
  | inr a ↦ elim (Bool-cases (trim_space d.status =s "failed")) [
    | inl b ↦
        rw (a, b)
          (write _ d.job_id j.id j _ e
            (unfold reported_failure in
              record { about = refl; attempts = λ a. a; edge = reports t (inr refl) })
            (inr refl) (added _ refl) (record { idem = refl; next_id = refl; max_attempts = refl })
            refl)
    | inr b ↦ elim (Bool-cases (trim_space d.status =s "canceled")) [
      | inl c ↦
          rw (a, b, c)
            (put_job-Change s d.job_id j _ e (
              unfold reported_cancel in
              record { about = refl; attempts = λ a. a; edge = cancels t refl }))
      | inr c ↦ rw (a, b, c) (Change-refl s)
    ]
  ]
]

report_found-Change :
    (now : ℕ) (d : ExpertTaskEventData) (s : Server) (o : Option Job)
    → lookup d.job_id s.jobs ≡ o
    → Change caller s (report_found now d s o).0
unfolding report_found
report_found-Change now d s none e = Change-refl s
report_found-Change now d s (some j) e = elim (Bool-cases (is_terminal j.status)) [
  | inl t ↦ rw t (Change-refl s)
  | inr t ↦ rw t (report-Change now d s j e t)
]

pub handle_event-Change :
    (now : ℕ) (d : ExpertTaskEventData) (s : Server) → Change caller s (handle_event now d s).0
unfolding handle_event
handle_event-Change now d s = report_found-Change now d s (lookup d.job_id s.jobs) refl
