-- ===== src/Runtime/Report.antt =====
-- internal/expert/runtime/server.go with internal/orchestrator/server.go: what the orchestrator makes
-- of the events that a runtime sends.
use cova.Base.{
  ℕ, suc, String, ◌≡◌, refl, sym, ap, ◌∙◌, subst, Bool, Bool-cases, true, false, ◌||◌, ◌==◌, Option,
  none, some, List, [], ◌∷◌, ◌++◌, inl, inr, lookup, insert, arith, Option-cases, trim_space,
  is_empty, is_blank, All, if◌then◌else◌, if_true, if_false, lookup-insert_self,
}
use cova.Base.Fold.{equal_fold}
use cova.Runtime.{Server, TaskRequest, validate_task_request}
use cova.Runtime.Tasks.{
  Run, System, TaskCompletedEvent, TaskCompletedData, Outcome, produced, broke, create_task,
  start_checked, start_valid, start_async, start_sync, counted, new_run, cancel_task, cancel_found,
  cancel_context, end_task, end_found, settle, completed, taken, taken_or, leave_task, leave_found,
  Action, create, cancel, ends, leaves, step, run, boot,
}
use cova.Orchestrator.Types.{Job}
use cova.Orchestrator.Types
use cova.Orchestrator.Rules.{is_terminal}
use cova.Orchestrator.Persist.{persist_locked}
use cova.Orchestrator.Read.{put_job}
use cova.Orchestrator.Events.{
  ExpertTaskEventData, event_accepted, Parsed, parsed, named_job, expert_events, event_of,
  event_data, checked_data, handle_event, report_found, report, reported_success,
}

unfoldable pub Named : Run → Type 0
Named r = is_blank r.request.job_id ≡ false

unfoldable pub Tells : TaskCompletedEvent → Type 0
Tells e = (e.task_data.status ≡ "succeeded") × (is_blank e.task_data.job_id ≡ false)

valid-named : (req : TaskRequest) → validate_task_request req ≡ none → is_blank req.job_id ≡ false
unfolding validate_task_request
valid-named req e = ground arith

All-taken :
    (P : Run → Type 0) (c : ℕ) (runs : List Run) (r : Run) (rest : List Run)
    → taken c runs ≡ some (r, rest)
    → All P runs
    → P r × All P rest
unfolding taken taken_or
All-taken P c [] r rest e h = cc e
All-taken P c (q ∷ runs) r rest e h = elim (Bool-cases (q.context == c)) [
  | inl t ↦
      let e' : some (q, runs) ≡ some (r, rest) =
        sym (if_true (q.context == c) (some (q, runs)) (taken_or q (taken c runs)) t) ∙ e in
      let same : q ≡ r = cc e' in
      let others : runs ≡ rest = cc e' in (subst P same h.0, subst (All P) others h.1)
  | inr f ↦
      let e' : taken_or q (taken c runs) ≡ some (r, rest) =
        sym (if_false (q.context == c) (some (q, runs)) (taken_or q (taken c runs)) f) ∙ e in
      elim (Option-cases (taken c runs)) [
        | inl gone ↦ cc (sym (ap (taken_or q) gone) ∙ e')
        | inr ((found, others), held) ↦
            let e'' : some (found, q ∷ others) ≡ some (r, rest) = sym (ap (taken_or q) held) ∙ e' in
            let same : found ≡ r = cc e'' in
            let tail : q ∷ others ≡ rest = cc e'' in
            let ih = All-taken P c runs found others held h.1 in
            (subst P same ih.0, subst (All P) tail (h.0, ih.1))
      ]
]

Named-cancel_context :
    (c : ℕ) (runs : List Run) → All Named runs → All Named (cancel_context c runs)
unfolding cancel_context Named
Named-cancel_context c [] h = h
Named-cancel_context c (r ∷ runs) h =
    let ih = Named-cancel_context c runs h.1 in
    elim (Bool-cases (r.context == c)) [ inl t ↦ rw t (h.0, ih) | inr t ↦ rw t (h.0, ih) ]

-- All that is said of the tasks that run and the events sent.
abbrev Honest : System → Type 0
Honest y = All Named y.running × All Tells y.sent

either :
    {R : Type 0} (b : Bool) (x z : System × R)
    → Honest x.0
    → Honest z.0
    → Honest (if b then x else z).0
either true x z p q = p
either false x z p q = q

module _ (y : System) (h : Honest y) where
  valid-Honest :
      (date_of : String → String) (now : ℕ) (today mode : String) (req : TaskRequest)
      → is_blank req.job_id ≡ false
      → Honest (start_valid date_of now today mode req y).0
  unfolding start_valid start_async start_sync counted new_run Named
  valid-Honest date_of now today mode req named =
      either (y.server.default_async || equal_fold "async" (trim_space mode)) _ _
        ((named, h.0), h.1) ((named, h.0), h.1)

  create-Honest :
      (date_of : String → String) (now : ℕ) (today mode : String) (body : Option TaskRequest)
      → Honest (create_task date_of now today mode body y).0
  unfolding create_task start_checked
  create-Honest date_of now today mode none = h
  create-Honest date_of now today mode (some req) =
      elim (Option-cases (validate_task_request req)) [
        | inl e ↦ rw e (valid-Honest date_of now today mode req (valid-named req e))
        | inr (why, e) ↦ rw e h
      ]

  cancel-Honest : (id : String) → Honest (cancel_task id y).0
  unfolding cancel_task cancel_found
  cancel-Honest raw =
      either (is_empty (trim_space raw)) _ _ h
        (elim (Option-cases (lookup (trim_space raw) y.server.pending)) [
          | inl e ↦ rw e h
          | inr (p, e) ↦ rw e (Named-cancel_context p.context y.running h.0, h.1)
        ])

  settle-Honest :
      (now : ℕ) (o : Outcome) (r : Run) (rest : List Run)
      → Named r
      → All Named rest
      → Honest (settle now o r (record y { running = rest })).0
  unfolding settle completed Tells Named
  settle-Honest now (broke e) r rest named others =
      either r.background _ _ (others, h.1) (others, h.1)
  settle-Honest now (produced result) r rest named others =
      either r.background _ _ (others, ((refl, named), h.1)) (others, h.1)

  end-Honest : (now c : ℕ) (o : Outcome) → Honest (end_task now c o y).0
  unfolding end_task end_found
  end-Honest now c o = elim (Option-cases (taken c y.running)) [
    | inl e ↦ rw e h
    | inr ((r, rest), e) ↦
        let s = All-taken Named c y.running r rest e h.0 in
        rw e (settle-Honest now o r rest s.0 s.1)
  ]

  leave-Honest : (c : ℕ) → Honest (leave_task c y)
  unfolding leave_task leave_found
  leave-Honest c = elim (Option-cases (taken c y.ending)) [
    | inl e ↦ rw e h
    | inr ((r, rest), e) ↦ rw e h
  ]

  step-Honest : (date_of : String → String) (a : Action) → Honest (step date_of a y)
  unfolding step
  step-Honest date_of (create now today mode body) = create-Honest date_of now today mode body
  step-Honest date_of (cancel id) = cancel-Honest id
  step-Honest date_of (ends now c o) = end-Honest now c o
  step-Honest date_of (leaves c) = leave-Honest c

run-Honest :
    (date_of : String → String) (actions : List Action) (y : System)
    → Honest y
    → Honest (run date_of actions y)
unfolding run
run-Honest date_of [] y h = h
run-Honest date_of (a ∷ actions) y h =
    run-Honest date_of actions (step date_of a y) (step-Honest y h date_of a)

Tells-within :
    (newer older : List TaskCompletedEvent) (e : TaskCompletedEvent)
    → All Tells (newer ++ (e ∷ older))
    → Tells e
Tells-within [] older e h = h.0
Tells-within (n ∷ newer) older e h = Tells-within newer older e h.1

-- The event's data as the orchestrator decodes them: the fields of the same names.
unfoldable pub received : TaskCompletedData → ExpertTaskEventData
received d = record {
  task_id = d.task_id;
  job_id = d.job_id;
  trace_id = d.trace_id;
  status = d.status;
  result = some d.result;
  error = none;
}

report_success :
    (at : ℕ) (d : ExpertTaskEventData) (s : Types.Server) (j : Job)
    → d.status ≡ "succeeded"
    → ((report at d s j).2 ≡ event_accepted d.job_id)
      × (lookup d.job_id (report at d s j).0.jobs ≡ some (reported_success at d j))
unfolding report put_job persist_locked cova.Base.◌=s◌ trim_space
report_success at d s j told =
    rw told (refl, lookup-insert_self d.job_id (reported_success at d j) s.jobs)

named-parsed : (d : ExpertTaskEventData) → is_blank d.job_id ≡ false → named_job d ≡ parsed d
unfolding named_job
named-parsed d e = rw e refl

-- Whatever a new runtime does: an event that it sends, with the expert's result and under the job's
-- id, completes the job at the orchestrator with that result, if the job is known there and not final
-- when the event comes in and is read and decoded as sent; the reply is 202.
pub sent_completes :
    (date_of : String → String) (server : Server) (actions : List Action)
    (newer older : List TaskCompletedEvent) (e : TaskCompletedEvent) {Raw Event : Type 0}
    (parse_event : Raw → Parsed Event) (decode : Event → Parsed ExpertTaskEventData) (raw : Raw)
    (event : Event) (at : ℕ) (s : Types.Server) (j : Job)
    → (run date_of actions (boot server)).sent ≡ newer ++ (e ∷ older)
    → parse_event raw ≡ parsed event
    → decode event ≡ parsed (received e.task_data)
    → lookup e.task_data.job_id s.jobs ≡ some j
    → is_terminal j.status ≡ false
    → ((expert_events parse_event decode true (some raw) at s).2
        ≡ event_accepted e.task_data.job_id)
      × (lookup e.task_data.job_id (expert_events parse_event decode true (some raw) at s).0.jobs
          ≡ some (reported_success at (received e.task_data) j))
unfolding expert_events event_of event_data checked_data handle_event report_found received boot
    Tells
sent_completes date_of server actions newer older e parse_event decode raw event at s j sends read
      decoded found live =
    let honest = run-Honest date_of actions (boot server) (tt, tt) in
    let tells = Tells-within newer older e (subst (All Tells) sends honest.1) in
    rw (read, decoded, named-parsed (received e.task_data) tells.1, found, live)
      (report_success at (received e.task_data) s j tells.0)
