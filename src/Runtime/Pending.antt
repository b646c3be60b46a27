-- ===== src/Runtime/Pending.antt =====
-- internal/expert/runtime/server.go: whom a cancel reaches.
use cova.Base.{
  ℕ, String, ◌≡◌, refl, sym, ap, ◌∙◌, Bool, Bool-cases, true, false, ◌||◌, Option, none, some, List,
  [], ◌∷◌, ◌⊎◌, inl, inr, lookup, arith, Option-cases, trim_space, is_empty, Entries,
  Entries-insert, Entries-delete, lookup-delete, ◌=s◌, =s_iff, if◌then◌else◌, if_true, if_false,
}
use cova.Base.Fold.{equal_fold}
use cova.Runtime.{
  Server, ServerOption, FirstExpert, new_server, TaskRequest, PendingTask, validate_task_request,
}
use cova.Runtime.Tasks.{
  Run, System, Reply, canceling, invalid_input, Outcome, produced, broke, create_task,
  start_checked, start_valid, start_async, start_sync, counted, count_total, count_accepted,
  count_succeeded, count_failed, count_canceled, new_expert_task_id, new_run, cancel_task,
  cancel_found, cancel_context, end_task, end_found, settle, taken, leave_task, leave_found, Action,
  create, cancel, ends, leaves, step, run, boot,
}
use cova.Runtime.Runs.{Any, Any-cancel_context, taken-Splits}
use cova.Runtime.Counts.{new_server-Idle}

-- A background task with the id and the context.
abbrev Serves : String → ℕ → Run → Type 0
Serves id c r = (r.context ≡ c) × (r.request.task_id ≡ id) × (r.background ≡ true)

abbrev Somewhere : (Run → Type 0) → System → Type 0
Somewhere P y = Any P y.running ⊎ Any P y.ending

abbrev Backed : System → Type 0
Backed y = Entries (λ id p. Somewhere (Serves id p.context) y) y.server.pending

either :
    (b : Bool) (x z : System × Reply)
    → (b ≡ true → Backed x.0)
    → (b ≡ false → Backed z.0)
    → Backed (if b then x else z).0
either true x z yes_b no_b = yes_b refl
either false x z yes_b no_b = no_b refl

module _ (y : System) (h : Backed y) where
  async-Backed :
      (date_of : String → String) (now : ℕ) (today : String) (req : TaskRequest)
      → Backed (start_async date_of now today req (counted y)).0
  unfolding start_async counted count_total count_accepted new_expert_task_id new_run
  async-Backed date_of now today req =
      Entries-insert
        (λ id p. Somewhere (Serves id p.context) (start_async date_of now today req (counted y)).0)
        req.task_id (record { context = y.next_context }) y.server.pending
        (inl (inl (refl, refl, refl)))
        (λ id p e. elim (h id p e) [ inl a ↦ inl (inr a) | inr a ↦ inr a ])

  sync-Backed :
      (date_of : String → String) (today : String) (req : TaskRequest)
      → Backed (start_sync date_of today req (counted y)).0
  unfolding start_sync counted count_total
  sync-Backed date_of today req id p e = elim (h id p e) [ inl a ↦ inl (inr a) | inr a ↦ inr a ]

  create-Backed :
      (date_of : String → String) (now : ℕ) (today mode : String) (body : Option TaskRequest)
      → Backed (create_task date_of now today mode body y).0
  unfolding create_task start_checked start_valid
  create-Backed date_of now today mode none = h
  create-Backed date_of now today mode (some req) =
      elim (Option-cases (validate_task_request req)) [
        | inl e ↦
            elim (Bool-cases (y.server.default_async || equal_fold "async" (trim_space mode))) [
              | inl t ↦ rw (e, t) (async-Backed date_of now today req)
              | inr t ↦ rw (e, t) (sync-Backed date_of today req)
            ]
        | inr (why, e) ↦ rw e h
      ]

  found-Backed : (id : String) (p : PendingTask) → Backed (cancel_found id y (some p)).0
  unfolding cancel_found count_canceled
  found-Backed id p j q e =
      let keep : (runs : List Run)
          → Any (Serves j q.context) runs
          → Any (Serves j q.context) (cancel_context p.context runs) =
        λ runs a.
          Any-cancel_context (Serves j q.context) (Serves j q.context) p.context runs (λ r t s. s)
            (λ r t s. s) a in
      elim (Entries-delete (λ i o. Somewhere (Serves i o.context) y) id y.server.pending h j q e) [
        | inl a ↦ inl (keep y.running a)
        | inr a ↦ inr (keep y.ending a)
      ]

  cancel-Backed : (id : String) → Backed (cancel_task id y).0
  unfolding cancel_task cancel_found
  cancel-Backed raw = elim (Bool-cases (is_empty (trim_space raw))) [
    | inl t ↦ rw t h
    | inr f ↦ elim (Option-cases (lookup (trim_space raw) y.server.pending)) [
      | inl e ↦ rw (f, e) h
      | inr (p, e) ↦ rw (f, e) (found-Backed (trim_space raw) p)
    ]
  ]

  -- A task that runs no more and is not pending any more may be dropped.
  leave-Backed : (c : ℕ) → Backed (leave_task c y)
  unfolding leave_task leave_found
  leave-Backed c = elim (Option-cases (taken c y.ending)) [
    | inl e ↦ rw e h
    | inr ((r, rest), e) ↦ rw e (λ id p held.
        let at = lookup-delete r.request.task_id id y.server.pending in
        let s = taken-Splits (Serves id p.context) c y.ending r rest e in
        elim (Bool-cases (r.request.task_id =s id)) [
          | inl t ↦ cc (
              sym held ∙ at ∙ if_true (r.request.task_id =s id) none (lookup id y.server.pending) t)
          | inr f ↦
              elim (h id p (
                sym (if_false (r.request.task_id =s id) none (lookup id y.server.pending) f)
                ∙ sym at
                ∙ held)) [
                  | inl a ↦ inl a
                  | inr a ↦ elim (s.back a) [
                    | inl serves ↦ cc ((=s_iff r.request.task_id id).1 serves.1, f)
                    | inr b ↦ inr b
                  ]
                ]
        ])
  ]

  module _ (r : Run) (rest : List Run)
      (back : (id : String) (c : ℕ)
        → Any (Serves id c) y.running
        → Serves id c r ⊎ Any (Serves id c) rest) where
    -- A background task goes over to those that end.
    moved :
        (id : String) (p : PendingTask)
        → lookup id y.server.pending ≡ some p
        → Any (Serves id p.context) rest
          ⊎ (Serves id p.context r ⊎ Any (Serves id p.context) y.ending)
    moved id p e = elim (h id p e) [
      | inl a ↦ elim (back id p.context a) [ inl serves ↦ inr (inl serves) | inr b ↦ inl b ]
      | inr a ↦ inr (inr a)
    ]

    -- A request's task is pending under no id.
    answered :
        r.background ≡ false
        → (id : String) (p : PendingTask) → lookup id y.server.pending ≡ some p
        → Any (Serves id p.context) rest ⊎ Any (Serves id p.context) y.ending
    answered g id p e = elim (h id p e) [
      | inl a ↦ elim (back id p.context a) [ inl (s, t, b) ↦ cc (b, g) | inr b ↦ inl b ]
      | inr a ↦ inr a
    ]

    settle-Backed :
        (now : ℕ) (o : Outcome) → Backed (settle now o r (record y { running = rest })).0
    unfolding settle count_failed count_succeeded
    settle-Backed now (broke e) = either r.background _ _ (λ g. moved) answered
    settle-Backed now (produced result) = either r.background _ _ (λ g. moved) answered

  end-Backed : (now c : ℕ) (o : Outcome) → Backed (end_task now c o y).0
  unfolding end_task end_found
  end-Backed now c o = elim (Option-cases (taken c y.running)) [
    | inl e ↦ rw e h
    | inr ((r, rest), e) ↦ rw e (
        settle-Backed r rest (λ id d. (taken-Splits (Serves id d) c y.running r rest e).back) now o)
  ]

  step-Backed : (date_of : String → String) (a : Action) → Backed (step date_of a y)
  unfolding step
  step-Backed date_of (create now today mode body) = create-Backed date_of now today mode body
  step-Backed date_of (cancel id) = cancel-Backed id
  step-Backed date_of (ends now c o) = end-Backed now c o
  step-Backed date_of (leaves c) = leave-Backed c

run-Backed :
    (date_of : String → String) (actions : List Action) (y : System)
    → Backed y
    → Backed (run date_of actions y)
unfolding run
run-Backed date_of [] y h = h
run-Backed date_of (a ∷ actions) y h =
    run-Backed date_of actions (step date_of a y) (step-Backed y h date_of a)

boot-Backed : (s : Server) → s.pending ≡ [] → Backed (boot s)
unfolding boot lookup
boot-Backed s none_held id p e = cc (sym (ap (lookup id) none_held) ∙ e)

-- A canceled background task with the id.
unfoldable pub Canceled : String → Run → Type 0
Canceled id r = (r.request.task_id ≡ id) × (r.background ≡ true) × (r.canceled ≡ true)

marked :
    (id : String) (c : ℕ) (runs : List Run)
    → Any (Serves id c) runs
    → Any (Canceled id) (cancel_context c runs)
unfolding Canceled
marked id c runs a =
    Any-cancel_context (Serves id c) (Canceled id) c runs (λ r t s. (s.1, s.2, refl))
      (λ r t s. ground (arith, s.0, t)) a

named_or :
    (b : Bool) (y : System) (id : String) (x : System × Reply)
    → (x.1 ≡ canceling → Somewhere (Canceled id) x.0)
    → (if b then (y, invalid_input "task_id is required") else x).1 ≡ canceling
    → Somewhere (Canceled id) (if b then (y, invalid_input "task_id is required") else x).0
named_or true y id x h e = cc e
named_or false y id x h e = h e

found_reached :
    (y : System) (id : String)
    → Backed y
    → (cancel_found id y (lookup id y.server.pending)).1 ≡ canceling
    → Somewhere (Canceled id) (cancel_found id y (lookup id y.server.pending)).0
unfolding cancel_found
found_reached y id h e = elim (Option-cases (lookup id y.server.pending)) [
  | inl gone ↦ cc (sym (ap (λ o. (cancel_found id y o).1) gone) ∙ e)
  | inr (p, held) ↦ rw held (elim (h id p held) [
    | inl a ↦ inl (marked id p.context y.running a)
    | inr a ↦ inr (marked id p.context y.ending a)
  ])
]

-- Whatever a new runtime has done before: a cancel answered with 202 has marked the context of a
-- background task that was created under this id and has not left.
pub cancel_reaches :
    (date_of : String → String) (experts : List FirstExpert) (options : List ServerOption)
    (actions : List Action) (id : String)
    → (cancel_task id (run date_of actions (boot (new_server experts options)))).1 ≡ canceling
    → Any
        (Canceled (trim_space id))
        (cancel_task id (run date_of actions (boot (new_server experts options)))).0.running
      ⊎ Any
          (Canceled (trim_space id))
          (cancel_task id (run date_of actions (boot (new_server experts options)))).0.ending
unfolding cancel_task
cancel_reaches date_of experts options actions id e =
    let y = run date_of actions (boot (new_server experts options)) in
    let h =
      run-Backed date_of actions (boot (new_server experts options))
        (boot-Backed _ (new_server-Idle experts options).1) in
    named_or (is_empty (trim_space id)) y (trim_space id) _ (found_reached y (trim_space id) h) e
