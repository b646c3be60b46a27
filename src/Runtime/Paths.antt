-- ===== src/Runtime/Paths.antt =====
-- internal/expert/runtime/server.go: the path of a cancel and the id in it.
use text.Mathlib.TextLemmas.{append_assoc}
use cova.Base.{
  ℕ, String, ◌+s◌, ◌≡◌, refl, sym, ap, ◌∙◌, Bool, Bool-cases, true, false, Option, none, some, inl,
  inr, ◌=s◌, =s_iff, lookup, insert, lookup-insert_self, ◌||◌, is_empty, is_blank, trim_space,
  if_true, arith,
}
use cova.Base.Bytes.{trim_byte, after_prefix, value_or, after_prefix-append, before_suffix-append}
use cova.Base.Fold.{is_there, equal_fold}
use cova.Http.{Request, header}
use cova.Runtime.{TaskRequest, PendingTask, check_auth, validate_task_request}
use cova.Runtime.Tasks.{
  System, canceling, create_task, start_checked, start_valid, start_async, counted, count_total,
  count_accepted, new_expert_task_id, cancel_task, cancel_found,
}
use cova.Runtime.Serve.{
  task_reply, created, is_cancel, canceled_id, cancels, routed, admitted, serve_http,
}

abbrev cancel_path : String → String
cancel_path id = "/runtime/v1/tasks/" +s (id +s "/cancel")

cancel_path-is_cancel : (id : String) → is_cancel (cancel_path id) ≡ true
unfolding is_cancel is_there
cancel_path-is_cancel id =
    rw
      (
        after_prefix-append "/runtime/v1/tasks/" (id +s "/cancel"),
        sym (append_assoc "/runtime/v1/tasks/" id "/cancel"),
        before_suffix-append ("/runtime/v1/tasks/" +s id) "/cancel",
      )
      refl

cancel_path-canceled_id : (id : String) → canceled_id (cancel_path id) ≡ trim_byte 47 id
unfolding canceled_id value_or
cancel_path-canceled_id id =
    rw
      (
        after_prefix-append "/runtime/v1/tasks/" (id +s "/cancel"),
        before_suffix-append id "/cancel",
      )
      refl

not_tasks : (id : String) → (cancel_path id =s "/runtime/v1/tasks") ≡ false
unfolding after_prefix
not_tasks id = elim (Bool-cases (cancel_path id =s "/runtime/v1/tasks")) [
  | inl e ↦
      let same =
        ap (after_prefix "/runtime/v1/tasks/")
          ((=s_iff (cancel_path id) "/runtime/v1/tasks").0 e) in
      cc (sym (after_prefix-append "/runtime/v1/tasks/" (id +s "/cancel")) ∙ same)
  | inr e ↦ e
]

routed_cancel :
    (date_of : String → String) (now : ℕ) (today : String) (body : Option TaskRequest) (r : Request)
    (y : System) (id : String)
    → r.method ≡ "POST"
    → r.path ≡ cancel_path id
    → routed date_of now today body r y ≡ cancels date_of now today body (trim_byte 47 id) y
unfolding routed cova.Base.◌=s◌
routed_cancel date_of now today body r y id method path =
    rw (method, path, cancel_path-is_cancel id, not_tasks id, cancel_path-canceled_id id) refl

-- The request is let in.
module _ (date_of : String → String) (now : ℕ) (today : String) (body : Option TaskRequest)
    (r : Request) (y : System) where
  pub let_in :
      check_auth y.server r ≡ none
      → serve_http date_of now today body r y ≡ routed date_of now today body r y
  unfolding serve_http admitted
  let_in fits = elim (Bool-cases y.server.auth_enabled) [
    | inl e ↦ rw (e, fits) refl
    | inr e ↦ rw e refl
  ]

pub routed_create :
    (date_of : String → String) (now : ℕ) (today : String) (body : Option TaskRequest) (r : Request)
    (y : System)
    → r.method ≡ "POST"
    → r.path ≡ "/runtime/v1/tasks"
    → routed date_of now today body r y ≡ created date_of now today body r y
unfolding routed cova.Base.◌=s◌
routed_create date_of now today body r y method path = rw (method, path) refl

pub task_held :
    (date_of : String → String) (now : ℕ) (today mode : String) (req : TaskRequest) (y : System)
    → validate_task_request req ≡ none
    → y.server.default_async || equal_fold "async" (trim_space mode) ≡ true
    → lookup req.task_id (create_task date_of now today mode (some req) y).0.server.pending
      ≡ some (record { context = y.next_context })
unfolding create_task start_checked start_valid start_async counted count_total count_accepted
    new_expert_task_id
task_held date_of now today mode req y valid async =
    rw (valid, async)
      (lookup-insert_self req.task_id (record { context = y.next_context }) y.server.pending)

token_kept :
    (date_of : String → String) (now : ℕ) (today mode : String) (req : TaskRequest) (y : System)
    → validate_task_request req ≡ none
    → y.server.default_async || equal_fold "async" (trim_space mode) ≡ true
    → (create_task date_of now today mode (some req) y).0.server.auth_token ≡ y.server.auth_token
unfolding create_task start_checked start_valid start_async counted count_total count_accepted
    new_expert_task_id
token_kept date_of now today mode req y valid async = rw (valid, async) refl

held_canceled :
    (id : String) (p : PendingTask) (y : System)
    → is_empty id ≡ false
    → trim_space id ≡ id
    → lookup id y.server.pending ≡ some p
    → (cancel_task id y).1 ≡ canceling
unfolding cancel_task cancel_found
held_canceled id p y filled trimmed held = rw (trimmed, filled, held) refl

valid-filled : (req : TaskRequest) → validate_task_request req ≡ none → is_blank req.task_id ≡ false
unfolding validate_task_request
valid-filled req e = ground arith

module _ (date_of : String → String) (now now' : ℕ) (today : String) (body' : Option TaskRequest)
    (req : TaskRequest) (r r' : Request) (y : System) (valid : validate_task_request req ≡ none)
    (async : y.server.default_async
        || equal_fold "async" (trim_space (header "X-COVA-Execution-Mode" r))
      ≡ true) where
  abbrev after : System
  after = (create_task date_of now today (header "X-COVA-Execution-Mode" r) (some req) y).0

  created_after :
      check_auth y.server r ≡ none
      → r.method ≡ "POST"
      → r.path ≡ "/runtime/v1/tasks"
      → (serve_http date_of now today (some req) r y).0 ≡ after
  unfolding created
  created_after fits method path =
      rw
        (
          let_in date_of now today (some req) r y fits,
          routed_create date_of now today (some req) r y method path,
        )
        refl

  same_token : check_auth after.server r' ≡ check_auth y.server r'
  unfolding check_auth
  same_token =
      rw (token_kept date_of now today (header "X-COVA-Execution-Mode" r) req y valid async) refl

  cancel_after :
      req.task_id ≡ trim_space req.task_id
      → req.task_id ≡ trim_byte 47 req.task_id
      → check_auth y.server r' ≡ none
      → r'.method ≡ "POST"
      → r'.path ≡ cancel_path req.task_id
      → (serve_http date_of now' today body' r' after).1 ≡ task_reply canceling
  unfolding cancels is_blank
  cancel_after trimmed bare fits method path =
      let filled : is_empty req.task_id ≡ false = ap is_empty trimmed ∙ valid-filled req valid in
      let done =
        held_canceled req.task_id (record { context = y.next_context }) after filled (sym trimmed)
          (task_held date_of now today (header "X-COVA-Execution-Mode" r) req y valid async) in
      rw
        (
          let_in date_of now' today body' r' after (same_token ∙ fits),
          routed_cancel date_of now' today body' r' after req.task_id method path,
          sym bare,
          done,
        )
        refl

  -- A task that comes in valid over POST /runtime/v1/tasks in asynchronous mode can be canceled: the
  -- POST to its cancel path that comes next is answered with 202, if both requests pass the check of
  -- the token and the task's id has no space and no slash around it.
  pub created_cancels :
      check_auth y.server r ≡ none
      → r.method ≡ "POST"
      → r.path ≡ "/runtime/v1/tasks"
      → check_auth y.server r' ≡ none
      → r'.method ≡ "POST"
      → r'.path ≡ "/runtime/v1/tasks/" +s (req.task_id +s "/cancel")
      → req.task_id ≡ trim_space req.task_id
      → req.task_id ≡ trim_byte 47 req.task_id
      → (serve_http date_of now' today body' r' (serve_http date_of now today (some req) r y).0).1
        ≡ task_reply canceling
  created_cancels fits method path fits' method' path' trimmed bare =
      rw (created_after fits method path) (cancel_after trimmed bare fits' method' path')
