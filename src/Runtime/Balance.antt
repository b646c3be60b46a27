-- ===== src/Runtime/Balance.antt =====
-- internal/expert/runtime/server.go: what one step of a runtime does to its counters.
use cova.Base.{
  ℕ, suc, ◌+◌, ◌^◌, ◌≤◌, ◌<◌, String, ◌≡◌, Bool-cases, ◌||◌, Option, none, some, List, inl, inr,
  lookup, length, arith, Option-cases, trim_space, is_empty,
}
use cova.Base.Fold.{equal_fold}
use cova.Runtime.{TaskRequest, PendingTask, validate_task_request}
use cova.Runtime.Tasks.{
  Run, System, Outcome, produced, broke, up, create_task, start_checked, start_valid, start_async,
  start_sync, counted, count_total, count_accepted, count_succeeded, count_failed, count_canceled,
  new_expert_task_id, cancel_task, cancel_found, end_task, end_found, settle, taken, leave_task,
  leave_found, Action, create, cancel, ends, leaves, step,
}
use cova.Runtime.Runs.{
  length-insert, length-delete, length-delete_held, length-cancel_context, taken-Splits,
}

-- After at most `n` actions.
pub record Balanced (n : ℕ) (y : System) : Type 0 where
  pub total :
      y.server.metrics.total
      ≡ y.server.metrics.succeeded + y.server.metrics.failed + length y.running
  pub known : y.server.metrics.total ≤ n
  pub held : y.server.metrics.canceled + length y.server.pending ≤ y.server.metrics.accepted
  pub most : y.server.metrics.accepted ≤ n
  pub reported : length y.sent ≤ y.server.metrics.succeeded

up_small : (n x : ℕ) → n + 1 < 2 ^ 64 → x ≤ n → up x ≡ x + 1
unfolding up
up_small n x room le = omega (arith, room, le)

later : (n : ℕ) (y : System) → Balanced n y → Balanced (n + 1) y
later n y b = record {
  total = b.total;
  known = let k = b.known in omega (arith, k);
  held = b.held;
  most = let k = b.most in omega (arith, k);
  reported = b.reported;
}

module _ (n : ℕ) (room : n + 1 < 2 ^ 64) (y : System) (b : Balanced n y) where
  async-Balanced :
      (date_of : String → String) (now : ℕ) (today : String) (req : TaskRequest)
      → Balanced (n + 1) (start_async date_of now today req (counted y)).0
  unfolding start_async counted count_total count_accepted new_expert_task_id
  async-Balanced date_of now today req =
      let t = up_small n y.server.metrics.total room b.known in
      let a = up_small n y.server.metrics.accepted room b.most in
      let e = b.total in
      let k = b.known in
      let h = b.held in
      let m = b.most in
      let le = length-insert req.task_id (record { context = y.next_context }) y.server.pending in
      record {
        total = omega (arith, t, e);
        known = omega (arith, t, k);
        held = omega (arith, a, h, le);
        most = omega (arith, a, m);
        reported = b.reported;
      }

  sync-Balanced :
      (date_of : String → String) (today : String) (req : TaskRequest)
      → Balanced (n + 1) (start_sync date_of today req (counted y)).0
  unfolding start_sync counted count_total
  sync-Balanced date_of today req =
      let t = up_small n y.server.metrics.total room b.known in
      let e = b.total in
      let k = b.known in
      let m = b.most in
      record {
        total = omega (arith, t, e);
        known = omega (arith, t, k);
        held = b.held;
        most = omega (arith, m);
        reported = b.reported;
      }

  start-Balanced :
      (date_of : String → String) (now : ℕ) (today mode : String) (req : TaskRequest)
      → Balanced (n + 1) (start_valid date_of now today mode req y).0
  unfolding start_valid
  start-Balanced date_of now today mode req =
      elim (Bool-cases (y.server.default_async || equal_fold "async" (trim_space mode))) [
        | inl t ↦ rw t (async-Balanced date_of now today req)
        | inr f ↦ rw f (sync-Balanced date_of today req)
      ]

  create-Balanced :
      (date_of : String → String) (now : ℕ) (today mode : String) (body : Option TaskRequest)
      → Balanced (n + 1) (create_task date_of now today mode body y).0
  unfolding create_task start_checked
  create-Balanced date_of now today mode none = later n y b
  create-Balanced date_of now today mode (some req) =
      elim (Option-cases (validate_task_request req)) [
        | inl e ↦ rw e (start-Balanced date_of now today mode req)
        | inr (why, e) ↦ rw e (later n y b)
      ]

  found-Balanced :
      (id : String) (p : PendingTask)
      → lookup id y.server.pending ≡ some p
      → Balanced (n + 1) (cancel_found id y (some p)).0
  unfolding cancel_found count_canceled
  found-Balanced id p e =
      let le = length-delete_held id p y.server.pending e in
      let h = b.held in
      let m = b.most in
      let k = b.known in
      let t = b.total in
      let c = up_small n y.server.metrics.canceled room (omega (arith, h, m)) in
      let same = length-cancel_context p.context y.running in
      record {
        total = omega (arith, t, same);
        known = omega (arith, k);
        held = omega (arith, c, le, h);
        most = omega (arith, m);
        reported = b.reported;
      }

  cancel-Balanced : (id : String) → Balanced (n + 1) (cancel_task id y).0
  unfolding cancel_task cancel_found
  cancel-Balanced raw = elim (Bool-cases (is_empty (trim_space raw))) [
    | inl t ↦ rw t (later n y b)
    | inr f ↦ elim (Option-cases (lookup (trim_space raw) y.server.pending)) [
      | inl e ↦ rw (f, e) (later n y b)
      | inr (p, e) ↦ rw (f, e) (found-Balanced (trim_space raw) p e)
    ]
  ]

  leave-Balanced : (c : ℕ) → Balanced (n + 1) (leave_task c y)
  unfolding leave_task leave_found
  leave-Balanced c = elim (Option-cases (taken c y.ending)) [
    | inl e ↦ rw e (later n y b)
    | inr ((r, rest), e) ↦
        let le = length-delete r.request.task_id y.server.pending in
        let h = b.held in
        let more = later n y b in
        rw e (record {
          total = b.total;
          known = more.known;
          held = omega (arith, le, h);
          most = more.most;
          reported = b.reported;
        })
  ]

  settle-Balanced :
      (now : ℕ) (o : Outcome) (r : Run) (rest : List Run)
      → length y.running ≡ suc (length rest)
      → Balanced (n + 1) (settle now o r (record y { running = rest })).0
  unfolding settle count_failed count_succeeded
  settle-Balanced now (broke e) r rest fewer =
      let t = b.total in
      let k = b.known in
      let f = up_small n y.server.metrics.failed room (omega (arith, t, k)) in
      let more = later n y b in
      elim (Bool-cases r.background) [
        | inl g ↦ rw g (record {
          total = omega (arith, t, f, fewer);
          known = more.known;
          held = more.held;
          most = more.most;
          reported = b.reported;
        })
        | inr g ↦ rw g (record {
          total = omega (arith, t, f, fewer);
          known = more.known;
          held = more.held;
          most = more.most;
          reported = b.reported;
        })
      ]
  settle-Balanced now (produced result) r rest fewer =
      let t = b.total in
      let k = b.known in
      let q = b.reported in
      let f = up_small n y.server.metrics.succeeded room (omega (arith, t, k)) in
      let more = later n y b in
      elim (Bool-cases r.background) [
        | inl g ↦ rw g (record {
          total = omega (arith, t, f, fewer);
          known = more.known;
          held = more.held;
          most = more.most;
          reported = omega (arith, f, q);
        })
        | inr g ↦ rw g (record {
          total = omega (arith, t, f, fewer);
          known = more.known;
          held = more.held;
          most = more.most;
          reported = omega (arith, f, q);
        })
      ]

  end-Balanced : (now c : ℕ) (o : Outcome) → Balanced (n + 1) (end_task now c o y).0
  unfolding end_task end_found
  end-Balanced now c o = elim (Option-cases (taken c y.running)) [
    | inl e ↦ rw e (later n y b)
    | inr ((r, rest), e) ↦
        let s = taken-Splits (λ q. Unit) c y.running r rest e in
        rw e (settle-Balanced now o r rest s.lengths)
  ]

  pub step-Balanced : (date_of : String → String) (a : Action) → Balanced (n + 1) (step date_of a y)
  unfolding step
  step-Balanced date_of (create now today mode body) = create-Balanced date_of now today mode body
  step-Balanced date_of (cancel id) = cancel-Balanced id
  step-Balanced date_of (ends now c o) = end-Balanced now c o
  step-Balanced date_of (leaves c) = leave-Balanced c
