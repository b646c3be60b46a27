-- ===== src/Runtime/Lost.antt =====
-- internal/expert/runtime/server.go: tasks that no cancel reaches.
use cova.Base.{
  ℕ, String, ◌≡◌, refl, ◌∙◌, true, false, none, some, List, lookup, delete, lookup-delete, is_empty,
  trim_space, ◌=s◌, =s_iff, if_true,
}
use cova.Runtime.Tasks.{
  Run, System, task_not_found, cancel_task, cancel_found, taken, leave_task, leave_found,
}
use cova.Runtime.Runs.{Any}

-- Another background task with the id runs still.
unfoldable pub RunsUnder : String → Run → Type 0
RunsUnder id r = (r.request.task_id ≡ id) × (r.background ≡ true)

-- When a background task leaves, no cancel reaches any other task that was created under the same id,
-- though it runs on: the cancel is answered with 404 and does nothing.
pub namesake_unreachable :
    (c : ℕ) (id : String) (y : System) (r : Run) (rest : List Run)
    → taken c y.ending ≡ some (r, rest)
    → r.request.task_id ≡ id
    → is_empty id ≡ false
    → trim_space id ≡ id
    → Any (RunsUnder id) y.running
    → (cancel_task id (leave_task c y) ≡ (leave_task c y, task_not_found))
      × Any (RunsUnder id) (cancel_task id (leave_task c y)).0.running
unfolding cancel_task cancel_found leave_task leave_found
namesake_unreachable c id y r rest left named filled trimmed others =
    let gone : lookup id (delete r.request.task_id y.server.pending) ≡ none =
      lookup-delete r.request.task_id id y.server.pending
      ∙ if_true (r.request.task_id =s id) none (lookup id y.server.pending)
          ((=s_iff r.request.task_id id).1 named) in
    rw (left, trimmed, filled, gone) (refl, others)
