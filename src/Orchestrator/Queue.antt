-- ===== src/Orchestrator/Queue.antt =====
-- internal/orchestrator/queue.go: the in-memory job queue, a buffered channel and a closed flag.
use cova.Base.{
  ℕ, String, Bool, true, false, List, [], ◌∷◌, ◌++◌, Option, none, some, length, ltb, ◌==◌,
  if◌then◌else◌,
}

pub record MemoryQueue : Type 0 where
  pub size : ℕ
  pub items : List String
  pub closed : Bool

pub data QueueError : Type 0 where
  queue_closed canceled : QueueError

-- `newMemoryQueue`; a size that is not positive is 0 here.
unfoldable pub new_memory_queue : ℕ → MemoryQueue
new_memory_queue size = record {
  size = if size == 0 then 256 else size;
  items = [];
  closed = false;
}

-- `Enqueue`. On a full channel the call waits for its context, which the server bounds to three
-- seconds: it fails. A consumer that makes room in time is a `dequeue` before the call.
unfoldable pub enqueue : String → MemoryQueue → MemoryQueue × Option QueueError
enqueue id q =
    if q.closed
    then (q, some queue_closed)
    else if ltb (length q.items) q.size
    then (record q { items = q.items ++ id ∷ [] }, none)
    else (q, some canceled)

unfoldable pub take_first : List String → MemoryQueue → Option (String × MemoryQueue)
take_first [] q = none
take_first (id ∷ rest) q = some (id, record q { items = rest })

-- `Dequeue`; `none` while the channel is empty, where the call waits. `Close` leaves the channel
-- open, so a closed queue still hands out what it holds.
unfoldable pub dequeue : MemoryQueue → Option (String × MemoryQueue)
unfolding take_first
dequeue q = take_first q.items q

-- `Depth`
unfoldable pub depth : MemoryQueue → ℕ
depth q = length q.items

-- `Close`
unfoldable pub close : MemoryQueue → MemoryQueue
close q = record q { closed = true }
