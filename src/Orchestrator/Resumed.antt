-- ===== src/Orchestrator/Resumed.antt =====
-- What `loadState` of internal/orchestrator/server.go makes of each job, and of the queue.
use cova.Base.{
  ◌+◌, ◌≤◌, ◌<◌, String, ◌≡◌, ◌≢◌, refl, ap, sym, ◌∙◌, true, false, List, [], ◌∷◌, ◌++◌, Option,
  none, some, Dict, lookup, length, map_values, length-append, ◌⊎◌, inl, inr, Bool-cases, ◌=s◌,
  arith, =s_iff, map_option, ltb,
}
use mathlib.Core.List.{append-nil, append_assoc}
use cova.Api.{JobStatus, queued, running, succeeded, failed, canceled, expired, other}
use cova.Jobstore
use cova.Orchestrator.Queue
use cova.Orchestrator.Types.{Job, Server}
use cova.Orchestrator.Persist.{
  snapshot, persist_locked, requeued, is_running, is_queued, pending, enqueue, enqueue_all, resume,
  restored_job, stored_job, load_state,
}
use cova.Orchestrator.Consistent.{IsConsistent}
use cova.Orchestrator.Recovery.{load-save, resume_maps}

-- A job before and after a restart: one that was running is queued with no progress, any other is as
-- it was.
unfoldable pub Resumed : Job → Job → Type 0
Resumed j i =
    ((j.status ≡ running) × (i ≡ record j { status = queued; progress = 0 }))
    ⊎ ((j.status ≢ running) × (i ≡ j))

-- The id stands in the queue.
unfoldable pub Listed : List String → String → Type 0
Listed items id = (before after : List String) × (items ≡ before ++ id ∷ after)

-- What a look-up of an id finds before and after, with the queue after.
pub data Regained (items : List String) (id : String) (before after : Option Job) : Type 0 where
  missing : before ≡ none → after ≡ none → Regained items id before after
  found :
      (j i : Job)
      → before ≡ some j
      → after ≡ some i
      → Resumed j i
      → (i.status ≢ queued) ⊎ Listed items id
      → Regained items id before after

pub record Recovered (s t : Server) : Type 0 where
  pub jobs : (id : String) → Regained t.queue.items id (lookup id s.jobs) (lookup id t.jobs)
  pub idem : (k : String) → lookup k t.idem ≡ lookup k s.idem
  pub dlq : t.dlq ≡ s.dlq
  pub next_id : t.next_id ≡ s.next_id

running_only : (x : JobStatus) → is_running x ≡ true → x ≡ running
running_only running e = refl
running_only queued e = cc e
running_only succeeded e = cc e
running_only failed e = cc e
running_only canceled e = cc e
running_only expired e = cc e
running_only (other x) e = cc e

requeued-Resumed : (j : Job) → Resumed j (requeued j)
unfolding Resumed requeued
requeued-Resumed j = elim (Bool-cases (is_running j.status)) [
  | inl was ↦ inl (running_only j.status was, rw was refl)
  | inr idle ↦ inr (λ e. let no = ap is_running e in cc (no, idle), rw idle refl)
]

enqueue_room :
    (id : String) (s : Server)
    → s.queue.closed ≡ false
    → length s.queue.items < s.queue.size
    → enqueue id s ≡ record s { queue = record s.queue { items = s.queue.items ++ id ∷ [] } }
unfolding enqueue Queue.enqueue
enqueue_room id s unclosed room =
    let some_room : ltb (length s.queue.items) s.queue.size ≡ true = ground arith in
    rw (unclosed, some_room) refl

-- Queueing with room for every id.
enqueue_all_items :
    (ids : List String) (s : Server)
    → s.queue.closed ≡ false
    → length s.queue.items + length ids ≤ s.queue.size
    → (enqueue_all ids s).queue.items ≡ s.queue.items ++ ids
unfolding enqueue_all
enqueue_all_items [] s unclosed room = sym (append-nil s.queue.items)
enqueue_all_items (id ∷ ids) s unclosed room =
    let longer = length-append s.queue.items (id ∷ []) in
    let t = record s { queue = record s.queue { items = s.queue.items ++ id ∷ [] } } in
    rw (enqueue_all, enqueue_room id s unclosed (omega (arith, room)))
      (enqueue_all_items ids t unclosed (omega (arith, longer, room))
        ∙ append_assoc s.queue.items (id ∷ []) ids)

resume_items :
    (ids : List String) (s : Server)
    → s.queue.closed ≡ false
    → length s.queue.items + length ids ≤ s.queue.size
    → (resume ids s).queue.items ≡ s.queue.items ++ ids
unfolding resume persist_locked
resume_items [] s unclosed room = sym (append-nil s.queue.items)
resume_items (id ∷ ids) s unclosed room =
    enqueue_all_items (id ∷ ids) (persist_locked s) unclosed room

length-pending : (m : Dict Job) → length (pending m) ≤ length m
unfolding pending
length-pending [] = omega arith
length-pending ((id, j) ∷ m) = let less = length-pending m in ground (arith, less)

length-map_values :
    (f : Jobstore.Job → Job) (g : Job → Jobstore.Job) (m : Dict Job)
    → length (map_values f (map_values g m)) ≡ length m
unfolding map_values
length-map_values f g [] = refl
length-map_values f g ((id, j) ∷ m) = omega (arith, length-map_values f g m)

pending-Listed :
    (id : String) (j : Job) (m : Dict Job)
    → lookup id m ≡ some j
    → is_queued j.status ≡ true
    → Listed (pending m) id
unfolding pending lookup Listed
pending-Listed id j [] e is = cc e
pending-Listed id j ((k, i) ∷ m) e is = elim (Bool-cases (k =s id)) [
  | inl same ↦
      let held : i ≡ j = (let found = rw same at e in cc found) in
      rw (held, is) ([], pending m, ap (λ x. x ∷ pending m) ((=s_iff k id).0 same))
  | inr apart ↦
      let ih = pending-Listed id j m (rw apart at e) is in
      elim (Bool-cases (is_queued i.status)) [
        | inl first ↦ rw first (k ∷ ih.0, ih.1, ap (λ xs. k ∷ xs) ih.2)
        | inr skipped ↦ rw skipped ih
      ]
]

Listed-append :
    (items more : List String) (id : String) → Listed more id → Listed (items ++ more) id
unfolding Listed
Listed-append items more id h =
    (items ++ h.0, h.1, ap (λ xs. items ++ xs) h.2 ∙ sym (append_assoc items h.0 (id ∷ h.1)))

module _ (s u : Server) (v : IsConsistent s) (unclosed : u.queue.closed ≡ false)
    (room : length u.queue.items + length s.jobs ≤ u.queue.size) where
  load_state_items :
      let t = load_state (snapshot s) u in t.queue.items ≡ u.queue.items ++ pending t.jobs
  unfolding load_state snapshot
  load_state_items =
      let jobs = map_values (restored_job u.max_attempts) (map_values stored_job s.jobs) in
      let fewer = length-pending jobs in
      let alike = length-map_values (restored_job u.max_attempts) stored_job s.jobs in
      rw (resume_maps _ _).0
        (resume_items (pending jobs) _ unclosed (omega (arith, room, fewer, alike)))

  queued_again :
      (id : String) (i : Job)
      → lookup id (load_state (snapshot s) u).jobs ≡ some i
      → (i.status ≢ queued) ⊎ Listed (load_state (snapshot s) u).queue.items id
  queued_again id i held = elim (Bool-cases (is_queued i.status)) [
    | inl waits ↦ inr (
        rw load_state_items (
          Listed-append u.queue.items (pending (load_state (snapshot s) u).jobs) id
            (pending-Listed id i (load_state (snapshot s) u).jobs held waits)))
    | inr apart ↦ inl (λ e. let no = ap is_queued e in cc (no, apart))
  ]

  -- A server with an open queue that has room for every job, loading what a consistent server saved
  -- last: each job is found as it was, but for one that was running, which is queued with no progress;
  -- no other job is found; each job that is queued has an entry in the queue; and the idempotency
  -- records, the dead letters and the counter are the same.
  pub load_state-Recovered : Recovered s (load_state (snapshot s) u)
  load_state-Recovered =
      let m = load-save s u v in
      record {
        jobs = λ id. regained id (lookup id s.jobs) refl (m.jobs id);
        idem = m.idem;
        dlq = m.dlq;
        next_id = m.next_id;
      }
    where
      regained :
          (id : String) (o : Option Job)
          → lookup id s.jobs ≡ o
          → lookup id (load_state (snapshot s) u).jobs ≡ map_option requeued (lookup id s.jobs)
          → Regained
              (load_state (snapshot s) u).queue.items
              id
              (lookup id s.jobs)
              (lookup id (load_state (snapshot s) u).jobs)
      regained id none e h = missing e (h ∙ ap (map_option requeued) e)
      regained id (some j) e h =
          let held = h ∙ ap (map_option requeued) e in
          found j (requeued j) e held (requeued-Resumed j) (queued_again id (requeued j) held)
