-- ===== src/Orchestrator/Recovery.antt =====
-- What the server of internal/orchestrator/server.go finds again after a restart.
use cova.Base.{
  ℕ, ◌≤◌, String, ◌≡◌, refl, ap, false, List, [], ◌∷◌, Option, none, some, lookup, map_values,
  arith, ◌==◌, lookup-map_values, map_option,
}
use cova.Jobstore
use cova.Orchestrator.Types.{Job, Server, IdempotencyRecord}
use cova.Orchestrator.Rules.{clone_callback_config}
use cova.Orchestrator.Persist.{
  stored_job, stored_idem, snapshot, persist_locked, restored_job, restored_idem, requeued, enqueue,
  enqueue_all, resume, load_state,
}
use cova.Orchestrator.Consistent.{IsConsistent}

-- What a restart makes of a job.
after_restart :
    (n : ℕ) (j : Job)
    → 1 ≤ j.max_attempts
    → clone_callback_config j.callback ≡ j.callback
    → restored_job n (stored_job j) ≡ requeued j
unfolding restored_job stored_job
after_restart n j h c = let set : (j.max_attempts == 0) ≡ false = ground arith in rw (set, c, c)

-- Queueing leaves the maps alone.
enqueue_all_maps :
    (ids : List String) (s : Server)
    → let t = enqueue_all ids s in
      (t.jobs ≡ s.jobs)
      × (t.idem ≡ s.idem)
      × (t.dlq ≡ s.dlq)
      × (t.next_id ≡ s.next_id)
      × (t.max_attempts ≡ s.max_attempts)
unfolding enqueue_all enqueue
enqueue_all_maps [] s = (refl, refl, refl, refl, refl)
enqueue_all_maps (id ∷ ids) s = enqueue_all_maps ids (enqueue id s)

pub resume_maps :
    (ids : List String) (s : Server)
    → let t = resume ids s in
      (t.jobs ≡ s.jobs)
      × (t.idem ≡ s.idem)
      × (t.dlq ≡ s.dlq)
      × (t.next_id ≡ s.next_id)
      × (t.max_attempts ≡ s.max_attempts)
unfolding resume persist_locked
resume_maps [] s = (refl, refl, refl, refl, refl)
resume_maps (id ∷ ids) s = enqueue_all_maps (id ∷ ids) (persist_locked s)

pub load_max_attempts :
    (state : Jobstore.State) (u : Server) → (load_state state u).max_attempts ≡ u.max_attempts
unfolding load_state
load_max_attempts state u = (resume_maps _ _).4

-- The look-ups in a restarted server.
pub record Restarted (s t : Server) : Type 0 where
  pub jobs : (id : String) → lookup id t.jobs ≡ map_option requeued (lookup id s.jobs)
  pub idem : (k : String) → lookup k t.idem ≡ lookup k s.idem
  pub dlq : t.dlq ≡ s.dlq
  pub next_id : t.next_id ≡ s.next_id

restored_idem-stored_idem : (r : IdempotencyRecord) → restored_idem (stored_idem r) ≡ r
unfolding restored_idem stored_idem
restored_idem-stored_idem r = refl

module _ (s u : Server) (v : IsConsistent s) where
  restored_lookup :
      (id : String)
      → lookup id (map_values (restored_job u.max_attempts) (map_values stored_job s.jobs))
        ≡ map_option requeued (lookup id s.jobs)
  restored_lookup id =
      rw
        (
          lookup-map_values (restored_job u.max_attempts) id (map_values stored_job s.jobs),
          lookup-map_values stored_job id s.jobs,
        )
        (go (lookup id s.jobs) refl)
    where
      go :
          (o : Option Job)
          → lookup id s.jobs ≡ o
          → map_option (restored_job u.max_attempts) (map_option stored_job o)
            ≡ map_option requeued o
      go none e = refl
      go (some j) e =
          ap some
            (after_restart u.max_attempts j (omega (arith, v.attempts id j e)) (v.cloned id j e))

  restored_records :
      (k : String)
      → lookup k (map_values restored_idem (map_values stored_idem s.idem)) ≡ lookup k s.idem
  restored_records k =
      rw
        (
          lookup-map_values restored_idem k (map_values stored_idem s.idem),
          lookup-map_values stored_idem k s.idem,
        )
        (go (lookup k s.idem))
    where
      go : (o : Option IdempotencyRecord) → map_option restored_idem (map_option stored_idem o) ≡ o
      go none = refl
      go (some r) = ap some (restored_idem-stored_idem r)

  -- A server that loads what a consistent server saved last finds every job as it was, but for one
  -- that was running, which is queued again with no progress; and the same idempotency records, dead
  -- letters and counter.
  pub load-save : Restarted s (load_state (snapshot s) u)
  unfolding load_state snapshot
  load-save =
      let m = resume_maps _ _ in
      record {
        jobs = λ id. rw m.0 (restored_lookup id);
        idem = λ k. rw m.1 (restored_records k);
        dlq = m.2;
        next_id = m.3;
      }
