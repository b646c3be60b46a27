-- ===== src/Orchestrator/Stale.antt =====
-- internal/orchestrator/server.go: a queue entry left over from an earlier life of a job.
use cova.Base.{
  ℕ, ◌≤◌, ◌||◌, String, ◌≡◌, refl, ◌∙◌, ap, true, false, Option, none, some, List, [], ◌∷◌, ◌++◌,
  lookup, delete, arith, ltb, is_empty, trim_space, lookup-insert_self,
}
use cova.Api.{SubmitBriefRequest, ExpertResult, running, succeeded, canceled}
use cova.Orchestrator.Queue
use cova.Orchestrator.Queue.{MemoryQueue}
use cova.Orchestrator.Types.{Job, Server, JobParams}
use cova.Orchestrator.Rules.{is_terminal, is_canceled, is_expired, job_in_scope}
use cova.Orchestrator.Persist.{persist_locked, enqueue}
use cova.Orchestrator.Read.{on_job, in_scope, put_job, expire_found, expire_job_if_needed}
use cova.Orchestrator.Control.{
  can_replay, canceled_job, cancel_found, cancel_job, replayed_job, replay_found, replay_job,
}
use cova.Orchestrator.Worker.{
  done, done_found, completed_job, process_start, start_found, started_job, process_finish,
  finish_found,
}
use cova.Orchestrator.System.{
  System, cancels, replays, takes, finishes, take, take_next, finish, step, run,
}
use cova.Orchestrator.Faults.{status_of}

-- A job that is to run and has two entries in the queue, and no other job has one.
record Doubled (id : String) (t : ℕ) (s : Server) : Type 0 where
  job : Job
  found : lookup id s.jobs ≡ some job
  awake : is_canceled job.status ≡ false
  live : is_expired job t ≡ false
  entries : s.queue.items ≡ id ∷ id ∷ []

module _ (t : ℕ) (p : JobParams) where
  canceled_server : Job → Server → Server
  canceled_server j s = persist_locked (put_job p.job_id (canceled_job t j) s)

  cancel-eq :
      (stamp : ℕ) (s : Server) (j : Job)
      → lookup p.job_id s.jobs ≡ some j
      → is_terminal j.status ≡ false
      → is_expired j t ≡ false
      → (is_empty (trim_space p.tenant_id) || is_empty (trim_space p.project_id)) ≡ false
      → job_in_scope j (trim_space p.tenant_id) (trim_space p.project_id) ≡ true
      → (cancel_job stamp t t p s).0 ≡ canceled_server j s
  unfolding cancel_job on_job canceled_server
  cancel-eq stamp s j found going live scoped own =
      let idle : expire_job_if_needed t p.job_id s ≡ s =
        (unfold expire_job_if_needed in rw (found, expire_found, going, live)) in
      rw (scoped, idle, found, in_scope, own) (rw (cancel_found, going) refl)

  replayed_server : String → Job → Server → Server
  replayed_server id j s =
      let stored = put_job p.job_id (replayed_job t j) s in
      enqueue id (persist_locked (record stored { dlq = delete id s.dlq }))

  replay-eq :
      (stamp : ℕ) (s : Server) (j : Job)
      → lookup p.job_id s.jobs ≡ some j
      → j.id ≡ p.job_id
      → j.status ≡ canceled
      → (is_empty (trim_space p.tenant_id) || is_empty (trim_space p.project_id)) ≡ false
      → job_in_scope j (trim_space p.tenant_id) (trim_space p.project_id) ≡ true
      → (replay_job stamp t t p s).0 ≡ replayed_server p.job_id j s
  unfolding replay_job on_job replayed_server
  replay-eq stamp s j found named was scoped own =
      let final : is_terminal j.status ≡ true = ap is_terminal was in
      let allowed : can_replay j.status ≡ true = ap can_replay was in
      let idle : expire_job_if_needed t p.job_id s ≡ s =
        (unfold expire_job_if_needed in rw (found, expire_found, final)) in
      rw (scoped, idle, found, in_scope, own)
        (rw (replay_found, allowed) (ap (λ id. replayed_server id j s) named))

  enqueue_second :
      (id : String) (s : Server)
      → s.queue.items ≡ id ∷ []
      → s.queue.closed ≡ false
      → 2 ≤ s.queue.size
      → (enqueue id s).queue.items ≡ id ∷ id ∷ []
  unfolding enqueue Queue.enqueue
  enqueue_second id s alone unclosed room =
      let fits : ltb 1 s.queue.size ≡ true = ground arith in rw (unclosed, alone, fits) refl

  replayed-Doubled :
      (s : Server) (j : Job)
      → is_expired j t ≡ false
      → s.queue.items ≡ p.job_id ∷ []
      → s.queue.closed ≡ false
      → 2 ≤ s.queue.size
      → Doubled p.job_id t (replayed_server p.job_id (canceled_job t j) (canceled_server j s))
  unfolding replayed_server canceled_server canceled_job enqueue persist_locked put_job replayed_job
  replayed-Doubled s j live alone unclosed room = record {
    job = replayed_job t (canceled_job t j);
    found = lookup-insert_self p.job_id _ _;
    awake = refl;
    live = unfold is_expired in live;
    entries =
        let c = canceled_server j s in
        let stored = put_job p.job_id (replayed_job t (canceled_job t j)) c in
        enqueue_second p.job_id (persist_locked (record stored { dlq = delete p.job_id c.dlq }))
          alone unclosed room;
  }

abbrev idle : Server → System
idle s = record { server = s; busy = none }

module _ (hash_request : SubmitBriefRequest → Option String) (r : ExpertResult) (t : ℕ) where
  taken : String → Job → List String → Server → Server
  taken id j rest s =
      persist_locked
        (put_job id (started_job t j) (record s { queue = record s.queue { items = rest } }))

  takes-eq :
      (id : String) (s : Server) (j : Job) (rest : List String)
      → s.queue.items ≡ id ∷ rest
      → lookup id s.jobs ≡ some j
      → is_canceled j.status ≡ false
      → is_expired j t ≡ false
      → step hash_request (idle s) (takes t t)
        ≡ record { server = taken id j rest s; busy = some id }
  unfolding step take_next process_start taken
  takes-eq id s j rest entry found awake live =
      rw (entry, Queue.dequeue, Queue.take_first, take) (rw (found, start_found, awake, live))

  finished : String → Job → Server → Server
  finished id j s =
      persist_locked
        (put_job id (completed_job t r (started_job t j)) (record s { dlq = delete id s.dlq }))

  finishes-eq :
      (id : String) (s : Server) (j : Job) (rest : List String)
      → is_expired j t ≡ false
      → step hash_request
          (record { server = taken id j rest s; busy = some id })
          (finishes (done r) t t)
        ≡ idle (finished id j (taken id j rest s))
  unfolding step finish process_finish finish_found finished taken persist_locked put_job done_found
  finishes-eq id s j rest live =
      let still : is_expired (started_job t j) t ≡ false =
        (unfold is_expired started_job in live) in
      rw (lookup-insert_self id (started_job t j) s.jobs) (unfold started_job in rw still refl)

  finished-status :
      (id : String) (j : Job) (s : Server) → status_of id (finished id j s) ≡ some succeeded
  unfolding finished persist_locked put_job completed_job
  finished-status id j s = rw lookup-insert_self

  taken-status :
      (id : String) (j : Job) (rest : List String) (s : Server)
      → status_of id (taken id j rest s) ≡ some running
  unfolding taken persist_locked put_job started_job
  taken-status id j rest s = rw lookup-insert_self

  -- The worker meets both entries.
  served_twice :
      (id : String) (s : Server)
      → Doubled id t s
      → let served = takes t t ∷ finishes (done r) t t ∷ [] in
        (status_of id (run hash_request (idle s) served).server ≡ some succeeded)
        × (status_of id (run hash_request (idle s) (served ++ takes t t ∷ [])).server
            ≡ some running)
  unfolding run
  served_twice id s h =
      let j = h.job in
      let one = taken id j (id ∷ []) s in
      let two = finished id j one in
      let after = completed_job t r (started_job t j) in
      let first = takes-eq id s j (id ∷ []) h.entries h.found h.awake h.live in
      let second = finishes-eq id s j (id ∷ []) h.live in
      let third =
        takes-eq id two after [] (unfold finished taken persist_locked put_job in refl)
          (unfold finished persist_locked put_job in lookup-insert_self id after one.jobs)
          (unfold completed_job in refl) (unfold is_expired completed_job started_job in h.live) in
      let served : run hash_request (idle s) (takes t t ∷ finishes (done r) t t ∷ []) ≡ idle two =
        ap (λ (y : System). step hash_request y (finishes (done r) t t)) first ∙ second in
      let again = ap (λ (y : System). step hash_request y (takes t t)) served ∙ third in
      (
        ap (λ (y : System). status_of id y.server) served ∙ finished-status id j one,
        ap (λ (y : System). status_of id y.server) again ∙ taken-status id after [] two,
      )

  -- A job that waits in the queue, alone there, is canceled and replayed, which leaves two entries for
  -- it in the queue: the worker takes the first, and the job succeeds; then it takes the second, and
  -- the job is running again. The job is within its deadline, the queue is open and has room for two,
  -- the caller names the job's scope, and the clock stands still.
  pub stale_entry_restarts :
      (stamp : ℕ) (p : JobParams) (s : Server) (j : Job)
      → lookup p.job_id s.jobs ≡ some j
      → j.id ≡ p.job_id
      → is_terminal j.status ≡ false
      → is_expired j t ≡ false
      → (is_empty (trim_space p.tenant_id) || is_empty (trim_space p.project_id)) ≡ false
      → job_in_scope j (trim_space p.tenant_id) (trim_space p.project_id) ≡ true
      → s.queue.items ≡ p.job_id ∷ []
      → s.queue.closed ≡ false
      → 2 ≤ s.queue.size
      → let life =
          cancels stamp t t p ∷ replays stamp t t p ∷ takes t t ∷ finishes (done r) t t ∷ [] in
        (status_of p.job_id (run hash_request (idle s) life).server ≡ some succeeded)
        × (status_of p.job_id (run hash_request (idle s) (life ++ takes t t ∷ [])).server
            ≡ some running)
  unfolding run step
  stale_entry_restarts stamp p s j found named going live scoped own alone unclosed room =
      let first = cancel-eq t p stamp s j found going live scoped own in
      let c = canceled_server t p j s in
      let second =
        replay-eq t p stamp c (canceled_job t j)
          (unfold canceled_server persist_locked put_job in
            lookup-insert_self p.job_id (canceled_job t j) s.jobs)
          (unfold canceled_job in named) (unfold canceled_job in refl) scoped
          (unfold job_in_scope canceled_job in own) in
      rw (first, second)
        (served_twice p.job_id (replayed_server t p p.job_id (canceled_job t j) c)
          (replayed-Doubled t p s j live alone unclosed room))
