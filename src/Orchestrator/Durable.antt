-- ===== src/Orchestrator/Durable.antt =====
-- internal/orchestrator/server.go: what a server has saved last is what it knows, between any two of
-- its actions.
use cova.Base.{
  ℕ, String, ◌≡◌, refl, Bool, true, false, Option, none, some, List, [], ◌∷◌, if◌then◌else◌, lookup,
}
use cova.Api.{SubmitBriefRequest, Reply, CallbackConfig}
use cova.Jobstore
use cova.Orchestrator.Queue.{MemoryQueue}
use cova.Orchestrator.Types.{Server, Job, JobParams}
use cova.Orchestrator.Persist.{snapshot, persist_locked, enqueue}
use cova.Orchestrator.Read.{
  on_job, status_found, result_found, expire_job_if_needed, expire_found, get_job_status,
  get_job_result,
}
use cova.Orchestrator.Control.{cancel_found, replay_found, cancel_job, replay_job}
use cova.Orchestrator.Submit.{
  Checked, reject, pass, Admission, create, admit, decide, submit_brief_job,
}
use cova.Orchestrator.Types.{IdempotencyRecord}
use cova.Orchestrator.Worker.{
  Outcome, done, async_accepted, execution_failed, BriefInput, start_found, process_start,
  finish_found, process_finish, async_found, failed_found, done_found,
}
use cova.Orchestrator.Events.{ExpertTaskEventData, EventReply, report, report_found, handle_event}
use cova.Orchestrator.System.{
  System, Action, submits, asks_status, asks_result, cancels, replays, reports, takes, finishes,
  busy_with, take, take_next, finish, step, run,
}

-- What the store holds after these saves; `first` is what it held before them.
unfoldable pub latest : Jobstore.State → List Jobstore.State → Jobstore.State
latest first [] = first
latest first (state ∷ states) = state

-- The store holds the server's maps and its counter.
unfoldable pub IsSaved : Jobstore.State → Server → Type 0
unfolding latest
IsSaved first s = latest first s.saves ≡ snapshot s

-- Such a server, with something else.
unfoldable Keeps {ℓ} : {A : Type ℓ} → Jobstore.State → Server × A → Type 0
unfolding IsSaved
Keeps first d = IsSaved first d.0

unfoldable Reported : Jobstore.State → Server × Option CallbackConfig × EventReply → Type 0
unfolding IsSaved
Reported first d = IsSaved first d.0

module _ (first : Jobstore.State) where
  with_reply {ℓ} : {A : Type ℓ} (s : Server) (a : A) → IsSaved first s → Keeps first (s, a)
  unfolding Keeps
  with_reply s a h = h

  if-Keeps {ℓ} :
      {A : Type ℓ} (b : Bool) (d e : Server × A)
      → Keeps first d
      → Keeps first e
      → Keeps first (if b then d else e)
  if-Keeps true d e h g = h
  if-Keeps false d e h g = g

  if-IsSaved :
      (b : Bool) (s t : Server)
      → IsSaved first s
      → IsSaved first t
      → IsSaved first (if b then s else t)
  if-IsSaved true s t h g = h
  if-IsSaved false s t h g = g

  pub persist_locked-IsSaved : (s : Server) → IsSaved first (persist_locked s)
  unfolding IsSaved latest persist_locked snapshot
  persist_locked-IsSaved s = refl

  pub enqueue-IsSaved : (id : String) (s : Server) → IsSaved first s → IsSaved first (enqueue id s)
  unfolding IsSaved enqueue snapshot
  enqueue-IsSaved id s h = h

  ruleset saving = (with_reply, if-Keeps, if-IsSaved, persist_locked-IsSaved, enqueue-IsSaved)

  expire_found-IsSaved :
      (now : ℕ) (id : String) (s : Server) (o : Option Job)
      → IsSaved first s
      → IsSaved first (expire_found now id s o)
  unfolding expire_found
  expire_found-IsSaved now id s none h = h
  expire_found-IsSaved now id s (some j) h = search (saving) depth 20

  on_job-Keeps :
      (suffix : String) (stamp now : ℕ) (p : JobParams)
      (go : String → Server → Option Job → Server × Reply) (s : Server)
      → ((r : String) (t : Server) (o : Option Job) → IsSaved first t → Keeps first (go r t o))
      → IsSaved first s
      → Keeps first (on_job suffix stamp now p go s)
  unfolding on_job expire_job_if_needed
  on_job-Keeps suffix stamp now p go s k h =
      let aged = expire_found-IsSaved now p.job_id s (lookup p.job_id s.jobs) h in
      search (saving, k) depth 20

  cancel_found-Keeps :
      (later : ℕ) (p : JobParams) (r : String) (t : Server) (o : Option Job)
      → IsSaved first t
      → Keeps first (cancel_found later p r t o)
  unfolding cancel_found
  cancel_found-Keeps later p r t none h = search (saving) depth 20
  cancel_found-Keeps later p r t (some j) h = search (saving) depth 20

  replay_found-Keeps :
      (later : ℕ) (p : JobParams) (r : String) (t : Server) (o : Option Job)
      → IsSaved first t
      → Keeps first (replay_found later p r t o)
  unfolding replay_found
  replay_found-Keeps later p r t none h = search (saving) depth 20
  replay_found-Keeps later p r t (some j) h = search (saving) depth 20

  admit-Keeps :
      (request_id : String) (now : ℕ) (req : SubmitBriefRequest) (a : Admission) (s : Server)
      (o : Option IdempotencyRecord)
      → IsSaved first s
      → Keeps first (admit request_id now req a s o)
  unfolding admit create
  admit-Keeps request_id now req a s none h = search (saving) depth 20
  admit-Keeps request_id now req a s (some r) h = search (saving) depth 20

  decide-Keeps :
      (request_id : String) (now : ℕ) (req : SubmitBriefRequest) (s : Server)
      (c : Checked Admission)
      → IsSaved first s
      → Keeps first (decide request_id now req s c)
  unfolding decide
  decide-Keeps request_id now req s (reject r) h = search (saving) depth 20
  decide-Keeps request_id now req s (pass a) h = admit-Keeps request_id now req a s _ h

  start_found-Keeps :
      (now later : ℕ) (id : String) (s : Server) (o : Option Job)
      → IsSaved first s
      → Keeps first (start_found now later id s o)
  unfolding start_found
  start_found-Keeps now later id s none h = search (saving) depth 20
  start_found-Keeps now later id s (some j) h = search (saving) depth 20

  finish_found-Keeps :
      (outcome : Outcome) (now later : ℕ) (id : String) (s : Server) (o : Option Job)
      → IsSaved first s
      → Keeps first (finish_found outcome now later id s o)
  unfolding finish_found async_found failed_found done_found
  finish_found-Keeps async_accepted now later id s none h = search (saving) depth 20
  finish_found-Keeps async_accepted now later id s (some j) h = search (saving) depth 20
  finish_found-Keeps (execution_failed e) now later id s none h = search (saving) depth 20
  finish_found-Keeps (execution_failed e) now later id s (some j) h = search (saving) depth 20
  finish_found-Keeps (done r) now later id s none h = search (saving) depth 20
  finish_found-Keeps (done r) now later id s (some j) h = search (saving) depth 20

  event_reply :
      (s : Server) (c : Option CallbackConfig) (r : EventReply)
      → IsSaved first s
      → Reported first (s, c, r)
  unfolding Reported
  event_reply s c r h = h

  if-Reported :
      (b : Bool) (d e : Server × Option CallbackConfig × EventReply)
      → Reported first d
      → Reported first e
      → Reported first (if b then d else e)
  if-Reported true d e h g = h
  if-Reported false d e h g = g

  report_found-Reported :
      (now : ℕ) (d : ExpertTaskEventData) (s : Server) (o : Option Job)
      → IsSaved first s
      → Reported first (report_found now d s o)
  unfolding report_found report
  report_found-Reported now d s none h = event_reply _ _ _ h
  report_found-Reported now d s (some j) h =
      search (event_reply, if-Reported, persist_locked-IsSaved) depth 20

  started-IsSaved :
      (id : String) (d : Server × Option BriefInput)
      → Keeps first d
      → IsSaved first (busy_with id d).server
  unfolding Keeps
  started-IsSaved id (s, none) h = h
  started-IsSaved id (s, some input) h = h

  taken-IsSaved :
      (now later : ℕ) (s : Server) (o : Option (String × MemoryQueue))
      → IsSaved first s
      → IsSaved first (take now later s o).server
  unfolding take process_start
  taken-IsSaved now later s none h = h
  taken-IsSaved now later s (some (id, q)) h =
      started-IsSaved id (process_start now later id (record s { queue = q }))
        (start_found-Keeps now later id (record s { queue = q }) _ (unfold IsSaved snapshot in h))

  take_next-IsSaved :
      (now later : ℕ) (y : System) (o : Option String)
      → IsSaved first y.server
      → IsSaved first (take_next now later y o).server
  unfolding take_next
  take_next-IsSaved now later y (some id) h = h
  take_next-IsSaved now later y none h = taken-IsSaved now later y.server _ h

  finish-IsSaved :
      (outcome : Outcome) (now later : ℕ) (y : System) (o : Option String)
      → IsSaved first y.server
      → IsSaved first (finish outcome now later y o).server
  unfolding finish process_finish Keeps
  finish-IsSaved outcome now later y none h = h
  finish-IsSaved outcome now later y (some id) h =
      finish_found-Keeps outcome now later id y.server (lookup id y.server.jobs) h

  step-IsSaved :
      (hash_request : SubmitBriefRequest → Option String) (y : System) (a : Action)
      → IsSaved first y.server
      → IsSaved first (step hash_request y a).server
  unfolding step Keeps Reported submit_brief_job get_job_status get_job_result cancel_job replay_job
      handle_event
  step-IsSaved hash_request y (submits stamp now p req) h = decide-Keeps _ now req y.server _ h
  step-IsSaved hash_request y (asks_status stamp now p) h =
      on_job-Keeps "" stamp now p (status_found p) y.server (λ r t o g. g) h
  step-IsSaved hash_request y (asks_result stamp now p) h =
      on_job-Keeps "/result" stamp now p (result_found p) y.server (λ r t o g. g) h
  step-IsSaved hash_request y (cancels stamp now later p) h =
      on_job-Keeps "/cancel" stamp now p (cancel_found later p) y.server
        (cancel_found-Keeps later p) h
  step-IsSaved hash_request y (replays stamp now later p) h =
      on_job-Keeps "/replay" stamp now p (replay_found later p) y.server
        (replay_found-Keeps later p) h
  step-IsSaved hash_request y (reports now d) h =
      report_found-Reported now d y.server (lookup d.job_id y.server.jobs) h
  step-IsSaved hash_request y (takes now later) h = take_next-IsSaved now later y y.busy h
  step-IsSaved hash_request y (finishes outcome now later) h =
      finish-IsSaved outcome now later y y.busy h

  -- Whatever a server does, the store holds its maps and its counter as they are, between any two
  -- actions, if it did at first.
  pub run-IsSaved :
      (hash_request : SubmitBriefRequest → Option String) (y : System) (acts : List Action)
      → IsSaved first y.server
      → IsSaved first (run hash_request y acts).server
  unfolding run
  run-IsSaved hash_request y [] h = h
  run-IsSaved hash_request y (a ∷ acts) h =
      run-IsSaved hash_request (step hash_request y a) acts (step-IsSaved hash_request y a h)
