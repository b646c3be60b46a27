-- ===== src/Orchestrator/Life.antt =====
-- What becomes of one job of internal/orchestrator/server.go, whatever is done to the server.
use cova.Base.{
  ℕ, ◌+◌, ◌%◌, ◌^◌, ◌<◌, String, ◌≡◌, refl, ◌∙◌, subst, ◌≢◌, inl, inr, true, false, List, [], ◌∷◌,
  Option, some, Dict, lookup, insert, length, All, arith, ◌=s◌, =s_iff, lookup-insert, Bool-cases,
  format_uint_injective,
}
use text.Mathlib.TextLemmas.{append_cancel_left}
use cova.Api.{SubmitBriefRequest, JobStatus, canceled}
use cova.Orchestrator.Types.{Job, Server}
use cova.Orchestrator.Rules.{is_terminal}
use cova.Orchestrator.Submit.{job_name}
use cova.Orchestrator.System.{System, Action, step, run}
use cova.Orchestrator.Change.{
  Actor, caller, replayer, Edge, stays, expires, cancels, reports, replays, overruns, starts,
  retries, succeeds, fails, origin, Evolves, Change, same, update, after, Moves, changes, creates,
}
use cova.Orchestrator.Refine.Machine.{actor, step-Moves}
use cova.Orchestrator.Consistent.{IsConsistent, Numbered, Moves-IsConsistent}

-- Edges one after another.
pub data Edges (w : Actor) : JobStatus → JobStatus → Type 0 where
  done : {a : JobStatus} → Edges w a a
  then : {a b c : JobStatus} → Edge w a b → Edges w b c → Edges w a c

Edges-trans : {w : Actor} {a b c : JobStatus} → Edges w a b → Edges w b c → Edges w a c
Edges-trans done q = q
Edges-trans (then e p) q = then e (Edges-trans p q)

-- The job is there, about the same thing, and its status moved along the diagram.
pub record Lives (w : Actor) (id : String) (j : Job) (jobs : Dict Job) : Type 0 where
  pub now : Job
  pub found : lookup id jobs ≡ some now
  pub about : origin now ≡ origin j
  pub path : Edges w j.status now.status

module _ {w : Actor} (id : String) where
  insert-Lives :
      (jobs new : Dict Job) (k : String) (j j' i : Job)
      → new ≡ insert k j' jobs
      → lookup k jobs ≡ some j
      → Evolves w j j'
      → lookup id jobs ≡ some i
      → Lives w id i new
  insert-Lives jobs new k j j' i q e ev l = elim (Bool-cases (k =s id)) [
    | inl t ↦
        let same_job : i ≡ j = ground (arith, =s_iff k id) in
        record {
          now = j';
          found = rw q (ground (arith, lookup-insert k id j' jobs));
          about = rw same_job ev.about;
          path = rw same_job (then ev.edge done);
        }
    | inr t ↦ record {
      now = i;
      found = rw q (ground (arith, lookup-insert k id j' jobs));
      about = refl;
      path = done;
    }
  ]

  pub Change-Lives :
      {s t : Server} (i : Job) → Change w s t → lookup id s.jobs ≡ some i → Lives w id i t.jobs
  Change-Lives i (same jobs dlq f) l = record {
    now = i;
    found = rw jobs l;
    about = refl;
    path = done;
  }
  Change-Lives i (update k k' j j' e ev q at ls f) l = insert-Lives _ _ k j j' i q e ev l
  Change-Lives i (after c d) l =
      let first = Change-Lives i c l in
      let second = Change-Lives first.now d first.found in
      record {
        now = second.now;
        found = second.found;
        about = second.about ∙ first.about;
        path = Edges-trans first.path second.path;
      }

pub job_name_injective : (m n : ℕ) → job_name m ≡ job_name n → m ≡ n
unfolding job_name
job_name_injective m n e = format_uint_injective m n (append_cancel_left "job_" _ _ e)

-- The counter's next name is new.
pub job_name_fresh :
    (next_id : ℕ) (id : String)
    → next_id + 1 < 2 ^ 64
    → Numbered next_id id
    → (job_name ((next_id + 1) % 2 ^ 64) =s id) ≡ false
job_name_fresh next_id id room (n, le, is) =
    elim (Bool-cases (job_name ((next_id + 1) % 2 ^ 64) =s id)) [
      | inr t ↦ t
      | inl t ↦
          let clash = job_name_injective ((next_id + 1) % 2 ^ 64) n ((=s_iff _ id).0 t ∙ is) in
          absurd (omega arith)
    ]

pub Moves-Lives :
    {w : Actor} {s t : Server} (id : String) (i : Job)
    → Moves w s t
    → s.next_id + 1 < 2 ^ 64
    → IsConsistent s
    → lookup id s.jobs ≡ some i
    → Lives w id i t.jobs
Moves-Lives id i (changes c) room v l = Change-Lives id i c l
Moves-Lives {w} {s} id i (creates j named next fresh q dead recalls most) room v l =
    let new : (j.id =s id) ≡ false =
      rw named (job_name_fresh s.next_id id room (v.numbered id i l)) in
    record {
      now = i;
      found = rw (q, lookup-insert j.id id j s.jobs, new) l;
      about = refl;
      path = done;
    }

canceled-Edge :
    {w : Actor} {a b : JobStatus} → w ≢ replayer → Edge w a b → a ≡ canceled → b ≡ canceled
canceled-Edge h (stays e) c = e ∙ c
canceled-Edge h (replays r t e) c = absurd (h r)
canceled-Edge h (expires t e) c = ground arith
canceled-Edge h (cancels t e) c = ground arith
canceled-Edge h (reports t e) c = ground arith
canceled-Edge h (overruns r t e) c = ground arith
canceled-Edge h (starts r t e) c = ground arith
canceled-Edge h (retries r t e) c = ground arith
canceled-Edge h (succeeds r t e) c = ground arith
canceled-Edge h (fails r t e) c = ground arith

canceled-Edges :
    {w : Actor} {a b : JobStatus} → w ≢ replayer → Edges w a b → a ≡ canceled → b ≡ canceled
canceled-Edges h done c = c
canceled-Edges h (then e p) c = canceled-Edges h p (canceled-Edge h e c)

terminal-Edge : {a b : JobStatus} → Edge caller a b → is_terminal a ≡ true → b ≡ a
terminal-Edge (stays e) c = e
terminal-Edge (expires t e) c = ground arith
terminal-Edge (cancels t e) c = ground arith
terminal-Edge (reports t e) c = ground arith
terminal-Edge (replays r t e) c = cc
terminal-Edge (overruns r t e) c = cc
terminal-Edge (starts r t e) c = cc
terminal-Edge (retries r t e) c = cc
terminal-Edge (succeeds r t e) c = cc
terminal-Edge (fails r t e) c = cc

terminal-Edges : {a b : JobStatus} → Edges caller a b → is_terminal a ≡ true → b ≡ a
terminal-Edges done c = refl
terminal-Edges (then e p) c = let here = terminal-Edge e c in terminal-Edges p (rw here c) ∙ here

always : (acts : List Action) → All (λ a. Unit {0}) acts
always [] = tt
always (a ∷ acts) = (tt, always acts)

-- The job under `id` after a run, and what it was about.
pub record Kept (id : String) (j : Job) (P : JobStatus → Type 0) (jobs : Dict Job) : Type 0 where
  pub now : Job
  pub found : lookup id jobs ≡ some now
  pub about : origin now ≡ origin j
  pub status : P now.status

module _ (hash_request : SubmitBriefRequest → Option String) (id : String) (P : JobStatus → Type 0)
    (Ok : Action → Type 0)
    (keep : (a : Action) (b c : JobStatus) → Ok a → Edges (actor a) b c → P b → P c) where
  run-Kept :
      (y : System) (acts : List Action) (j : Job)
      → y.server.next_id + length acts < 2 ^ 64
      → IsConsistent y.server
      → lookup id y.server.jobs ≡ some j
      → P j.status
      → All Ok acts
      → Kept id j P (run hash_request y acts).server.jobs
  unfolding run
  run-Kept y [] j room v l p ok = record { now = j; found = l; about = refl; status = p }
  run-Kept y (a ∷ acts) j room v l p ok =
      let move = step-Moves hash_request y a in
      let (u, n) = Moves-IsConsistent move (omega arith) v in
      let life = Moves-Lives id j move (omega arith) v l in
      let rest =
        run-Kept (step hash_request y a) acts life.now (omega arith) u life.found
          (keep a j.status life.now.status ok.0 life.path p) ok.1 in
      record {
        now = rest.now;
        found = rest.found;
        about = rest.about ∙ life.about;
        status = rest.status;
      }

module _ (hash_request : SubmitBriefRequest → Option String) (y : System) (acts : List Action)
    (id : String) (j : Job) (room : y.server.next_id + length acts < 2 ^ 64)
    (consistent : IsConsistent y.server) (found : lookup id y.server.jobs ≡ some j) where
  -- Whatever is done to a consistent server, as long as its 64-bit counter has room, a job that it
  -- holds stays under its id, with the tenant, project, expert, date, callback, submission time,
  -- deadline and maximal number of attempts that it was created with.
  pub run_keeps_job : Kept id j (λ b. Unit {0}) (run hash_request y acts).server.jobs
  run_keeps_job =
      run-Kept hash_request id (λ b. Unit {0}) (λ a. Unit {0}) (λ a b c o p q. tt) y acts j room
        consistent found tt (always acts)

  -- A canceled job stays canceled, and about the same thing, through every run with no replay in it:
  -- neither the worker that may be executing it, nor an event, nor the expiry changes its status.
  pub run_keeps_canceled :
      j.status ≡ canceled
      → All (λ a. actor a ≢ replayer) acts
      → Kept id j (λ b. b ≡ canceled) (run hash_request y acts).server.jobs
  run_keeps_canceled c ok =
      run-Kept hash_request id (λ b. b ≡ canceled) (λ a. actor a ≢ replayer)
        (λ a b d o p q. canceled-Edges o p q) y acts j room consistent found c ok

  -- While the worker does not act and no job is replayed, a job that has succeeded, failed, expired
  -- or been canceled keeps its status: submissions, look-ups, cancellations and events from the
  -- expert runtimes leave it.
  pub run_keeps_terminal :
      is_terminal j.status ≡ true
      → All (λ a. actor a ≡ caller) acts
      → Kept id j (λ b. b ≡ j.status) (run hash_request y acts).server.jobs
  run_keeps_terminal c ok =
      run-Kept hash_request id (λ b. b ≡ j.status) (λ a. actor a ≡ caller)
        (λ a b d o p q.
          let as_caller : Edges caller b d = subst (λ w. Edges w b d) o p in
          terminal-Edges as_caller (rw q c) ∙ q)
        y acts j room consistent found refl ok
