-- ===== src/Orchestrator/Idempotency.antt =====
-- The idempotency keys of `SubmitBriefJob`, internal/orchestrator/server.go, across whatever else
-- happens to the server.
use cova.Base.{
  ℕ, ◌+◌, ◌^◌, ◌<◌, String, ◌≡◌, refl, ◌∙◌, ap, inl, inr, false, List, [], ◌∷◌, Option, none, some,
  Dict, lookup, length, arith, ◌=s◌, =s_iff, lookup-insert, lookup-insert_self, if◌then◌else◌,
  Bool-cases, Option-cases, is_empty,
}
use cova.Api.{SubmitBriefRequest, Body, submitted}
use cova.Orchestrator.Types.{Server, SubmitParams, IdempotencyRecord}
use cova.Orchestrator.Rules.{normalize_request_id}
use cova.Orchestrator.Submit.{
  pass, Admission, check_submit, accepted, replay_reply, known, mismatch, internal, recall,
  remember, new_job, create, admit, decide, submit_brief_job,
}
use cova.Orchestrator.Persist.{persist_locked, enqueue}
use cova.Orchestrator.System.{System, Action, submits, step, run}
use cova.Orchestrator.Change.{
  Actor, Change, same, update, after, Moves, changes, creates, Recalls, unkeyed, noted,
}
use cova.Orchestrator.Refine.Machine.{step-Moves}
use cova.Orchestrator.Consistent.{IsConsistent, run-IsConsistent}

module _ (k : String) (r : IdempotencyRecord) where
  Recalls-keeps :
      {id : String} {old new : Dict IdempotencyRecord}
      → Recalls id old new
      → lookup k old ≡ some r
      → lookup k new ≡ some r
  Recalls-keeps (unkeyed e) l = rw e l
  Recalls-keeps {old = old} (noted i q at free e) l =
      rw e (ground (arith, lookup-insert i k q old, =s_iff i k))

  Change-keeps :
      {w : Actor} {s t : Server}
      → Change w s t
      → lookup k s.idem ≡ some r
      → lookup k t.idem ≡ some r
  Change-keeps (same jobs dlq f) l = rw f.idem l
  Change-keeps (update id i j j' e ev q at ls f) l = rw f.idem l
  Change-keeps (after c d) l = Change-keeps d (Change-keeps c l)

  Moves-keeps :
      {w : Actor} {s t : Server} → Moves w s t → lookup k s.idem ≡ some r → lookup k t.idem ≡ some r
  Moves-keeps (changes c) l = Change-keeps c l
  Moves-keeps (creates j named next fresh q dead recalls most) l = Recalls-keeps recalls l

  run-keeps :
      (hash_request : SubmitBriefRequest → Option String) (y : System) (acts : List Action)
      → lookup k y.server.idem ≡ some r
      → lookup k (run hash_request y acts).server.idem ≡ some r
  unfolding run
  run-keeps hash_request y [] l = l
  run-keeps hash_request y (a ∷ acts) l =
      run-keeps hash_request (step hash_request y a) acts
        (Moves-keeps (step-Moves hash_request y a) l)

-- The job that a reply says was accepted.
abbrev pub submitted_id : Body → Option String
submitted_id (submitted b) = some b.job_id
submitted_id _ = none

-- The record that an accepted submission under a key leaves or finds.
abbrev Noted : Admission → String → Server → Type 0
Noted a id s =
    lookup a.idempotency_key s.idem ≡ some (record { payload_hash = a.payload_hash; job_id = id })

create-Noted :
    (request_id : String) (now : ℕ) (req : SubmitBriefRequest) (a : Admission) (s : Server)
    (id : String)
    → is_empty a.idempotency_key ≡ false
    → submitted_id (create request_id now req a s).1.body ≡ some id
    → Noted a id (create request_id now req a s).0
unfolding create accepted new_job remember persist_locked enqueue
create-Noted request_id now req a s id keyed e = rw (keyed, lookup-insert_self) (ground arith)

known-Noted :
    (request_id : String) (a : Admission) (r : IdempotencyRecord) (s : Server) (id : String)
    → IsConsistent s
    → lookup a.idempotency_key s.idem ≡ some r
    → submitted_id (known request_id a r s).body ≡ some id
    → Noted a id s
unfolding known replay_reply accepted mismatch internal
known-Noted request_id a r s id v l e = elim (Option-cases (lookup r.job_id s.jobs)) [
  | inl missing ↦ ground arith
  | inr (j, found) ↦ ground (arith, v.keyed r.job_id j found, =s_iff r.payload_hash a.payload_hash)
]

recall_keyed :
    (a : Admission) (s : Server)
    → is_empty a.idempotency_key ≡ false
    → recall a s ≡ lookup a.idempotency_key s.idem
unfolding recall
recall_keyed a s keyed = rw keyed

admit-Noted :
    (request_id : String) (now : ℕ) (req : SubmitBriefRequest) (a : Admission) (s : Server)
    (id : String) (o : Option IdempotencyRecord)
    → IsConsistent s
    → is_empty a.idempotency_key ≡ false
    → lookup a.idempotency_key s.idem ≡ o
    → submitted_id (admit request_id now req a s o).1.body ≡ some id
    → Noted a id (admit request_id now req a s o).0
unfolding admit
admit-Noted request_id now req a s id none v keyed l e =
    create-Noted request_id now req a s id keyed e
admit-Noted request_id now req a s id (some r) v keyed l e = known-Noted request_id a r s id v l e

-- What a second submission under the key is told.
known_again :
    (request_id : String) (a b : Admission) (s : Server) (id : String)
    → IsConsistent s
    → Noted a id s
    → let reply = known request_id b (record { payload_hash = a.payload_hash; job_id = id }) s in
      let agree = a.payload_hash =s b.payload_hash in
      (submitted_id reply.body ≡ (if agree then some id else none))
      × (reply.code ≡ (if agree then 202 else 409))
unfolding known replay_reply accepted mismatch
known_again request_id a b s id v n = elim (Bool-cases (a.payload_hash =s b.payload_hash)) [
  | inr differ ↦ rw differ (refl, refl)
  | inl agree ↦
      let (j, found) = v.remembered _ _ n in
      rw (agree, found, replay_reply) (ap some (v.keyed id j found), refl)
]

module _ (hash_request : SubmitBriefRequest → Option String) (stamp now : ℕ) (p : SubmitParams)
    (req : SubmitBriefRequest) (a : Admission) (id : String) where
  submit-Noted :
      (s : Server)
      → IsConsistent s
      → check_submit hash_request (normalize_request_id stamp p.request_id) p req s.experts ≡ pass a
      → is_empty a.idempotency_key ≡ false
      → submitted_id (submit_brief_job hash_request stamp now p req s).1.body ≡ some id
      → Noted a id (submit_brief_job hash_request stamp now p req s).0
  unfolding submit_brief_job decide
  submit-Noted s v c keyed first =
      let e = recall_keyed a s keyed in
      rw (c, decide, e)
        (admit-Noted _ now req a s id (lookup a.idempotency_key s.idem) v keyed refl
          (rw (c, decide, e) at first))

  run-Noted :
      (y : System) (acts : List Action)
      → Noted a id (submit_brief_job hash_request stamp now p req y.server).0
      → Noted a id (run hash_request y (submits stamp now p req ∷ acts)).server
  unfolding run
  run-Noted y acts n =
      run-keeps a.idempotency_key _ hash_request (step hash_request y (submits stamp now p req))
        acts n

module _ (hash_request : SubmitBriefRequest → Option String) where
  -- A submission under a key, once it was accepted for the job `id`, settles the key for good:
  -- whatever happens in between, a later submission whose checks pass under the same key leaves the
  -- server as it is, and is told the same job with 202 if its payload hash is the same, and 409 with
  -- no job if it is not. The server is consistent at first, and its counter has room.
  pub resubmit :
      (y : System) (stamp now : ℕ) (p : SubmitParams) (req : SubmitBriefRequest)
      (acts : List Action) (stamp' now' : ℕ) (p' : SubmitParams) (req' : SubmitBriefRequest)
      (a b : Admission) (id : String)
      → y.server.next_id + 1 + length acts < 2 ^ 64
      → IsConsistent y.server
      → check_submit hash_request (normalize_request_id stamp p.request_id) p req y.server.experts
        ≡ pass a
      → is_empty a.idempotency_key ≡ false
      → submitted_id (submit_brief_job hash_request stamp now p req y.server).1.body ≡ some id
      → let s = (run hash_request y (submits stamp now p req ∷ acts)).server in
        check_submit hash_request (normalize_request_id stamp' p'.request_id) p' req' s.experts
          ≡ pass b
        → b.idempotency_key ≡ a.idempotency_key
        → let (t, reply) = submit_brief_job hash_request stamp' now' p' req' s in
          let agree = a.payload_hash =s b.payload_hash in
          (t ≡ s)
          × (submitted_id reply.body ≡ (if agree then some id else none))
          × (reply.code ≡ (if agree then 202 else 409))
  unfolding submit_brief_job decide
  resubmit y stamp now p req acts stamp' now' p' req' a b id room v c keyed first c' k =
      let s = (run hash_request y (submits stamp now p req ∷ acts)).server in
      let stays : Noted a id s =
        run-Noted hash_request stamp now p req a id y acts
          (submit-Noted hash_request stamp now p req a id y.server v c keyed first) in
      let consistent : IsConsistent s = run-IsConsistent hash_request y _ (omega arith) v in
      let found : recall b s ≡ some (record { payload_hash = a.payload_hash; job_id = id }) =
        recall_keyed b s (rw k keyed) ∙ rw k stays in
      let told =
        known_again (normalize_request_id stamp' p'.request_id) a b s id consistent stays in
      rw (c', decide, found, admit) (refl, told.0, told.1)
