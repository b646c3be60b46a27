-- ===== src/Orchestrator/Restart.antt =====
-- A server of internal/orchestrator/server.go is consistent when it starts: with no state, and with
-- the state that a consistent server saved last.
use cova.Base.{
  ◌≤◌, String, ◌≡◌, refl, ◌∙◌, sym, ap, List, [], ◌∷◌, Option, none, some, lookup, arith,
  map_option, map_values, Entries, Has,
}
use cova.Jobstore.{empty_state}
use cova.Orchestrator.Types.{ExpertMetadata, Job, Server}
use cova.Orchestrator.Rules.{clone_callback_config}
use cova.Orchestrator.Persist.{requeued, snapshot, load_state, resume, pending}
use cova.Orchestrator.Start.{
  Settings, Setting, with_queue_size, with_max_attempts, with_job_ttl, apply_setting,
  apply_settings, defaults, bare_server, new_server,
}
use cova.Orchestrator.Change.{Attempts}
use cova.Orchestrator.Consistent.{IsConsistent, Numbered}
use cova.Orchestrator.Recovery.{Restarted, load-save, load_max_attempts}

-- No setting makes the number of attempts 0.
apply_setting-positive :
    (c : Settings) (o : Setting) → 1 ≤ c.max_attempts → 1 ≤ (apply_setting c o).max_attempts
unfolding apply_setting
apply_setting-positive c (with_queue_size n) h = ground arith
apply_setting-positive c (with_max_attempts n) h = ground arith
apply_setting-positive c (with_job_ttl n) h = ground arith

apply_settings-positive :
    (c : Settings) (opts : List Setting)
    → 1 ≤ c.max_attempts
    → 1 ≤ (apply_settings c opts).max_attempts
unfolding apply_settings
apply_settings-positive c [] h = h
apply_settings-positive c (o ∷ opts) h =
    apply_settings-positive (apply_setting c o) opts (apply_setting-positive c o h)

-- `requeued` changes a job's status and progress only.
requeued_fields :
    (j : Job)
    → ((requeued j).id ≡ j.id)
      × ((requeued j).callback ≡ j.callback)
      × ((requeued j).attempt ≡ j.attempt)
      × ((requeued j).max_attempts ≡ j.max_attempts)
unfolding requeued
requeued_fields j = ground arith

Entries-nil {ℓ κ} : {V : Type ℓ} (P : String → V → Type κ) → Entries P []
unfolding lookup
Entries-nil P k v e = cc

-- A server that starts with no stored state is consistent, whatever its settings.
pub new_server-IsConsistent :
    (experts : List ExpertMetadata) (opts : List Setting)
    → IsConsistent (new_server experts opts empty_state)
unfolding new_server empty_state load_state resume pending map_values
new_server-IsConsistent experts opts = record {
  keyed = Entries-nil _;
  numbered = Entries-nil _;
  attempts = Entries-nil _;
  cloned = Entries-nil _;
  dead = Entries-nil _;
  remembered = Entries-nil _;
  positive = apply_settings-positive defaults opts (unfold defaults in omega arith);
}

module _ (P : String → Job → Type 0) (keep : (id : String) (j : Job) → P id j → P id (requeued j))
    (s t : Server) (r : Restarted s t) where
  Restarted-Entries : Entries P s.jobs → Entries P t.jobs
  Restarted-Entries h id j e = go (lookup id s.jobs) refl (sym (r.jobs id) ∙ e)
    where
      go : (o : Option Job) → lookup id s.jobs ≡ o → map_option requeued o ≡ some j → P id j
      go none l e = cc
      go (some i) l e =
          let same : requeued i ≡ j = ground arith in rw (← same) (keep id i (h id i l))

Restarted-Has : (s t : Server) (r : Restarted s t) (id : String) → Has id s.jobs → Has id t.jobs
Restarted-Has s t r id (j, e) = (requeued j, r.jobs id ∙ ap (map_option requeued) e)

-- A server restarted from what a consistent server saved last is consistent again.
pub restart-IsConsistent :
    (s : Server) (experts : List ExpertMetadata) (opts : List Setting)
    → IsConsistent s
    → IsConsistent (new_server experts opts (snapshot s))
unfolding new_server
restart-IsConsistent s experts opts v =
    let u = bare_server experts (apply_settings defaults opts) in
    let t = load_state (snapshot s) u in
    let r = load-save s u v in
    record {
      keyed =
          Restarted-Entries (λ id j. j.id ≡ id) (λ id j h. (requeued_fields j).0 ∙ h) s t r v.keyed;
      numbered =
          Restarted-Entries (λ id j. Numbered t.next_id id) (λ id j h. h) s t r
            (rw r.next_id v.numbered);
      attempts =
          Restarted-Entries (λ id j. Attempts j) (λ id j h. omega (arith, requeued_fields j)) s t r
            v.attempts;
      cloned =
          Restarted-Entries (λ id j. clone_callback_config j.callback ≡ j.callback)
            (λ id j h. rw (requeued_fields j).1 h) s t r v.cloned;
      dead = rw r.dlq (λ id d e. Restarted-Has s t r id (v.dead id d e));
      remembered = λ k q e. Restarted-Has s t r q.job_id (v.remembered k q (sym (r.idem k) ∙ e));
      positive = rw (load_max_attempts (snapshot s) u) (
          unfold bare_server defaults in
          apply_settings-positive defaults opts (unfold defaults in omega arith));
    }
