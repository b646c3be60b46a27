-- ===== src/Orchestrator/Start.antt =====
-- internal/orchestrator/server.go: `NewServer` and the options that set numbers. Starting the worker
-- goroutine is the first action of the machine in `System`; collaborators are parameters elsewhere.
use cova.Base.{ℕ, ◌*◌, ◌^◌, List, [], ◌∷◌, Dict, insert, ltb, if◌then◌else◌}
use cova.Jobstore
use cova.Orchestrator.Queue.{new_memory_queue}
use cova.Orchestrator.Types.{ExpertMetadata, Server}
use cova.Orchestrator.Persist.{load_state}

pub record Settings : Type 0 where
  pub queue_size : ℕ
  pub max_attempts : ℕ
  pub job_ttl : ℕ

-- The defaults of `NewServer`; the time to live is 24 hours, in nanoseconds.
unfoldable pub defaults : Settings
defaults = record { queue_size = 256; max_attempts = 3; job_ttl = 24 * 3600 * 10 ^ 9 }

pub data Setting : Type 0 where
  with_queue_size with_max_attempts with_job_ttl : ℕ → Setting

-- `WithQueueSize`, `WithMaxAttempts` and `WithJobTTL`: a value that is not positive is ignored.
unfoldable pub apply_setting : Settings → Setting → Settings
apply_setting c (with_queue_size n) = if ltb 0 n then record c { queue_size = n } else c
apply_setting c (with_max_attempts n) = if ltb 0 n then record c { max_attempts = n } else c
apply_setting c (with_job_ttl n) = if ltb 0 n then record c { job_ttl = n } else c

unfoldable pub apply_settings : Settings → List Setting → Settings
unfolding apply_setting
apply_settings c [] = c
apply_settings c (o ∷ opts) = apply_settings (apply_setting c o) opts

-- The loop over the registry's experts.
unfoldable pub known_experts : List ExpertMetadata → Dict ExpertMetadata → Dict ExpertMetadata
known_experts [] m = m
known_experts (e ∷ es) m = known_experts es (insert e.expert_id e m)

unfoldable pub bare_server : List ExpertMetadata → Settings → Server
unfolding known_experts new_memory_queue
bare_server experts c = record {
  experts = known_experts experts [];
  jobs = [];
  idem = [];
  dlq = [];
  next_id = 0;
  max_attempts = c.max_attempts;
  job_ttl = c.job_ttl;
  queue = new_memory_queue c.queue_size;
  saves = [];
}

-- `NewServer`, once the store has returned `state`.
unfoldable pub new_server : List ExpertMetadata → List Setting → Jobstore.State → Server
unfolding defaults apply_settings bare_server
new_server experts opts state =
    load_state state (bare_server experts (apply_settings defaults opts))
