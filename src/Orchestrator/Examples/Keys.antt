-- ===== src/Orchestrator/Examples/Keys.antt =====
-- Idempotency keys of two tenants of internal/orchestrator/server.go at concrete inputs.
use cova.Base.{String, ◌≡◌, refl}
use cova.Orchestrator.Types.{Server, Job, SubmitParams}
use cova.Orchestrator.Submit.{Admission, submit_brief_job, accepted}
use cova.Orchestrator.Collision.{foreign_key_replayed}
use cova.Orchestrator.Examples.{
  program, fresh_server, brief, brief_admission, hash_date, queued_job,
}

abbrev keyed : String → String → SubmitParams
keyed tenant_id project_id = record {
  request_id = "r1";
  idempotency_key = "k";
  tenant_id = tenant_id;
  project_id = project_id;
}

abbrev first_server : Server
first_server = (submit_brief_job hash_date 0 5 (keyed "a::b" "c") brief fresh_server).0

abbrev second_admission : Admission
second_admission = record brief_admission {
  tenant_id = "a";
  project_id = "b::c";
  idempotency_key = "a::b::c::k";
}

abbrev first_owned : Job
first_owned = record queued_job { tenant_id = "a::b"; project_id = "c" }

foreign_key_replayed_example :
    submit_brief_job hash_date 0 9 (keyed "a" "b::c") brief first_server
    ≡ (first_server, accepted "r1" first_owned)
unfolding program
foreign_key_replayed_example =
    foreign_key_replayed hash_date 0 9 (keyed "a" "b::c") brief first_server second_admission "a"
      "b" "c" "k" (record { payload_hash = "2026-02-27"; job_id = "job_1" }) first_owned refl refl
      refl refl refl refl
