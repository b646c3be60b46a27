-- ===== src/Sdk/Examples.antt =====
-- A small client of sdk/go/cova/client_gen.go: the theorems at concrete inputs.
use cova.Base.{
  ℕ, zero, suc, ◌≡◌, refl, String, [], ◌∷◌, Option, some, none, format_uint, inl, inr, is_empty,
  insert, ◌=s◌, true, lookup, ◌⊎◌,
}
use cova.Api.{SubmitBriefRequest, Reply}
use cova.Jobstore.{empty_state}
use cova.Openapi
use cova.Openapi.{Operation}
use cova.Orchestrator.Types.{Server}
use cova.Orchestrator.Start.{new_server}
use cova.Orchestrator.Service.{Readings}
use cova.Agents.Pool.{Info, Pool, is_online, register_agent, new_pool}
use cova.Sdk.Workspace.{WorkspaceClient, new_workspace_client, connect}
use cova.Sdk.Workspace.Session.{welcomed, session_at, takes_token, connect_session}
use cova.Sdk.{Client, Libraries, send_error}
use cova.Sdk.Calls.{Call, perform, cancels, job_path}
use cova.Sdk.Refused.{Declined, connected, client_refused}
use cova.Sdk.Paths.{is_part}
use cova.Sdk.Routed.{noting, path_of, meant, call_routed, is_addressed}

-- A text without its first `n` characters.
drop : ℕ → String → String
drop zero s = s
drop (suc n) String.[] = String.[]
drop (suc n) (String.◌∷◌ c s) = drop n s

abbrev small_client : Client (Unit {0})
small_client = record { base_url = "http://h"; http_client = tt; token = "secret" }

abbrev small_libraries : {S : Type 0} → Libraries (Unit {0}) S
unfolding drop
small_libraries = record {
  marshal_error = λ body. none;
  url_path = λ url. inr (drop 8 url);
  send = λ h r body s. (s, send_error "closed");
  decode_problem = λ text. none;
  decode = λ op text. inl "empty";
}

abbrev canceling : Call
canceling = cancels "job_1" (record { request_id = "r1"; tenant_id = "t1"; project_id = "p1" })

abbrev hash_date : SubmitBriefRequest → Option String
hash_date req = some req.date

abbrev no_text : Option Reply → String
no_text reply = ""

abbrev sixth : Readings
sixth = record { stamp = 0; now = 6; later = 6 }

abbrev fresh_server : Server
fresh_server = new_server [] [] empty_state

client_refused_example :
    let done =
      perform
        (connected hash_date none format_uint sixth no_text small_libraries)
        small_client
        canceling
        fresh_server in
    (done.0 ≡ fresh_server) × Declined done.1
client_refused_example =
    client_refused hash_date none format_uint sixth no_text small_libraries small_client canceling
      fresh_server

call_routed_example :
    (perform (noting small_libraries) small_client canceling none).0
    ≡ some (Openapi.cancel_job, ("job_id", "job_1") ∷ [])
unfolding path_of job_path drop is_addressed is_part meant is_empty
call_routed_example = call_routed small_libraries small_client canceling (λ b. refl) refl refl

abbrev pm : Info
pm = record {
  id = "pm";
  name = "PM";
  role = "pm";
  description = "";
  agent_md_path = "";
  enabled = true;
  tools = "search" ∷ [];
}

abbrev small_pool : Pool
small_pool = register_agent pm (new_pool "secret")

abbrev pm_client : WorkspaceClient
pm_client = new_workspace_client (record {
  server_url = "ws://h";
  agent_id = "pm";
  token = "secret";
  role = "";
  client_version = "";
})

abbrev dial_third : String → String ⊎ ℕ
dial_third url = inr 3

connect_session_example :
    let made = connect (welcomed 9 "10.0.0.1" "cova" true "EOF") dial_third pm_client small_pool in
    (made.2 ≡ none)
    × (made.1.conn ≡ some 3)
    × (is_online "pm" made.0 ≡ true)
    × (session_at "pm" made.0 ≡ some made.1.session_id)
    × (made.1.tools ≡ "search" ∷ [])
unfolding new_workspace_client is_empty register_agent new_pool insert lookup ◌=s◌ takes_token
connect_session_example =
    connect_session 9 "10.0.0.1" "cova" "EOF" dial_third 3 pm_client small_pool pm refl refl refl
