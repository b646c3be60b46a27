-- ===== src/Agents/Examples.antt =====
-- A pool of internal/agent/connection.go with two agents: the theorems at concrete inputs.
use cova.Base.{
  ◌≤◌, String, ◌≡◌, refl, true, false, some, List, [], ◌∷◌, All, lookup, insert, Has, ◌=s◌,
  is_empty,
}
use cova.Agents.Pool.{
  ponged, response, read_loop, Info, State, offline, AuthRequest, Pool, new_pool, is_closed,
  connected, handle_web_socket, is_online, not_connected, send_to_agent, connected_state,
}
use cova.Agents.Sessions.{Call, registers, connects, call_all, online_connected}
use cova.Agents.Lost.{reconnected_lost}
use cova.Agents.Router.{default_state}
use cova.Agents.Default.{rank, default_state_best}

abbrev info : String → String → Info
info id role = record {
  id = id;
  name = id;
  role = role;
  description = "";
  agent_md_path = "";
  enabled = true;
  tools = [];
}

abbrev request : AuthRequest
request = record { request_type = "auth"; agent_id = "kim"; token = "secret" }

abbrev calls : List Call
calls =
    registers (info "kim" "PM")
    ∷ registers (info "lee" "dev")
    ∷ connects 5 "10.0.0.1" true (some request)
    ∷ []

-- The pool in which "kim" is connected.
abbrev pool : Pool
pool = call_all calls (new_pool "secret")

kim_online : is_online "kim" pool ≡ true
unfolding is_online call_all new_pool ◌=s◌ is_empty insert lookup
kim_online = refl

online_connected_example : Has "kim" pool.conns
online_connected_example = online_connected "secret" calls "kim" kim_online

-- The pool in which no agent is connected.
abbrev quiet : Pool
quiet =
    call_all (registers (info "kim" "PM") ∷ registers (info "lee" "dev") ∷ []) (new_pool "secret")

kim_once : (handle_web_socket 5 "10.0.0.1" true (some request) quiet).1 ≡ connected 0
unfolding handle_web_socket call_all new_pool ◌=s◌ is_empty insert lookup
kim_once = refl

kim_again :
    (handle_web_socket 9 "10.0.0.2" true
      (some request)
      (handle_web_socket 5 "10.0.0.1" true (some request) quiet).0).1
    ≡ connected 1
unfolding handle_web_socket call_all new_pool ◌=s◌ is_empty insert lookup
kim_again = refl

-- The callback of a pool that drops the responses.
abbrev drop : String → String → Pool → Pool
drop agent_id text p = p

reconnected_lost_example :
    let shown =
      (handle_web_socket 9 "10.0.0.2" true
        (some request)
        (handle_web_socket 5 "10.0.0.1" true (some request) quiet).0).0 in
    let after = read_loop drop "kim" 0 (ponged 10 ∷ response "late" ∷ []) shown in
    (is_online "kim" shown ≡ true)
    × (is_online "kim" after ≡ false)
    × (is_closed 1 after.closed ≡ true)
    × (send_to_agent true "kim" after ≡ not_connected)
reconnected_lost_example =
    reconnected_lost drop (ponged 10 ∷ response "late" ∷ []) 5 9 "10.0.0.1" "10.0.0.2" request
      request quiet 0 1 true refl kim_once kim_again

abbrev state : String → String → State
unfolding connected_state
state id role = connected_state 5 id "10.0.0.1" (info id role)

abbrev team : List State
team = record (state "kim" "PM") { status = offline } ∷ state "lee" "dev" ∷ []

lee_chosen : default_state team ≡ some (state "lee" "dev")
unfolding default_state ◌=s◌ state
lee_chosen = refl

default_state_best_example : All (λ t. rank t ≤ rank (state "lee" "dev")) team
default_state_best_example = default_state_best team (state "lee" "dev") lee_chosen
