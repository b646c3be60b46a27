-- ===== src/Agents/Pool.antt =====
-- internal/agent/connection.go: `Pool`, with `Info` and `State` of types.go. A connection is a number,
-- so that two places can hold the same one; `closed` lists the connections that have been closed.
-- The socket decides whether a write succeeds; the request is `none` when it cannot be read.
use cova.Base.{
  ℕ, ◌+◌, String, ◌+s◌, Bool, true, false, ◌&&◌, not, Option, none, some, List, [], ◌∷◌, Dict,
  lookup, insert, delete, ◌==◌, if◌then◌else◌, ◌=s◌, is_empty, format_uint,
}

pub data Status : Type 0 where
  offline : Status
  online : Status
  busy : Status
  idle : Status
  archived : Status

unfoldable pub is_up : Status → Bool
is_up offline = false
is_up online = true
is_up busy = false
is_up idle = false
is_up archived = false

pub record Info : Type 0 where
  pub id : String
  pub name : String
  pub role : String
  pub description : String
  pub agent_md_path : String
  pub enabled : Bool
  pub tools : List String

pub record State : Type 0 where
  pub info : Info
  pub status : Status
  pub connected_at : ℕ
  pub last_seen_at : ℕ
  pub session_id : String
  pub remote_addr : String

pub record AuthRequest : Type 0 where
  pub request_type : String
  pub agent_id : String
  pub token : String

pub record Pool : Type 0 where
  pub conns : Dict ℕ
  pub agents : Dict Info
  pub states : Dict State
  pub auth_token : String
  pub closed : List ℕ
  pub next_conn : ℕ

unfoldable pub new_pool : String → Pool
new_pool auth_token = record {
  conns = [];
  agents = [];
  states = [];
  auth_token = auth_token;
  closed = [];
  next_conn = 0;
}

unfoldable pub register_agent : Info → Pool → Pool
register_agent info p = record p {
  agents = insert info.id info p.agents;
  states =
      insert info.id
        (record {
          info = info;
          status = offline;
          connected_at = 0;
          last_seen_at = 0;
          session_id = "";
          remote_addr = "";
        })
        p.states;
}

unfoldable pub is_closed : ℕ → List ℕ → Bool
is_closed c [] = false
is_closed c (d ∷ closed) = let rest = is_closed c closed in if d == c then true else rest

-- `Conn.Close` on the connection that a map entry holds.
unfoldable pub close_held : Option ℕ → List ℕ → List ℕ
unfolding is_closed
close_held none closed = closed
close_held (some c) closed = if is_closed c closed then closed else c ∷ closed

unfoldable pub connected_state : ℕ → String → String → Info → State
connected_state now agent_id remote_addr info = record {
  info = info;
  status = online;
  connected_at = now;
  last_seen_at = now;
  session_id = "sess_" +s agent_id +s "_" +s format_uint now;
  remote_addr = remote_addr;
}

-- The part of `HandleWebSocket` that replaces the agent's connection.
unfoldable pub attach : ℕ → String → String → Info → Pool → Pool
unfolding close_held connected_state
attach now agent_id remote_addr info p = record p {
  conns = insert agent_id p.next_conn p.conns;
  states = insert agent_id (connected_state now agent_id remote_addr info) p.states;
  closed = close_held (lookup agent_id p.conns) p.closed;
  next_conn = p.next_conn + 1;
}

pub data Welcome : Type 0 where
  denied : String → Welcome
  connected : ℕ → Welcome

-- The answer to the agent; a connection whose answer cannot be written is closed.
unfoldable pub greet : Bool → ℕ → Pool → Pool × Welcome
unfolding close_held
greet true c p = (p, connected c)
greet false c p = (record p { closed = close_held (some c) p.closed }, connected c)

unfoldable pub enter : ℕ → String → Bool → String → Option Info → Pool → Pool × Welcome
unfolding attach greet
enter now remote_addr written agent_id none p = (p, denied ("unknown agent_id: " +s agent_id))
enter now remote_addr written agent_id (some info) p =
    greet written p.next_conn (attach now agent_id remote_addr info p)

-- `HandleWebSocket`; `written` tells whether the answer to an accepted agent can be written.
unfoldable pub handle_web_socket : ℕ → String → Bool → Option AuthRequest → Pool → Pool × Welcome
unfolding enter
handle_web_socket now remote_addr written none p = (p, denied "invalid auth message")
handle_web_socket now remote_addr written (some r) p =
    if not (r.request_type =s "auth")
    then (p, denied "expected auth message")
    else if not (is_empty p.auth_token) && not (r.token =s p.auth_token)
    then (p, denied "invalid token")
    else enter now remote_addr written r.agent_id (lookup r.agent_id p.agents) p

unfoldable pub set_offline : String → Option State → Dict State → Dict State
set_offline agent_id none states = states
set_offline agent_id (some s) states = insert agent_id (record s { status = offline }) states

unfoldable pub disconnect_agent : String → Pool → Pool
unfolding close_held set_offline
disconnect_agent agent_id p = record p {
  conns = delete agent_id p.conns;
  states = set_offline agent_id (lookup agent_id p.states) p.states;
  closed = close_held (lookup agent_id p.conns) p.closed;
}

unfoldable pub is_live : Option State → Bool
unfolding is_up
is_live none = false
is_live (some s) = is_up s.status

unfoldable pub seen_at : ℕ → String → Option State → Dict State → Dict State
seen_at now agent_id none states = states
seen_at now agent_id (some s) states = insert agent_id (record s { last_seen_at = now }) states

-- The pong handler that `readLoop` sets.
unfoldable pub pong : ℕ → String → Pool → Pool
unfolding seen_at
pong now agent_id p = record p { states = seen_at now agent_id (lookup agent_id p.states) p.states }

-- What a connection brings in: a pong at a time, a response, or a message that is only logged.
pub data Incoming (R : Type 0) : Type 0 where
  ponged : ℕ → Incoming R
  response : R → Incoming R
  ignored : Incoming R

unfoldable pub take_in :
    {R : Type 0} → (String → R → Pool → Pool) → String → Incoming R → Pool → Pool
unfolding pong
take_in on_response agent_id (ponged now) p = pong now agent_id p
take_in on_response agent_id (response r) p = on_response agent_id r p
take_in on_response agent_id ignored p = p

-- `readLoop` on the agent's connection `c`, which ends when the other side has sent its last message,
-- or nothing can be read since the connection is closed; `on_response` is the pool's callback.
unfoldable pub read_loop :
    {R : Type 0} → (String → R → Pool → Pool) → String → ℕ → List (Incoming R) → Pool → Pool
unfolding take_in disconnect_agent
read_loop on_response agent_id c [] p = disconnect_agent agent_id p
read_loop on_response agent_id c (i ∷ incoming) p =
    let rest = read_loop on_response agent_id c incoming (take_in on_response agent_id i p) in
    if is_closed c p.closed then disconnect_agent agent_id p else rest

-- `IsOnline`
unfoldable pub is_online : String → Pool → Bool
unfolding is_live
is_online agent_id p = is_live (lookup agent_id p.states)

pub data SendResult : Type 0 where
  not_connected : SendResult
  connection_closed : SendResult
  write_failed : SendResult
  sent_on : ℕ → SendResult

unfoldable pub send_held : Bool → Option ℕ → List ℕ → SendResult
unfolding is_closed
send_held written none closed = not_connected
send_held written (some c) closed =
    if is_closed c closed then connection_closed else if written then sent_on c else write_failed

-- `SendToAgent`; `written` tells whether the socket takes the message.
unfoldable pub send_to_agent : Bool → String → Pool → SendResult
unfolding send_held
send_to_agent written agent_id p = send_held written (lookup agent_id p.conns) p.closed
