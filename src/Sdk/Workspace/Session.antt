-- ===== src/Sdk/Workspace/Session.antt =====
-- sdk/go/cova/workspace_client.go against the pool of internal/agent/connection.go: a client that
-- connects; and a client that is closed by its own message handler.
use cova.Base.{
  ℕ, String, ◌+s◌, ◌≡◌, refl, ◌∙◌, Bool, true, false, not, ◌&&◌, ◌||◌, if_false, ap, Option, none,
  some, ◌⊎◌, inr, List, [], ◌∷◌, lookup, map_option, ◌=s◌, is_empty, format_uint,
  lookup-insert_self,
}
use cova.Agents.Pool
use cova.Agents.Pool.{
  Info, Pool, State, Welcome, denied, connected, handle_web_socket, enter, attach, greet,
  connected_state, is_online, is_live, is_up,
}
use cova.Sdk.Workspace.{
  WorkspaceClient, WorkspaceMessage, AuthRequest, AuthResponse, Handshake, answered, not_read,
  settle, auth_request, connect, dialed, close, close_held, handle, Incoming, of_type, read_loop,
  read_of_nil,
}

unfoldable pub as_read : AuthRequest → Pool.AuthRequest
as_read r = record { request_type = r.kind; agent_id = r.agent_id; token = r.token }

unfoldable pub tools_of : Option Info → List String
tools_of none = []
tools_of (some info) = info.tools

-- What `HandleWebSocket` writes.
unfoldable pub auth_result : ℕ → String → String → List String → Welcome → AuthResponse
auth_result now workspace agent_id tools (denied e) = record {
  kind = "auth_result";
  success = false;
  session_id = "";
  workspace = "";
  error = e;
  tools = [];
}
auth_result now workspace agent_id tools (connected n) = record {
  kind = "auth_result";
  success = true;
  session_id = "sess_" +s agent_id +s "_" +s format_uint now;
  workspace = workspace;
  error = "";
  tools = tools;
}

-- The answer as the client reads it, or `unread`, its error when the answer cannot be written.
unfoldable pub as_answered : Bool → String → AuthResponse → Handshake
as_answered true unread a = answered a
as_answered false unread a = not_read unread

-- The pool at the other end of a socket, which carries the client's message, and the pool's answer if
-- that is `written`.
unfoldable pub welcomed :
    ℕ → String → String → Bool → String → AuthRequest → Pool → Pool × Handshake
unfolding as_read tools_of auth_result as_answered
welcomed now remote_addr workspace written unread r p =
    let entered = handle_web_socket now remote_addr written (some (as_read r)) p in
    (
      entered.0,
      as_answered written unread
          (auth_result now workspace r.agent_id (tools_of (lookup r.agent_id p.agents)) entered.1),
    )

-- The pool takes the token.
unfoldable pub takes_token : String → Pool → Bool
takes_token token p = is_empty p.auth_token || token =s p.auth_token

-- The session that the pool has for an agent.
abbrev pub session_at : String → Pool → Option String
session_at agent_id p = map_option (λ (s : State). s.session_id) (lookup agent_id p.states)

neither : (a b : Bool) → a || b ≡ true → not a && not b ≡ false
neither true b h = refl
neither false true h = refl
neither false false h = cc h

module _ (now : ℕ) (remote_addr workspace unread : String) (dial : String → String ⊎ ℕ) (n : ℕ)
    (c : WorkspaceClient) (p : Pool) (info : Info) (reached : dial c.cfg.server_url ≡ inr n)
    (known : lookup c.cfg.agent_id p.agents ≡ some info)
    (token : takes_token c.cfg.token p ≡ true) where
  entered :
      handle_web_socket now remote_addr true (some (as_read (auth_request c.cfg))) p
      ≡ (attach now c.cfg.agent_id remote_addr info p, connected p.next_conn)
  unfolding handle_web_socket as_read auth_request enter greet takes_token ◌=s◌
  entered = rw known (
      if_false _ _ _ (
        neither (is_empty p.auth_token) (c.cfg.token =s p.auth_token)
          (unfold takes_token in token)))

  -- A client whose agent is registered and whose token the pool takes connects, once the URL is
  -- dialed, if the pool's answer is written and the client reads it: `Connect` returns no error, the client holds its connection, the pool shows the agent
  -- online, under the session that the client has noted, and the client has the agent's tools.
  pub connect_session :
      let made = connect (welcomed now remote_addr workspace true unread) dial c p in
      (made.2 ≡ none)
      × (made.1.conn ≡ some n)
      × (is_online c.cfg.agent_id made.0 ≡ true)
      × (session_at c.cfg.agent_id made.0 ≡ some made.1.session_id)
      × (made.1.tools ≡ info.tools)
  unfolding connect dialed welcomed as_answered settle auth_result auth_request tools_of is_online
      is_live is_up attach connected_state
  connect_session = rw (reached, entered, known, lookup-insert_self) (refl, refl, refl, refl, refl)

closed_conn : (o : Option ℕ) (c : WorkspaceClient) → c.conn ≡ o → (close_held o c).conn ≡ none
unfolding close_held
closed_conn none c e = e
closed_conn (some n) c e = refl

-- Without a connection the loop reads from none.
unplugged :
    (on_message : Option (WorkspaceMessage → WorkspaceClient → WorkspaceClient))
    (incoming : List Incoming) (o : Option ℕ) (c : WorkspaceClient)
    → o ≡ none
    → (read_loop on_message incoming o c).1 ≡ read_of_nil
unfolding read_loop
unplugged on_message incoming o c e = rw e refl

handled_by :
    (on_message : WorkspaceMessage → WorkspaceClient → WorkspaceClient) (msg : WorkspaceMessage)
    (incoming : List Incoming) (n : ℕ) (o : Option ℕ) (c : WorkspaceClient)
    → o ≡ some n
    → (on_message msg c).conn ≡ none
    → (read_loop (some on_message) (of_type "message" (some msg) ∷ incoming) o c).1 ≡ read_of_nil
unfolding read_loop handle ◌=s◌
handled_by on_message msg incoming n o c held gone =
    rw held (unplugged (some on_message) incoming _ _ gone)

-- A message handler that closes its client makes the loop read from no connection, whatever comes in
-- after the message.
pub closed_in_handler :
    (on_message : WorkspaceMessage → WorkspaceClient → WorkspaceClient) (msg : WorkspaceMessage)
    (incoming : List Incoming) (n : ℕ) (c : WorkspaceClient)
    → on_message msg c ≡ close c
    → c.conn ≡ some n
    → (read_loop (some on_message) (of_type "message" (some msg) ∷ incoming) c.conn c).1
      ≡ read_of_nil
unfolding close
closed_in_handler on_message msg incoming n c e held =
    handled_by on_message msg incoming n c.conn c held
      (ap (λ (d : WorkspaceClient). d.conn) e ∙ closed_conn c.conn c refl)
