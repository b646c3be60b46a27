-- ===== src/Sdk/Workspace.antt =====
-- sdk/go/cova/workspace_client.go: the client by which an agent connects to a workspace. A connection
-- is a number, and `closed` lists those that the client has closed. `S` is the state of the server
-- that the socket reaches. Deadlines and log lines are left out.
pub mod Session
use cova.Base.{
  ℕ, String, ◌+s◌, Bool, true, false, Option, none, some, ◌⊎◌, inl, inr, List, [], ◌∷◌, Dict,
  if◌then◌else◌, ◌=s◌, is_empty,
}

pub record WorkspaceConfig : Type 0 where
  pub server_url : String
  pub agent_id : String
  pub token : String
  pub role : String
  pub client_version : String

pub record WorkspaceMessage : Type 0 where
  pub kind : String
  pub id : String
  pub platform : String
  pub channel_id : String
  pub user_id : String
  pub username : String
  pub text : String
  pub thread_id : String
  pub metadata : Dict String

pub record WorkspaceResponse : Type 0 where
  pub kind : String
  pub message_id : String
  pub platform : String
  pub channel_id : String
  pub text : String

pub record AuthRequest : Type 0 where
  pub kind : String
  pub agent_id : String
  pub token : String
  pub client_version : String
  pub role : String

pub record AuthResponse : Type 0 where
  pub kind : String
  pub success : Bool
  pub session_id : String
  pub workspace : String
  pub error : String
  pub tools : List String

-- Without the message handler, which the read loop takes as an argument.
pub record WorkspaceClient : Type 0 where
  pub cfg : WorkspaceConfig
  pub conn : Option ℕ
  pub session_id : String
  pub workspace : String
  pub tools : List String
  pub done : Bool
  pub closed : List ℕ

unfoldable pub new_workspace_client : WorkspaceConfig → WorkspaceClient
new_workspace_client cfg = record {
  cfg = if is_empty cfg.client_version then record cfg { client_version = "0.1.0" } else cfg;
  conn = none;
  session_id = "";
  workspace = "";
  tools = [];
  done = false;
  closed = [];
}

-- `Close` of the WebSocket connection.
unfoldable pub hang_up : ℕ → WorkspaceClient → WorkspaceClient
hang_up n c = record c { closed = n ∷ c.closed }

unfoldable pub auth_request : WorkspaceConfig → AuthRequest
auth_request cfg = record {
  kind = "auth";
  agent_id = cfg.agent_id;
  token = cfg.token;
  client_version = cfg.client_version;
  role = cfg.role;
}

-- What becomes of the authentication: the request is not written, no response is read, or this one is.
pub data Handshake : Type 0 where
  not_sent : String → Handshake
  not_read : String → Handshake
  answered : AuthResponse → Handshake

-- The client after the handshake on its connection, with the error of `Connect`, if any.
unfoldable pub settle : ℕ → Handshake → WorkspaceClient → WorkspaceClient × Option String
unfolding hang_up
settle n (not_sent e) c = (hang_up n c, some ("workspace auth send: " +s e))
settle n (not_read e) c = (hang_up n c, some ("workspace auth read: " +s e))
settle n (answered resp) c =
    if resp.success
    then (
      record c { session_id = resp.session_id; workspace = resp.workspace; tools = resp.tools },
      none,
    )
    else (hang_up n c, some ("workspace auth failed: " +s resp.error))

module _ {S : Type 0} (authenticate : AuthRequest → S → S × Handshake) where
  unfoldable pub dialed : String ⊎ ℕ → WorkspaceClient → S → S × WorkspaceClient × Option String
  unfolding settle auth_request
  dialed (inl e) c s = (s, c, some ("workspace connect: " +s e))
  dialed (inr n) c s =
      let shaken = authenticate (auth_request c.cfg) s in
      let after = settle n shaken.1 (record c { conn = some n }) in (shaken.0, after.0, after.1)

  -- `Connect`, before the read loop is started; `dial` is what dialing the URL gives.
  unfoldable pub connect :
      (String → String ⊎ ℕ) → WorkspaceClient → S → S × WorkspaceClient × Option String
  unfolding dialed
  connect dial c s = dialed (dial c.cfg.server_url) c s

-- `SendResponse`: what is written, or an error; `write` is the socket's answer.
unfoldable pub send_response :
    (ℕ → WorkspaceResponse → Option String) → WorkspaceResponse → WorkspaceClient → Option String
send_response write resp c = elim c.conn [
  | none ↦ some "not connected"
  | some n ↦ write n (record resp { kind = "response" })
]

unfoldable pub close_held : Option ℕ → WorkspaceClient → WorkspaceClient
unfolding hang_up
close_held none c = c
close_held (some n) c = record (hang_up n c) { conn = none }

-- `Close`
unfoldable pub close : WorkspaceClient → WorkspaceClient
unfolding close_held
close c = close_held c.conn c

-- What one `ReadMessage` gives: an error, bytes that are no JSON, a message of another type, one that
-- does not decode, or a message.
pub data Incoming : Type 0 where
  read_failed : String → Incoming
  garbled : Incoming
  of_type : String → Option WorkspaceMessage → Incoming

-- How the loop stands: it waits for more, has ended, or has read from no connection.
pub data Loop : Type 0 where
  waits : Loop
  ended : Loop
  read_of_nil : Loop

-- The message handler, where one is set; it may call the client's methods.
unfoldable pub handle :
    Option (WorkspaceMessage → WorkspaceClient → WorkspaceClient)
    → String
    → Option WorkspaceMessage
    → WorkspaceClient
    → WorkspaceClient
handle none kind msg c = c
handle (some on_message) kind none c = c
handle (some on_message) kind (some msg) c = if kind =s "message" then on_message msg c else c

module _ (on_message : Option (WorkspaceMessage → WorkspaceClient → WorkspaceClient)) where
  -- `readLoop`; each round reads from the connection that the client has then.
  unfoldable pub read_loop : List Incoming → Option ℕ → WorkspaceClient → WorkspaceClient × Loop
  unfolding handle
  read_loop incoming none c = (record c { done = true }, read_of_nil)
  read_loop [] (some n) c = (c, waits)
  read_loop (read_failed e ∷ incoming) (some n) c = (record c { done = true }, ended)
  read_loop (garbled ∷ incoming) (some n) c = read_loop incoming c.conn c
  read_loop (of_type kind msg ∷ incoming) (some n) c =
      let handled = handle on_message kind msg c in read_loop incoming handled.conn handled
