-- ===== src/Agents/Sessions.antt =====
-- Sessions of agents in the pool of internal/agent/connection.go, over any order of its calls.
use cova.Base.{
  ℕ, String, ◌≡◌, refl, Bool, true, false, not, ◌&&◌, Option, none, some, List, [], ◌∷◌, Dict,
  lookup, insert, if◌then◌else◌, ◌=s◌, =s_iff, is_empty, inl, inr, Bool-cases, Has, lookup-insert,
  lookup-delete,
}
use cova.Agents.Pool.{
  new_pool, offline, is_up, Info, State, AuthRequest, Pool, register_agent, attach, greet, enter,
  handle_web_socket, set_offline, pong, seen_at, disconnect_agent, is_live, is_online,
}

-- A call of the pool, or the end of the loop that reads an agent's connection.
pub data Call : Type 0 where
  registers : Info → Call
  connects : ℕ → String → Bool → Option AuthRequest → Call
  pongs : ℕ → String → Call
  read_ends : String → Call

unfoldable pub call : Call → Pool → Pool
unfolding register_agent handle_web_socket disconnect_agent pong
call (registers info) p = register_agent info p
call (connects now remote_addr written r) p = (handle_web_socket now remote_addr written r p).0
call (pongs now agent_id) p = pong now agent_id p
call (read_ends agent_id) p = disconnect_agent agent_id p

unfoldable pub call_all : List Call → Pool → Pool
unfolding call
call_all [] p = p
call_all (c ∷ calls) p = call_all calls (call c p)

-- Every agent shown online has an entry among the connections.
abbrev pub IsLinked : Pool → Type 0
IsLinked p = (id : String) → is_online id p ≡ true → Has id p.conns

is_live-insert :
    (k id : String) (s : State) (states : Dict State)
    → is_live (lookup id (insert k s states))
      ≡ (if k =s id then is_up s.status else is_live (lookup id states))
is_live-insert k id s states = elim (Bool-cases (k =s id)) [
  | inl e ↦ rw (lookup-insert k id s states, e) (unfold is_live in refl)
  | inr e ↦ rw (lookup-insert k id s states, e) refl
]

pub is_live-set_offline :
    (k id : String) (o : Option State) (states : Dict State)
    → lookup k states ≡ o
    → is_live (lookup id (set_offline k o states))
      ≡ (if k =s id then false else is_live (lookup id states))
unfolding set_offline
is_live-set_offline k id none states e = elim (Bool-cases (k =s id)) [
  | inl same ↦
      let gone : lookup id states ≡ none = rw (← (=s_iff k id).0 same) e in
      rw (same, gone) (unfold is_live in refl)
  | inr other ↦ rw other refl
]
is_live-set_offline k id (some s) states e =
    rw (is_live-insert k id (record s { status = offline }) states) (unfold is_up in refl)

is_live-seen_at :
    (now : ℕ) (k id : String) (o : Option State) (states : Dict State)
    → lookup k states ≡ o
    → is_live (lookup id (seen_at now k o states)) ≡ is_live (lookup id states)
unfolding seen_at
is_live-seen_at now k id none states e = refl
is_live-seen_at now k id (some s) states e = elim (Bool-cases (k =s id)) [
  | inl same ↦
      let found : lookup id states ≡ some s = rw (← (=s_iff k id).0 same) e in
      rw (is_live-insert k id (record s { last_seen_at = now }) states, same, found)
        (unfold is_live in refl)
  | inr other ↦ rw (is_live-insert k id (record s { last_seen_at = now }) states, other) refl
]

register_agent-IsLinked : (info : Info) (p : Pool) → IsLinked p → IsLinked (register_agent info p)
unfolding register_agent is_online is_up
register_agent-IsLinked info p h id e = elim (Bool-cases (info.id =s id)) [
  | inl same ↦ absurd (let no = rw (is_live-insert info.id id _ p.states, same) at e in cc no)
  | inr other ↦ h id (rw (is_live-insert info.id id _ p.states, other) at e)
]

attach-IsLinked :
    (now : ℕ) (agent_id remote_addr : String) (info : Info) (p : Pool)
    → IsLinked p
    → IsLinked (attach now agent_id remote_addr info p)
unfolding attach is_online
attach-IsLinked now agent_id remote_addr info p h id e = elim (Bool-cases (agent_id =s id)) [
  | inl same ↦ (p.next_conn, rw (lookup-insert agent_id id p.next_conn p.conns, same) refl)
  | inr other ↦
      let (c, f) = h id (rw (is_live-insert agent_id id _ p.states, other) at e) in
      (c, rw (lookup-insert agent_id id p.next_conn p.conns, other) f)
]

disconnect_agent-IsLinked :
    (agent_id : String) (p : Pool) → IsLinked p → IsLinked (disconnect_agent agent_id p)
unfolding disconnect_agent is_online
disconnect_agent-IsLinked agent_id p h id e = elim (Bool-cases (agent_id =s id)) [
  | inl same ↦ absurd (
      let no =
        rw (is_live-set_offline agent_id id (lookup agent_id p.states) p.states refl, same) at e in
      cc no)
  | inr other ↦
      let (c, f) = h id (
        rw (is_live-set_offline agent_id id (lookup agent_id p.states) p.states refl, other) at
          e) in
      (c, rw (lookup-delete agent_id id p.conns, other) f)
]

pong-IsLinked :
    (now : ℕ) (agent_id : String) (p : Pool) → IsLinked p → IsLinked (pong now agent_id p)
unfolding pong is_online
pong-IsLinked now agent_id p h id e =
    h id (rw (is_live-seen_at now agent_id id (lookup agent_id p.states) p.states refl) at e)

greet-IsLinked : (written : Bool) (c : ℕ) (p : Pool) → IsLinked p → IsLinked (greet written c p).0
unfolding greet is_online
greet-IsLinked true c p h = h
greet-IsLinked false c p h = h

enter-IsLinked :
    (now : ℕ) (remote_addr : String) (written : Bool) (agent_id : String) (o : Option Info)
    (p : Pool)
    → IsLinked p
    → IsLinked (enter now remote_addr written agent_id o p).0
unfolding enter
enter-IsLinked now remote_addr written agent_id none p h = h
enter-IsLinked now remote_addr written agent_id (some info) p h =
    greet-IsLinked written p.next_conn _ (attach-IsLinked now agent_id remote_addr info p h)

handle_web_socket-IsLinked :
    (now : ℕ) (remote_addr : String) (written : Bool) (o : Option AuthRequest) (p : Pool)
    → IsLinked p
    → IsLinked (handle_web_socket now remote_addr written o p).0
unfolding handle_web_socket
handle_web_socket-IsLinked now remote_addr written none p h = h
handle_web_socket-IsLinked now remote_addr written (some r) p h =
    elim (Bool-cases (r.request_type =s "auth")) [
      | inl auth ↦
          elim (Bool-cases (not (is_empty p.auth_token) && not (r.token =s p.auth_token))) [
            | inl wrong ↦ rw (auth, wrong) h
            | inr right ↦
                rw (auth, right)
                  (enter-IsLinked now remote_addr written r.agent_id (lookup r.agent_id p.agents) p
                    h)
          ]
      | inr other ↦ rw other h
    ]

call-IsLinked : (c : Call) (p : Pool) → IsLinked p → IsLinked (call c p)
unfolding call
call-IsLinked (registers info) p h = register_agent-IsLinked info p h
call-IsLinked (connects now remote_addr written r) p h =
    handle_web_socket-IsLinked now remote_addr written r p h
call-IsLinked (pongs now agent_id) p h = pong-IsLinked now agent_id p h
call-IsLinked (read_ends agent_id) p h = disconnect_agent-IsLinked agent_id p h

call_all-IsLinked : (calls : List Call) (p : Pool) → IsLinked p → IsLinked (call_all calls p)
unfolding call_all
call_all-IsLinked [] p h = h
call_all-IsLinked (c ∷ calls) p h = call_all-IsLinked calls (call c p) (call-IsLinked c p h)

-- After any calls on a new pool, an agent that is shown online has an entry among the connections.
pub online_connected :
    (auth_token : String) (calls : List Call) (id : String)
    → is_online id (call_all calls (new_pool auth_token)) ≡ true
    → Has id (call_all calls (new_pool auth_token)).conns
online_connected auth_token calls =
    call_all-IsLinked calls (new_pool auth_token)
      (λ id e. absurd (unfold is_online is_live new_pool lookup in cc e))
