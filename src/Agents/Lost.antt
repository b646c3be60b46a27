-- ===== src/Agents/Lost.antt =====
-- Connections that the pool of internal/agent/connection.go loses, or keeps too long.
use cova.Base.{
  ℕ, [], subst, String, ◌≡◌, refl, ◌∙◌, ap, Bool, true, false, not, ◌&&◌, Option, none, some, List,
  ◌∷◌, lookup, ◌=s◌, =s_refl, is_empty, inl, inr, Bool-cases, lookup-delete, lookup-insert_self,
  arith,
}
use cova.Agents.Pool.{
  Incoming, read_loop, is_up, Info, AuthRequest, Pool, is_closed, close_held, connected_state,
  attach, connected, greet, enter, handle_web_socket, disconnect_agent, is_live, is_online,
  not_connected, connection_closed, send_held, send_to_agent,
}
use cova.Agents.Sessions.{is_live-set_offline}

is_closed_self : (c : ℕ) (closed : List ℕ) → is_closed c (c ∷ closed) ≡ true
unfolding is_closed
is_closed_self c closed = ground arith

is_closed-close_held : (c : ℕ) (closed : List ℕ) → is_closed c (close_held (some c) closed) ≡ true
unfolding close_held
is_closed-close_held c closed = elim (Bool-cases (is_closed c closed)) [
  | inl e ↦ rw e e
  | inr e ↦ rw e (is_closed_self c closed)
]

disconnected :
    (id : String) (c : ℕ) (written : Bool) (p : Pool)
    → lookup id p.conns ≡ some c
    → (is_online id (disconnect_agent id p) ≡ false)
      × (is_closed c (disconnect_agent id p).closed ≡ true)
      × (send_to_agent written id (disconnect_agent id p) ≡ not_connected)
disconnected id c written p e = (
  unfold is_online disconnect_agent in
      rw (is_live-set_offline id id (lookup id p.states) p.states refl, =s_refl id) refl,
  unfold disconnect_agent in rw e (is_closed-close_held c p.closed),
  unfold send_to_agent send_held disconnect_agent in
      rw (lookup-delete id id p.conns, =s_refl id, send_held) refl,
)

-- What holds of a pool that has just taken a connection in.
record Entered (id : String) (written : Bool) (c : ℕ) (p : Pool) : Type 0 where
  held : lookup id p.conns ≡ some c
  shown : is_online id p ≡ true
  unanswered : written ≡ false → is_closed c p.closed ≡ true

attached :
    (now : ℕ) (id remote_addr : String) (info : Info) (p : Pool)
    → (lookup id (attach now id remote_addr info p).conns ≡ some p.next_conn)
      × (is_online id (attach now id remote_addr info p) ≡ true)
unfolding attach connected_state is_online is_live is_up
attached now id remote_addr info p =
    (lookup-insert_self id p.next_conn p.conns, rw (lookup-insert_self id _ p.states) refl)

shown_alike :
    (id : String) (p q : Pool) → p.states ≡ q.states → is_online id p ≡ true → is_online id q ≡ true
unfolding is_online
shown_alike id p q e h = rw (← e) h

enter-Entered :
    (now : ℕ) (remote_addr : String) (written : Bool) (id : String) (o : Option Info) (p : Pool)
    (c : ℕ)
    → (enter now remote_addr written id o p).1 ≡ connected c
    → Entered id written c (enter now remote_addr written id o p).0
unfolding enter greet
enter-Entered now remote_addr written id none p c e = cc e
enter-Entered now remote_addr true id (some info) p c e =
    let same : p.next_conn ≡ c = cc e in
    let a = attached now id remote_addr info p in
    record { held = a.0 ∙ ap some same; shown = a.1; unanswered = λ h. cc h }
enter-Entered now remote_addr false id (some info) p c e =
    let same : p.next_conn ≡ c = cc e in
    let a = attached now id remote_addr info p in
    record {
      held = a.0 ∙ ap some same;
      shown = shown_alike id (attach now id remote_addr info p) _ refl a.1;
      unanswered = λ h.
          rw (← same) (is_closed-close_held p.next_conn (attach now id remote_addr info p).closed);
    }

handle_web_socket-Entered :
    (now : ℕ) (remote_addr : String) (written : Bool) (r : AuthRequest) (p : Pool) (c : ℕ)
    → (handle_web_socket now remote_addr written (some r) p).1 ≡ connected c
    → Entered r.agent_id written c (handle_web_socket now remote_addr written (some r) p).0
unfolding handle_web_socket
handle_web_socket-Entered now remote_addr written r p c e =
    elim (Bool-cases (r.request_type =s "auth")) [
      | inl auth ↦
          elim (Bool-cases (not (is_empty p.auth_token) && not (r.token =s p.auth_token))) [
            | inl wrong ↦ absurd (let no = rw (auth, wrong) at e in cc no)
            | inr right ↦
                rw (auth, right)
                  (enter-Entered now remote_addr written r.agent_id (lookup r.agent_id p.agents) p c
                    (rw (auth, right) at e))
          ]
      | inr other ↦ absurd (let no = rw other at e in cc no)
    ]

-- A connection that is replaced is closed.
replaced_closed :
    (now : ℕ) (remote_addr : String) (r : AuthRequest) (p : Pool) (old c : ℕ)
    → lookup r.agent_id p.conns ≡ some old
    → (handle_web_socket now remote_addr true (some r) p).1 ≡ connected c
    → is_closed old (handle_web_socket now remote_addr true (some r) p).0.closed ≡ true
unfolding handle_web_socket enter greet attach
replaced_closed now remote_addr r p old c held e = elim (Bool-cases (r.request_type =s "auth")) [
  | inl auth ↦ elim (Bool-cases (not (is_empty p.auth_token) && not (r.token =s p.auth_token))) [
    | inl wrong ↦ absurd (let no = rw (auth, wrong) at e in cc no)
    | inr right ↦ rw (auth, right) (go (lookup r.agent_id p.agents) (rw (auth, right) at e))
  ]
  | inr other ↦ absurd (let no = rw other at e in cc no)
]
  where
    go :
        (o : Option Info)
        → (enter now remote_addr true r.agent_id o p).1 ≡ connected c
        → is_closed old (enter now remote_addr true r.agent_id o p).0.closed ≡ true
    go none h = cc h
    go (some info) h = rw held (is_closed-close_held old p.closed)

closed_reads :
    {R : Type 0} (on_response : String → R → Pool → Pool) (id : String) (c : ℕ)
    (incoming : List (Incoming R)) (p : Pool)
    → is_closed c p.closed ≡ true
    → read_loop on_response id c incoming p ≡ disconnect_agent id p
unfolding read_loop
closed_reads on_response id c [] p e = refl
closed_reads on_response id c (i ∷ incoming) p e = rw e refl

-- An agent connects, and connects once more: the pool closes the first connection, so the loop that
-- reads it ends, whatever is still on its way there. The agent was shown online; then it is shown
-- offline, its second connection is closed, and no message is sent to it.
pub reconnected_lost :
    {R : Type 0} (on_response : String → R → Pool → Pool) (incoming : List (Incoming R))
    (first again : ℕ) (remote_addr other_addr : String) (q r : AuthRequest) (p : Pool) (old c : ℕ)
    (written : Bool)
    → q.agent_id ≡ r.agent_id
    → (handle_web_socket first remote_addr true (some q) p).1 ≡ connected old
    → (handle_web_socket again other_addr true
        (some r)
        (handle_web_socket first remote_addr true (some q) p).0).1
      ≡ connected c
    → let shown =
        (handle_web_socket again other_addr true
          (some r)
          (handle_web_socket first remote_addr true (some q) p).0).0 in
      let after = read_loop on_response q.agent_id old incoming shown in
      (is_online r.agent_id shown ≡ true)
      × (is_online r.agent_id after ≡ false)
      × (is_closed c after.closed ≡ true)
      × (send_to_agent written r.agent_id after ≡ not_connected)
reconnected_lost on_response incoming first again remote_addr other_addr q r p old c written same
      once twice =
    let connected_once = (handle_web_socket first remote_addr true (some q) p).0 in
    let shown = (handle_web_socket again other_addr true (some r) connected_once).0 in
    let held = (handle_web_socket-Entered first remote_addr true q p old once).held in
    let entered = handle_web_socket-Entered again other_addr true r connected_once c twice in
    let cut =
      replaced_closed again other_addr r connected_once old c
        (subst (λ id. lookup id connected_once.conns ≡ some old) same held) twice in
    let ends = closed_reads on_response q.agent_id old incoming shown cut in
    let gone = ends ∙ ap (λ id. disconnect_agent id shown) same in
    let lost = disconnected r.agent_id c written shown entered.held in
    (entered.shown, rw gone lost.0, rw gone lost.1, rw gone lost.2)

-- An agent whose answer cannot be written is shown online, and its connection is closed: a message
-- for it fails.
pub unanswered_shown_online :
    (now : ℕ) (remote_addr : String) (r : AuthRequest) (p : Pool) (c : ℕ) (written : Bool)
    → (handle_web_socket now remote_addr false (some r) p).1 ≡ connected c
    → let after = (handle_web_socket now remote_addr false (some r) p).0 in
      (is_online r.agent_id after ≡ true)
      × (send_to_agent written r.agent_id after ≡ connection_closed)
unanswered_shown_online now remote_addr r p c written ok =
    let entered = handle_web_socket-Entered now remote_addr false r p c ok in
    (
      entered.shown,
      unfold send_to_agent send_held in rw (entered.held, send_held, entered.unanswered refl) refl,
    )
