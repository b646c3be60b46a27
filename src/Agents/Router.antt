-- ===== src/Agents/Router.antt =====
-- internal/routing/router.go: `Router`, with the messages of internal/channel. What a call sends is
-- the list of its effects, in order; `room` tells which agents' sockets take a message.
use cova.Base.{
  String, Bool, true, ◌&&◌, Option, none, some, List, [], ◌∷◌, Dict, if◌then◌else◌, ◌=s◌,
}
use cova.Agents.Pool.{State, is_up, Pool, is_online, SendResult, send_to_agent}

pub record IncomingMessage : Type 0 where
  pub id : String
  pub platform : String
  pub channel_id : String
  pub user_id : String
  pub username : String
  pub text : String
  pub mentions : List String
  pub chat_type : String
  pub metadata : Dict String

pub data Effect : Type 0 where
  routes : String → SendResult → Effect
  offline_notice : String → Effect

-- `ListAgents`
unfoldable pub list_agents : Dict State → List State
list_agents [] = []
list_agents ((id, s) ∷ states) = s ∷ list_agents states

-- A loop of `findDefaultAgent`: the first agent that passes a test.
unfoldable pub first : (State → Bool) → List State → Option State
first test [] = none
first test (s ∷ agents) = let rest = first test agents in if test s then some s else rest

unfoldable pub is_manager : State → Bool
is_manager s = s.info.role =s "PM"

unfoldable pub shows_online : State → Bool
unfolding is_up
shows_online s = is_up s.status

unfoldable pub or_else : Option State → Option State → Option State
or_else none b = b
or_else (some a) b = some a

-- The loops one after the other; the last takes any agent.
unfoldable pub default_state : List State → Option State
unfolding first is_manager shows_online or_else
default_state agents = or_else (first (λ s. is_manager s && shows_online s) agents) (
    or_else (first shows_online agents)
      (or_else (first is_manager agents) (first (λ s. true) agents)))

unfoldable pub id_of : Option State → List String
id_of none = []
id_of (some s) = s.info.id ∷ []

unfoldable pub find_default_agent : Pool → List String
unfolding default_state id_of list_agents
find_default_agent p = id_of (default_state (list_agents p.states))

unfoldable pub unmentioned : IncomingMessage → Pool → List String
unfolding find_default_agent
unmentioned m p = if m.chat_type =s "p2p" then find_default_agent p else []

unfoldable pub targets : List String → IncomingMessage → Pool → List String
unfolding unmentioned
targets [] m p = unmentioned m p
targets (id ∷ ids) m p = id ∷ ids

unfoldable pub resolve_targets : IncomingMessage → Pool → List String
unfolding targets
resolve_targets m p = targets m.mentions m p

unfoldable pub deliver_to : (String → Bool) → Pool → String → Effect
deliver_to room p id =
    if is_online id p then routes id (send_to_agent (room id) id p) else offline_notice id

unfoldable pub deliver_all : (String → Bool) → Pool → List String → List Effect
unfolding deliver_to
deliver_all room p [] = []
deliver_all room p (id ∷ ids) = deliver_to room p id ∷ deliver_all room p ids

unfoldable pub route_incoming : (String → Bool) → IncomingMessage → Pool → List Effect
unfolding resolve_targets deliver_all
route_incoming room m p = deliver_all room p (resolve_targets m p)
