-- ===== src/Feishu.antt =====
-- internal/channel/feishu/feishu.go: `New`, and what becomes of a message that comes in. The
-- calls of the Feishu client and json.Unmarshal are parameters; a pointer is an option. A message
-- handler is set, and a sender with an id has an open id.
mod Mentions
mod Examples
use cova.Base.{
  ℕ, zero, suc, String, ◌+s◌, Bool, true, false, ◌&&◌, ◌||◌, not, Option, none, some, List, [], ◌∷◌,
  Dict, lookup, insert, if◌then◌else◌, leb, ◌=s◌, is_empty, trim_space, map_option,
}
use Prim.Native.Char.{Char, code}
use cova.Base.Bytes.{after_prefix}
use cova.Http.{or_blank}
use cova.Agents.Router.{IncomingMessage}

pub record Config : Type 0 where
  pub app_id : String
  pub app_secret : String
  pub bot_name_to_agent_id : Dict String

pub record Channel : Type 0 where
  pub cfg : Config
  pub bot_open_id : String
  pub usernames : Dict String

-- `New`; an error is `none`.
unfoldable pub new_channel : Config → Option Channel
new_channel cfg =
    if is_empty cfg.app_id || is_empty cfg.app_secret
    then none
    else some (record { cfg = cfg; bot_open_id = ""; usernames = [] })

-- `larkim.EventMessage`, with the names of its mentions.
pub record EventMessage : Type 0 where
  pub content : Option String
  pub chat_type : Option String
  pub chat_id : Option String
  pub message_id : Option String
  pub mentions : Option (List (Option String))

unfoldable pub is_digit : Char → Bool
is_digit c = leb 48 (code c) && leb (code c) 57

unfoldable pub drop_digits : String → String
unfolding is_digit
drop_digits String.[] = String.[]
drop_digits (String.◌∷◌ c s) =
    let rest = drop_digits s in if is_digit c then rest else String.◌∷◌ c s

unfoldable pub cut_here : Char → Option String → Option String → Option String
unfolding drop_digits
cut_here c (some rest) later = some (drop_digits rest)
cut_here c none later = map_option (λ s. String.◌∷◌ c s) later

-- The text without its first mention, if there is one.
unfoldable pub cut_mention : String → Option String
unfolding cut_here after_prefix
cut_mention String.[] = none
cut_mention (String.◌∷◌ c s) =
    let later = cut_mention s in cut_here c (after_prefix "@_user_" (String.◌∷◌ c s)) later

-- The loop of `cleanMention`, with at most so many rounds.
unfoldable pub mention_loop : ℕ → String → String
unfolding cut_mention
mention_loop zero s = s
mention_loop (suc n) s = elim (cut_mention s) [ none ↦ s | some t ↦ mention_loop n t ]

-- The length in characters, which each round lessens.
unfoldable pub chars : String → ℕ
chars String.[] = 0
chars (String.◌∷◌ c s) = suc (chars s)

-- `cleanMention`
unfoldable pub clean_mention : String → String
unfolding mention_loop chars
clean_mention s = trim_space (mention_loop (chars s) s)

unfoldable pub is_mentioned : EventMessage → Bool
is_mentioned msg = elim msg.mentions [ none ↦ false | some [] ↦ false | some (m ∷ mentions) ↦ true ]

unfoldable pub known_agent : Option String → Dict String → Option String
known_agent none agents = none
known_agent (some name) agents = lookup name agents

unfoldable pub add_agent : Option String → List String → List String
add_agent none agent_ids = agent_ids
add_agent (some agent_id) agent_ids = agent_id ∷ agent_ids

unfoldable pub agents_of : Dict String → List (Option String) → List String
unfolding known_agent add_agent
agents_of agents [] = []
agents_of agents (m ∷ mentions) = add_agent (known_agent m agents) (agents_of agents mentions)

unfoldable pub resolve_mentions : Channel → Option (List (Option String)) → List String
unfolding agents_of
resolve_mentions ch none = []
resolve_mentions ch (some mentions) = agents_of ch.cfg.bot_name_to_agent_id mentions

-- `decode` reads the text of a content.
unfoldable pub extract_text : (String → Option String) → Option String → String
unfolding or_blank
extract_text decode none = ""
extract_text decode (some content) = or_blank (decode content)

unfoldable pub fetched_name : String → Option String → Channel → Channel × String
fetched_name open_id none ch = (ch, open_id)
fetched_name open_id (some name) ch =
    (record ch { usernames = insert open_id name ch.usernames }, name)

unfoldable pub cached_name :
    (String → Option String) → String → Option String → Channel → Channel × String
unfolding fetched_name
cached_name fetch open_id none ch = fetched_name open_id (fetch open_id) ch
cached_name fetch open_id (some name) ch = (ch, name)

-- `getUsername`; `fetch` asks Feishu for the name of a user.
unfoldable pub get_username : (String → Option String) → String → Channel → Channel × String
unfolding cached_name
get_username fetch open_id ch = cached_name fetch open_id (lookup open_id ch.usernames) ch

unfoldable pub sender_name : (String → Option String) → Option String → Channel → Channel × String
unfolding get_username
sender_name fetch none ch = (ch, "")
sender_name fetch (some open_id) ch = get_username fetch open_id ch

-- The bot's own message.
unfoldable pub is_own : Channel → Option String → Bool
is_own ch none = false
is_own ch (some open_id) = not (is_empty ch.bot_open_id) && open_id =s ch.bot_open_id

unfoldable pub incoming : Channel → EventMessage → Option String → String → String → IncomingMessage
unfolding resolve_mentions or_blank
incoming ch msg sender username text = record {
  id = or_blank msg.message_id;
  platform = "feishu";
  channel_id = or_blank msg.chat_id;
  user_id = or_blank sender;
  username = username;
  text = text;
  mentions = resolve_mentions ch msg.mentions;
  chat_type = or_blank msg.chat_type;
  metadata = ("chat_type", or_blank msg.chat_type) ∷ [];
}

-- `handleMessage`: the message that the handler gets, if any. `sender` is the sender's open id.
unfoldable pub handle_message :
    (String → Option String)
    → (String → Option String)
    → EventMessage
    → Option String
    → Channel
    → Channel × Option IncomingMessage
unfolding is_own clean_mention extract_text is_mentioned sender_name incoming
handle_message decode fetch msg sender ch =
    let text = clean_mention (extract_text decode msg.content) in
    let named = sender_name fetch sender ch in
    if is_own ch sender
    then (ch, none)
    else if is_empty text
    then (ch, none)
    else if or_blank msg.chat_type =s "group" && not (is_mentioned msg)
    then (ch, none)
    else (named.0, some (incoming ch msg sender named.1 text))
