-- ===== src/Agents/Registry.antt =====
-- internal/agent/registry.go. The lines of a file are split as internal/registry/loader.go splits
-- them, by functions of the same bodies; the comments end otherwise, and a field that cannot be read
-- is passed over. `read_file` is `os.ReadFile`.
mod Load
mod Examples
use Prim.Native.Char.{code}
use cova.Base.{
  ℕ, zero, suc, String, Bool, true, false, not, ◌&&◌, ◌||◌, Option, none, some, List, [], ◌∷◌, ◌++◌,
  if◌then◌else◌, ◌==◌, ◌=s◌, is_empty, is_blank, trim_space,
}
use cova.Base.Bytes.{split, after_prefix}
use cova.Base.Fold.{equal_fold}
use cova.Experts.Yaml.{Read, fails, gives, split_yaml_key_value, leading_spaces}
use cova.Experts.Check.{fault_if, seen_id}
use cova.Agents.Pool.{Info}

pub record RegistryRef : Type 0 where
  pub agent_id : String
  pub name : String
  pub role : String
  pub agent_md : String
  pub enabled : Bool

pub record Registry : Type 0 where
  pub api_version : String
  pub kind : String
  pub workspace : String
  pub agents : List RegistryRef

-- One flag for both quotes.
unfoldable pub strip_from : Bool → String → String
strip_from quoted String.[] = String.[]
strip_from quoted (String.◌∷◌ c s) =
    let quoted' = if code c == 34 || code c == 39 then not quoted else quoted in
    let rest = strip_from quoted' s in
    if code c == 35 && not quoted' then String.[] else String.◌∷◌ c rest

unfoldable pub strip_comment : String → String
unfolding strip_from
strip_comment line = strip_from false line

-- `EnabledAgents`
unfoldable pub enabled_agents : List RegistryRef → List RegistryRef
enabled_agents [] = []
enabled_agents (r ∷ refs) = let rest = enabled_agents refs in if r.enabled then r ∷ rest else rest

unfoldable pub empty_ref : RegistryRef
empty_ref = record { agent_id = ""; name = ""; role = ""; agent_md = ""; enabled = false }

unfoldable pub set_field : RegistryRef → Option (String × String) → RegistryRef
unfolding equal_fold
set_field item none = item
set_field item (some (key, value)) =
    if key =s "agent_id"
    then record item { agent_id = value }
    else if key =s "name"
    then record item { name = value }
    else if key =s "role"
    then record item { role = value }
    else if key =s "agent_md"
    then record item { agent_md = value }
    else if key =s "enabled"
    then record item { enabled = equal_fold "true" value }
    else item

unfoldable pub apply_agent_field : RegistryRef → String → RegistryRef
unfolding set_field split_yaml_key_value
apply_agent_field item line = set_field item (split_yaml_key_value line)

-- The loop's state.
pub record Reading : Type 0 where
  pub out : Registry
  pub in_agents : Bool
  pub current : Option RegistryRef

unfoldable pub flush : Reading → Registry
flush y = elim y.current [
  | none ↦ y.out
  | some item ↦ record y.out { agents = y.out.agents ++ (item ∷ []) }
]

unfoldable pub set_top : ℕ → Reading → Option (String × String) → Read Reading
set_top line y none = gives y
set_top line y (some (key, value)) =
    if key =s "api_version"
    then gives (record y { out = record y.out { api_version = value } })
    else if key =s "kind"
    then gives (record y { out = record y.out { kind = value } })
    else if key =s "workspace"
    then gives (record y { out = record y.out { workspace = value } })
    else if key =s "agents"
    then (if is_empty value
        then gives (record y { in_agents = true })
        else fails line "agents must be a sequence")
    else gives y

unfoldable pub new_item : Reading → String → Reading
unfolding flush empty_ref apply_agent_field
new_item y rest = record y {
  out = flush y;
  current = some (if is_empty rest then empty_ref else apply_agent_field empty_ref rest);
}

unfoldable pub more_fields : ℕ → Reading → String → Option RegistryRef → Read Reading
unfolding apply_agent_field
more_fields line y trimmed none = fails line "field found before list item"
more_fields line y trimmed (some item) =
    gives (record y { current = some (apply_agent_field item trimmed) })

unfoldable pub item_line : ℕ → Reading → String → Option String → Read Reading
unfolding new_item more_fields
item_line line y trimmed (some rest) = gives (new_item y (trim_space rest))
item_line line y trimmed none = more_fields line y trimmed y.current

unfoldable pub read_line : ℕ → String → Reading → Read Reading
unfolding set_top item_line strip_comment leading_spaces split_yaml_key_value after_prefix
read_line line text y =
    let trimmed = trim_space (strip_comment text) in
    if is_empty trimmed
    then gives y
    else if leading_spaces text == 0
    then set_top line (record y { in_agents = false }) (split_yaml_key_value trimmed)
    else if not y.in_agents
    then gives y
    else item_line line y trimmed (after_prefix "- " trimmed)

unfoldable pub read_on : (Reading → Read Registry) → Read Reading → Read Registry
read_on more (fails line why) = fails line why
read_on more (gives y) = more y

unfoldable pub read_lines : ℕ → List String → Reading → Read Registry
unfolding read_line read_on flush
read_lines line [] y = gives (flush y)
read_lines line (text ∷ lines) y =
    read_on (read_lines (suc line) lines) (read_line (suc line) text y)

unfoldable pub parse_agent_registry : String → Read Registry
unfolding read_lines split
parse_agent_registry raw = read_lines 0 (split 10 raw) (record {
  out = record { api_version = ""; kind = ""; workspace = ""; agents = [] };
  in_agents = false;
  current = none;
})
