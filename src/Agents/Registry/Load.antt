-- ===== src/Agents/Registry/Load.antt =====
-- internal/agent/registry.go: `validateRegistry`, `LoadRegistry` and `LoadRegistryWithAgents`. The
-- messages of an error are values, with the index of their entry.
use cova.Base.{
  ℕ, suc, String, Bool, true, false, not, Option, none, some, List, [], ◌∷◌, ◌++◌, if◌then◌else◌,
  ◌=s◌, is_empty, is_blank, trim_space,
}
use cova.Experts.Yaml.{Read, fails, gives}
use cova.Experts.Check.{seen_id}
use cova.Agents.Pool.{Info}
use cova.Agents.Registry.{RegistryRef, Registry, enabled_agents, parse_agent_registry}

pub data Fault : Type 0 where
  bad_api_version bad_kind : Fault
  agent_id_required name_required role_required : ℕ → Fault
  agent_id_duplicated : ℕ → String → Fault

unfoldable pub fault_if : Bool → Fault → List Fault
fault_if true f = f ∷ []
fault_if false f = []

unfoldable pub check_ref : ℕ → List String → RegistryRef → List Fault
unfolding fault_if seen_id
check_ref idx seen ref =
    let id = trim_space ref.agent_id in
    (if is_empty id
      then agent_id_required idx ∷ []
      else fault_if (seen_id id seen) (agent_id_duplicated idx id))
    ++ (fault_if (is_blank ref.name) (name_required idx)
        ++ fault_if (is_blank ref.role) (role_required idx))

unfoldable pub note_id : RegistryRef → List String → List String
unfolding seen_id
note_id ref seen =
    let id = trim_space ref.agent_id in
    if is_empty id then seen else if seen_id id seen then seen else id ∷ seen

unfoldable pub check_refs : ℕ → List String → List RegistryRef → List Fault
unfolding check_ref note_id
check_refs idx seen [] = []
check_refs idx seen (ref ∷ refs) =
    check_ref idx seen ref ++ check_refs (suc idx) (note_id ref seen) refs

unfoldable pub validate_registry : Registry → List Fault
unfolding fault_if check_refs
validate_registry r =
    fault_if (not (trim_space r.api_version =s "cova/v1")) bad_api_version
    ++ (fault_if (not (trim_space r.kind =s "AgentRegistry")) bad_kind ++ check_refs 0 [] r.agents)

pub data Loaded {ℓ} (A : Type ℓ) : Type ℓ where
  unreadable : Loaded A
  undecodable : ℕ → String → Loaded A
  invalid : List Fault → Loaded A
  loaded : A → Loaded A

unfoldable pub valid_or : Registry → List Fault → Loaded Registry
valid_or r [] = loaded r
valid_or r (f ∷ faults) = invalid (f ∷ faults)

unfoldable pub checked_registry : Read Registry → Loaded Registry
unfolding valid_or validate_registry
checked_registry (fails line why) = undecodable line why
checked_registry (gives r) = valid_or r (validate_registry r)

unfoldable pub registry_of : Option String → Loaded Registry
unfolding checked_registry parse_agent_registry
registry_of none = unreadable
registry_of (some raw) = checked_registry (parse_agent_registry raw)

unfoldable pub infos : List RegistryRef → List Info
infos [] = []
infos (r ∷ refs) =
    (record {
      id = r.agent_id;
      name = r.name;
      role = r.role;
      description = "";
      agent_md_path = r.agent_md;
      enabled = r.enabled;
      tools = [];
    })
    ∷ infos refs

unfoldable pub with_agents : Loaded Registry → Loaded (Registry × List Info)
unfolding infos enabled_agents
with_agents unreadable = unreadable
with_agents (undecodable line why) = undecodable line why
with_agents (invalid faults) = invalid faults
with_agents (loaded r) = loaded (r, infos (enabled_agents r.agents))

unfoldable pub load_registry : (String → Option String) → String → Loaded Registry
unfolding registry_of
load_registry read_file path = registry_of (read_file path)

unfoldable pub load_registry_with_agents :
    (String → Option String) → String → Loaded (Registry × List Info)
unfolding with_agents load_registry
load_registry_with_agents read_file path = with_agents (load_registry read_file path)
