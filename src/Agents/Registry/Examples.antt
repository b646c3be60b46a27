-- ===== src/Agents/Registry/Examples.antt =====
-- internal/agent/registry.go on small files.
use cova.Base.{String, ◌≡◌, refl, true, false, some, [], ◌∷◌, ◌=s◌, is_empty, is_blank, trim_space}
use cova.Base.Bytes.{split, after_prefix}
use cova.Base.Fold.{equal_fold}
use cova.Experts.Yaml.{split_yaml_key_value, strip_inline_comment}
use cova.Agents.Pool.{Info}
use cova.Agents.Registry.{RegistryRef, strip_comment, parse_agent_registry, enabled_agents}
use cova.Agents.Registry.Load.{
  loaded, invalid, agent_id_duplicated, role_required, load_registry_with_agents,
}

-- Named on an `unfolding` line, this opens the whole program.
program : Unit {0}
unfolding load_registry_with_agents parse_agent_registry strip_comment enabled_agents split
    after_prefix is_empty is_blank trim_space ◌=s◌ equal_fold split_yaml_key_value
    strip_inline_comment
program = tt

abbrev text : String
text =
    "api_version: cova/v1\nkind: AgentRegistry\nworkspace: desk\nagents:\n  - agent_id: pm\n    name: \"Pat # one\"\n    role: PM\n    enabled: TRUE\n  -\n  - agent_id: fx # later\n    name: Fay\n    role: trader\n"

abbrev pat : RegistryRef
pat = record { agent_id = "pm"; name = "Pat # one"; role = "PM"; agent_md = ""; enabled = true }

abbrev fay : RegistryRef
fay = record { agent_id = "fx"; name = "Fay"; role = "trader"; agent_md = ""; enabled = false }

abbrev pat_info : Info
pat_info = record {
  id = "pm";
  name = "Pat # one";
  role = "PM";
  description = "";
  agent_md_path = "";
  enabled = true;
  tools = [];
}

desk_loaded :
    load_registry_with_agents (λ path. some text) "agents.yaml"
    ≡ loaded (
      record {
        api_version = "cova/v1";
        kind = "AgentRegistry";
        workspace = "desk";
        agents = pat ∷ fay ∷ [];
      },
      pat_info ∷ [],
    )
unfolding program
desk_loaded = refl

twice_refused :
    load_registry_with_agents
      (λ path.
        some
          "api_version: cova/v1\nkind: AgentRegistry\nagents:\n - agent_id: a\n   name: A\n   role: r\n - agent_id: a\n   name: B\n")
      "agents.yaml"
    ≡ invalid (agent_id_duplicated 1 "a" ∷ role_required 1 ∷ [])
unfolding program
twice_refused = refl

-- An apostrophe within double quotes closes them here, and not in internal/registry/loader.go.
apostrophe : strip_comment "name: \"Pat's #1\"" ≡ "name: \"Pat's "
unfolding program
apostrophe = refl

apostrophe_kept : strip_inline_comment "name: \"Pat's #1\"" ≡ "name: \"Pat's #1\""
unfolding program
apostrophe_kept = refl
