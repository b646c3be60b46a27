-- ===== src/Experts/Load.antt =====
-- internal/registry/loader.go: `LoadRegistry`, `LoadExpertDefinition` and `LoadSnapshot`. `read_file` is
-- `os.ReadFile`; `resolve` is `ResolveConfigPath` over path/filepath, and `clean` is `filepath.Clean`.
use cova.Base.{ℕ, suc, String, Option, none, some, List, [], ◌∷◌, if◌then◌else◌, ◌=s◌}
use cova.Experts.{RegistryRef, Registry, ExpertDefinition, LoadedExpert, Snapshot}
use cova.Experts.Yaml.{Read, fails, gives}
use cova.Experts.Check.{Fault, validate_registry, validate_expert_definition}
use cova.Experts.Parse.{parse_registry}
use cova.Experts.Define.{parse_expert_definition}

pub data LoadError : Type 0 where
  unreadable : String → LoadError
  undecodable : ℕ → String → LoadError
  invalid : List Fault → LoadError
  expert_failed : ℕ → String → LoadError → LoadError
  mismatch : ℕ → String → String → LoadError

pub data Loaded {ℓ} (A : Type ℓ) : Type ℓ where
  failed : LoadError → Loaded A
  loaded : A → Loaded A

unfoldable pub checked : {A : Type 0} → A → List Fault → Loaded A
checked a [] = loaded a
checked a (f ∷ faults) = failed (invalid (f ∷ faults))

unfoldable pub checked_registry : Read Registry → Loaded Registry
unfolding checked validate_registry
checked_registry (fails line why) = failed (undecodable line why)
checked_registry (gives r) = checked r (validate_registry r)

module _ (read_file : String → Option String) (resolve : String → String → String) where
  unfoldable pub registry_of : String → Option String → Loaded Registry
  unfolding checked_registry parse_registry
  registry_of path none = failed (unreadable path)
  registry_of path (some raw) = checked_registry (parse_registry raw)

  unfoldable pub load_registry : String → Loaded Registry
  unfolding registry_of
  load_registry path = registry_of path (read_file path)

  unfoldable pub definition_of : String → Option String → Loaded ExpertDefinition
  unfolding checked parse_expert_definition validate_expert_definition
  definition_of path none = failed (unreadable path)
  definition_of path (some raw) =
      checked (parse_expert_definition raw)
        (validate_expert_definition (parse_expert_definition raw))

  unfoldable pub load_expert_definition : String → Loaded ExpertDefinition
  unfolding definition_of
  load_expert_definition path = definition_of path (read_file path)

  -- The definition against the entry that names it.
  unfoldable pub aligned : ℕ → RegistryRef → String → Loaded ExpertDefinition → Loaded LoadedExpert
  aligned idx ref path (failed e) = failed (expert_failed idx ref.expert_id e)
  aligned idx ref path (loaded d) =
      if d.metadata.expert_id =s ref.expert_id
      then loaded (record { ref = ref; config_path = path; definition = d })
      else failed (mismatch idx ref.expert_id d.metadata.expert_id)

  unfoldable pub also :
      Loaded LoadedExpert → Loaded (List LoadedExpert) → Loaded (List LoadedExpert)
  also (failed e) rest = failed e
  also (loaded e) (failed why) = failed why
  also (loaded e) (loaded experts) = loaded (e ∷ experts)

  -- The loop over the entries.
  unfoldable pub load_experts : String → ℕ → List RegistryRef → Loaded (List LoadedExpert)
  unfolding also aligned load_expert_definition
  load_experts path idx [] = loaded []
  load_experts path idx (ref ∷ refs) =
      let rest = load_experts path (suc idx) refs in
      let at = resolve path ref.config_path in
      if ref.enabled then also (aligned idx ref at (load_expert_definition at)) rest else rest

  unfoldable pub with_experts : Registry → Loaded (List LoadedExpert) → Loaded Snapshot
  with_experts r (failed e) = failed e
  with_experts r (loaded experts) = loaded (record { registry = r; experts = experts })

  unfoldable pub snapshot_of : String → Loaded Registry → Loaded Snapshot
  unfolding with_experts load_experts
  snapshot_of path (failed e) = failed e
  snapshot_of path (loaded r) = with_experts r (load_experts path 0 r.experts)

  unfoldable pub load_snapshot : (String → String) → String → Loaded Snapshot
  unfolding snapshot_of load_registry
  load_snapshot clean raw = let path = clean raw in snapshot_of path (load_registry path)
