-- ===== src/Experts/Aligned.antt =====
-- internal/registry/loader.go: what `LoadSnapshot` promises of the experts.
use cova.Base.{
  ℕ, suc, String, ◌≡◌, refl, sym, ap, ◌∙◌, subst, Bool-cases, Option, none, some, List, [], ◌∷◌,
  inl, inr, All, ◌=s◌, =s_iff, if_true, if_false,
}
use cova.Experts.{RegistryRef, Registry, ExpertDefinition, LoadedExpert, Snapshot, enabled_experts}
use cova.Experts.Yaml.{Read, fails, gives}
use cova.Experts.Check.{Fault, validate_registry, validate_expert_definition}
use cova.Experts.Parse.{parse_registry}
use cova.Experts.Define.{parse_expert_definition}
use cova.Experts.Load.{
  Loaded, failed, loaded, checked, checked_registry, registry_of, load_registry, definition_of,
  load_expert_definition, aligned, also, load_experts, with_experts, snapshot_of, load_snapshot,
}
use cova.Experts.Distinct.{Distinct, validate_registry-Distinct}

unfoldable pub refs_of : List LoadedExpert → List RegistryRef
refs_of [] = []
refs_of (e ∷ experts) = e.ref ∷ refs_of experts

-- The definition is valid and names the entry's expert.
unfoldable pub Sound : LoadedExpert → Type 0
Sound e =
    (e.definition.metadata.expert_id ≡ e.ref.expert_id)
    × (validate_expert_definition e.definition ≡ [])

checked-valid :
    {A : Type 0} (a b : A) (faults : List Fault)
    → checked a faults ≡ loaded b
    → (a ≡ b) × (faults ≡ [])
unfolding checked
checked-valid a b [] e = (cc e, refl)
checked-valid a b (f ∷ faults) e = cc e

read-valid :
    (o : Read Registry) (r : Registry) → checked_registry o ≡ loaded r → validate_registry r ≡ []
unfolding checked_registry
read-valid (fails line why) r e = cc e
read-valid (gives q) r e =
    let c = checked-valid q r (validate_registry q) e in ap validate_registry (sym c.0) ∙ c.1

-- Loaded experts are the enabled entries, each sound.
unfoldable pub Follows : List RegistryRef → List LoadedExpert → Type 0
Follows refs experts = (refs_of experts ≡ enabled_experts refs) × All Sound experts

also-parts :
    (read_file : String → Option String) (resolve : String → String → String)
    (x : Loaded LoadedExpert) (rest : Loaded (List LoadedExpert)) (experts : List LoadedExpert)
    → also read_file resolve x rest ≡ loaded experts
    → (e : LoadedExpert) × (more : List LoadedExpert) × (x ≡ loaded e)
      × (rest ≡ loaded more)
      × (e ∷ more ≡ experts)
unfolding also
also-parts read_file resolve (failed why) rest experts h = cc h
also-parts read_file resolve (loaded e) (failed why) experts h = cc h
also-parts read_file resolve (loaded e) (loaded more) experts h = (e, more, refl, refl, cc h)

module _ (read_file : String → Option String) (resolve : String → String → String) where
  registry-valid :
      (path : String) (o : Option String) (r : Registry)
      → registry_of read_file resolve path o ≡ loaded r
      → validate_registry r ≡ []
  unfolding registry_of
  registry-valid path none r e = cc e
  registry-valid path (some raw) r e = read-valid (parse_registry raw) r e

  definition-valid :
      (path : String) (o : Option String) (d : ExpertDefinition)
      → definition_of read_file resolve path o ≡ loaded d
      → validate_expert_definition d ≡ []
  unfolding definition_of
  definition-valid path none d e = cc e
  definition-valid path (some raw) d e =
      let c = checked-valid (parse_expert_definition raw) d _ e in
      ap validate_expert_definition (sym c.0) ∙ c.1

  aligned-Sound :
      (idx : ℕ) (ref : RegistryRef) (at : String) (l : Loaded ExpertDefinition) (x : LoadedExpert)
      → ((d : ExpertDefinition) → l ≡ loaded d → validate_expert_definition d ≡ [])
      → aligned read_file resolve idx ref at l ≡ loaded x
      → (x.ref ≡ ref) × Sound x
  unfolding aligned Sound
  aligned-Sound idx ref at (failed why) x valid e = cc e
  aligned-Sound idx ref at (loaded d) x valid e =
      elim (Bool-cases (d.metadata.expert_id =s ref.expert_id)) [
        | inl t ↦
            let same : record { ref = ref; config_path = at; definition = d } ≡ x =
              cc (sym (if_true (d.metadata.expert_id =s ref.expert_id) _ _ t) ∙ e) in
            subst (λ (z : LoadedExpert). (z.ref ≡ ref) × Sound z) same
              (refl, ((=s_iff d.metadata.expert_id ref.expert_id).0 t, valid d refl))
        | inr f ↦ cc (sym (if_false (d.metadata.expert_id =s ref.expert_id) _ _ f) ∙ e)
      ]

  load_experts-Follows :
      (path : String) (idx : ℕ) (refs : List RegistryRef) (experts : List LoadedExpert)
      → load_experts read_file resolve path idx refs ≡ loaded experts
      → Follows refs experts
  unfolding load_experts Follows refs_of enabled_experts load_expert_definition
  load_experts-Follows path idx [] experts e =
      let none_left : [] ≡ experts = cc e in
      subst (λ (z : List LoadedExpert). (refs_of z ≡ []) × All Sound z) none_left (refl, tt)
  load_experts-Follows path idx (ref ∷ refs) experts e =
      let at = resolve path ref.config_path in
      let rest = load_experts read_file resolve path (suc idx) refs in
      let one =
        aligned read_file resolve idx ref at (load_expert_definition read_file resolve at) in
      elim (Bool-cases ref.enabled) [
        | inl t ↦
            let (x, more, read, others, joined) =
              also-parts read_file resolve one rest experts
                (sym (if_true ref.enabled (also read_file resolve one rest) rest t) ∙ e) in
            let ih = load_experts-Follows path (suc idx) refs more others in
            let here =
              aligned-Sound idx ref at (load_expert_definition read_file resolve at) x
                (λ d. definition-valid at (read_file at) d) read in
            subst (λ (z : List LoadedExpert). Follows (ref ∷ refs) z) joined
              (
                ap (λ r. r ∷ refs_of more) here.0
                    ∙ ap (λ rs. ref ∷ rs) ih.0
                    ∙ sym
                        (if_true ref.enabled (ref ∷ enabled_experts refs) (enabled_experts refs) t),
                (here.1, ih.1),
              )
        | inr f ↦
            let ih =
              load_experts-Follows path (suc idx) refs experts
                (sym (if_false ref.enabled (also read_file resolve one rest) rest f) ∙ e) in
            (
              ih.0
                  ∙ sym
                      (if_false ref.enabled (ref ∷ enabled_experts refs) (enabled_experts refs) f),
              ih.1,
            )
      ]

  joined :
      (path : String) (r : Registry) (l : Loaded (List LoadedExpert)) (snap : Snapshot)
      → validate_registry r ≡ []
      → load_experts read_file resolve path 0 r.experts ≡ l
      → with_experts read_file resolve r l ≡ loaded snap
      → Follows snap.registry.experts snap.experts × (validate_registry snap.registry ≡ [])
  unfolding with_experts
  joined path r (failed why) snap valid loads e = cc e
  joined path r (loaded experts) snap valid loads e =
      let same : record { registry = r; experts = experts } ≡ snap = cc e in
      subst
        (λ (z : Snapshot).
          Follows z.registry.experts z.experts × (validate_registry z.registry ≡ []))
        same (load_experts-Follows path 0 r.experts experts loads, valid)

  snapshot-parts :
      (path : String) (l : Loaded Registry) (snap : Snapshot)
      → ((r : Registry) → l ≡ loaded r → validate_registry r ≡ [])
      → snapshot_of read_file resolve path l ≡ loaded snap
      → Follows snap.registry.experts snap.experts × (validate_registry snap.registry ≡ [])
  unfolding snapshot_of
  snapshot-parts path (failed why) snap valid e = cc e
  snapshot-parts path (loaded r) snap valid e =
      joined path r (load_experts read_file resolve path 0 r.experts) snap (valid r refl) refl e

  -- A snapshot that loads holds the enabled entries of a valid registry in their order, no two with one
  -- id, each with a valid definition that names the entry's expert.
  pub load_snapshot-Follows :
      (clean : String → String) (path : String) (snap : Snapshot)
      → load_snapshot read_file resolve clean path ≡ loaded snap
      → (refs_of snap.experts ≡ enabled_experts snap.registry.experts)
        × All Sound snap.experts
        × (validate_registry snap.registry ≡ [])
        × Distinct (refs_of snap.experts)
  unfolding load_snapshot load_registry Follows
  load_snapshot-Follows clean path snap e =
      let (follows, valid) =
        snapshot-parts (clean path) (load_registry read_file resolve (clean path)) snap
          (λ r. registry-valid (clean path) (read_file (clean path)) r) e in
      (
        follows.0,
        follows.1,
        valid,
        subst Distinct (sym follows.0) (validate_registry-Distinct snap.registry valid),
      )
