-- ===== src/Experts/Distinct.antt =====
-- internal/registry/loader.go: what `ValidateRegistry` says of the ids.
use cova.Base.{
  ℕ, suc, String, ◌≡◌, ◌≢◌, refl, sym, ap, ◌∙◌, subst, Bool, Bool-cases, true, false, ◌||◌, not,
  List, [], ◌∷◌, ◌++◌, inl, inr, All, ◌=s◌, =s_iff, is_empty, is_blank, trim_space, if_true,
  if_false, if◌then◌else◌,
}
use cova.Experts.{RegistryRef, Registry, enabled_experts}
use cova.Experts.Check.{
  Fault, expert_id_required, expert_id_duplicated, config_path_required, fault_if, seen_id,
  check_ref, note_id, check_refs, validate_registry, no_refs, no_experts, bad_kind, bad_api_version,
}

-- Another entry has another id.
unfoldable pub Differs : RegistryRef → RegistryRef → Type 0
Differs r q = trim_space r.expert_id ≢ trim_space q.expert_id

unfoldable pub Distinct : List RegistryRef → Type 0
Distinct [] = Unit
Distinct (r ∷ refs) = All (Differs r) refs × Distinct refs

pub append-nil : (xs ys : List Fault) → xs ++ ys ≡ [] → (xs ≡ []) × (ys ≡ [])
append-nil [] ys e = (refl, e)
append-nil (x ∷ xs) ys e = cc e

-- New to the ids seen, and not blank.
unfoldable pub New : List String → RegistryRef → Type 0
New seen r = (seen_id (trim_space r.expert_id) seen ≡ false) × (is_blank r.expert_id ≡ false)

unflagged :
    (blank seen : Bool) (f g : Fault) (more : List Fault)
    → (if blank then f ∷ [] else fault_if seen g) ++ more ≡ []
    → (seen ≡ false) × (blank ≡ false)
unfolding fault_if
unflagged true seen f g more e = cc e
unflagged false true f g more e = cc e
unflagged false false f g more e = (refl, refl)

neither : (a b : Bool) → a || b ≡ false → (a ≡ false) × (b ≡ false)
neither true b e = cc e
neither false b e = (refl, e)

filled_of : (seen : List String) (r : RegistryRef) → New seen r → is_blank r.expert_id ≡ false
unfolding New
filled_of seen r n = n.1

check_ref-New :
    (idx : ℕ) (seen : List String) (r : RegistryRef) → check_ref idx seen r ≡ [] → New seen r
unfolding check_ref New is_blank
check_ref-New idx seen r e =
    unflagged (is_empty (trim_space r.expert_id)) (seen_id (trim_space r.expert_id) seen)
      (expert_id_required idx) (expert_id_duplicated idx (trim_space r.expert_id))
      (fault_if (is_blank r.config_path) (config_path_required idx)) e

later-New :
    (r : RegistryRef) (seen : List String) (refs : List RegistryRef)
    → is_blank r.expert_id ≡ false
    → All (New (note_id r seen)) refs
    → All (Differs r) refs × All (New seen) refs
unfolding note_id New Differs seen_id
later-New r seen [] filled h = (tt, tt)
later-New r seen (q ∷ refs) filled h =
    let more = later-New r seen refs filled h.1 in
    let known : seen_id (trim_space q.expert_id) (trim_space r.expert_id ∷ seen) ≡ false =
      sym (
        ap (seen_id (trim_space q.expert_id))
          (if_false (is_blank r.expert_id) seen (trim_space r.expert_id ∷ seen) filled))
      ∙ h.0.0 in
    let parts =
      neither (trim_space r.expert_id =s trim_space q.expert_id)
        (seen_id (trim_space q.expert_id) seen) known in
    (
      (
        (λ same. cc ((=s_iff (trim_space r.expert_id) (trim_space q.expert_id)).1 same, parts.0)),
        more.0,
      ),
      ((parts.1, h.0.1), more.1),
    )

check_refs-Distinct :
    (idx : ℕ) (seen : List String) (refs : List RegistryRef)
    → check_refs idx seen refs ≡ []
    → All (New seen) refs × Distinct refs
unfolding check_refs Distinct
check_refs-Distinct idx seen [] e = (tt, tt)
check_refs-Distinct idx seen (r ∷ refs) e =
    let parts = append-nil (check_ref idx seen r) (check_refs (suc idx) (note_id r seen) refs) e in
    let new = check_ref-New idx seen r parts.0 in
    let ih = check_refs-Distinct (suc idx) (note_id r seen) refs parts.1 in
    let others = later-New r seen refs (filled_of seen r new) ih.0 in
    ((new, others.1), (others.0, ih.1))

All-enabled :
    (P : RegistryRef → Type 0) (refs : List RegistryRef) → All P refs → All P (enabled_experts refs)
unfolding enabled_experts
All-enabled P [] h = h
All-enabled P (r ∷ refs) h = elim (Bool-cases r.enabled) [
  | inl t ↦
      subst (All P) (sym (if_true r.enabled (r ∷ enabled_experts refs) (enabled_experts refs) t))
        (h.0, All-enabled P refs h.1)
  | inr f ↦
      subst (All P) (sym (if_false r.enabled (r ∷ enabled_experts refs) (enabled_experts refs) f))
        (All-enabled P refs h.1)
]

enabled-Distinct : (refs : List RegistryRef) → Distinct refs → Distinct (enabled_experts refs)
unfolding enabled_experts Distinct
enabled-Distinct [] h = h
enabled-Distinct (r ∷ refs) h = elim (Bool-cases r.enabled) [
  | inl t ↦
      subst Distinct (sym (if_true r.enabled (r ∷ enabled_experts refs) (enabled_experts refs) t))
        (All-enabled (Differs r) refs h.0, enabled-Distinct refs h.1)
  | inr f ↦
      subst Distinct (sym (if_false r.enabled (r ∷ enabled_experts refs) (enabled_experts refs) f))
        (enabled-Distinct refs h.1)
]

pub validate_registry-Distinct :
    (r : Registry) → validate_registry r ≡ [] → Distinct (enabled_experts r.experts)
unfolding validate_registry
validate_registry-Distinct r e =
    let after_version =
      append-nil (fault_if (not (trim_space r.api_version =s "cova/v1")) bad_api_version)
        (fault_if (not (trim_space r.kind =s "ExpertRegistry")) bad_kind
          ++ (fault_if (no_refs r.experts) no_experts ++ check_refs 0 [] r.experts))
        e in
    let after_kind =
      append-nil (fault_if (not (trim_space r.kind =s "ExpertRegistry")) bad_kind)
        (fault_if (no_refs r.experts) no_experts ++ check_refs 0 [] r.experts) after_version.1 in
    let after_count =
      append-nil (fault_if (no_refs r.experts) no_experts) (check_refs 0 [] r.experts)
        after_kind.1 in
    enabled-Distinct r.experts (check_refs-Distinct 0 [] r.experts after_count.1).1
