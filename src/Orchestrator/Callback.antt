-- ===== src/Orchestrator/Callback.antt =====
-- `cloneCallbackConfig` of internal/orchestrator/server.go normalises: a clone is cloned as it is.
use cova.Base.{
  ◌≡◌, refl, inl, inr, false, Option, none, some, Bool-cases, trim_space, trim_space_idem, is_blank,
}
use cova.Api.{CallbackConfig, CallbackSigning}
use cova.Orchestrator.Rules.{clone_callback_config, clone_signing}

clone_signing_idem :
    (g : Option CallbackSigning) → clone_signing (clone_signing g) ≡ clone_signing g
unfolding clone_signing
clone_signing_idem none = refl
clone_signing_idem (some g) = rw trim_space_idem

-- A cloned callback is cloned as it is.
pub clone_callback_config_idem :
    (c : Option CallbackConfig)
    → clone_callback_config (clone_callback_config c) ≡ clone_callback_config c
unfolding clone_callback_config
clone_callback_config_idem none = refl
clone_callback_config_idem (some c) = elim (Bool-cases (is_blank c.url)) [
  | inl e ↦ rw (e, clone_callback_config)
  | inr e ↦
      let again : is_blank (trim_space c.url) ≡ false =
        (unfold is_blank in rw trim_space_idem (unfold is_blank in e)) in
      rw (e, clone_callback_config) (rw (again, trim_space_idem, clone_signing_idem))
]
