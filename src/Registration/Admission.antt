-- ===== src/Registration/Admission.antt =====
-- `handle_register_provider` as a gate: what it takes for a manifest to reach the registry.
use elab_core.Prelude.{String, ◌≡◌, none, some, ◌==◌, ◌⊎◌}
use elab_core.Manifest.{compute_manifest_hash, Manifest, resolve_device_id, resolve_device_anchor}
use elab_core.State.{State}
use elab_core.PluginUrls.{sanitize_plugin_urls}
use elab_core.Registration.Request.{Env}
use elab_core.Registration.Entry.{HoldsApproved}

-- The manifest as the handler hashes it: its plugin URLs sanitized, the token taken out.
pub record IsReceived (env : Env) (ip : String) (m bare : Manifest) : Type 0 where
  pub clean : Manifest
  pub sanitized : sanitize_plugin_urls env.web ip (record m { client_ip = some ip }) ≡ some clean
  pub without_token : bare ≡ record clean { auto_approve_token = none }

abbrev Result : Env → String → String → Manifest → State → State → Type 0
Result env sid ip m s s' =
    (s'.registry ≡ s.registry)
    ⊎ ((bare : Manifest) × IsReceived env ip m bare
        × HoldsApproved (resolve_device_anchor m == "ephemeral") (resolve_device_id m)
            (compute_manifest_hash env.hashing bare) s')
