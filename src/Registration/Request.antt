-- ===== src/Registration/Request.antt =====
-- The authentication part of `handle_register_provider`. `Env` has what a handler takes from
-- outside: one reading of the clock, a fresh secret, `json.dumps` and SHA-256, the schema validation
-- and the web library.
use elab_core.Prelude.{
  ℕ, String, Bool, true, false, not, Option, none, some, List, map, ◌==◌, ◌&&◌, ◌||◌, is_some,
  if◌then◌else◌,
}
use elab_core.Manifest.{Hashing, Manifest, resolve_device_id, resolve_device_anchor}
use elab_core.ConfigStore.{
  ConfigStore, Credential, Status, approved, revoked, get_credential, upsert_pending_credential,
  approve_credential,
}
use elab_core.Pairing.{
  Ephemeral, add_pending_provider, get_ephemeral_credential, set_ephemeral_credential,
  approve_ephemeral_credential, consume_auto_approve_token,
}
use elab_core.State.{ui_clients, session, pending_devices, registration_pending, State, emit}
use elab_core.PluginUrls.{Web}

pub record Env : Type 0 where
  pub now : ℕ
  pub fresh_secret : String
  pub hashing : Hashing
  pub schema_ok : Manifest → Bool
  pub is_auth_required : Bool
  pub web : Web

-- the fields of a credential that the handlers read, of either kind
pub record Paired : Type 0 where
  pub secret_hex : String
  pub manifest_hash : String
  pub status : Status

unfoldable pub of_row : Option Credential → Option Paired
of_row none = none
of_row (some c) =
    some (record { secret_hex = c.secret_hex; manifest_hash = c.manifest_hash; status = c.status })

unfoldable pub of_ephemeral : Option Ephemeral → Option Paired
of_ephemeral none = none
of_ephemeral (some e) =
    some (record { secret_hex = e.secret_hex; manifest_hash = e.manifest_hash; status = e.status })

unfoldable pub stored_credential : Option ConfigStore → String → Option Paired
stored_credential none device_id = none
stored_credential (some c) device_id = of_row (get_credential c device_id)

-- the credential of a device, session-only or stored
unfoldable pub credential_of : Bool → String → State → Option Paired
credential_of is_ephemeral device_id s =
    if is_ephemeral
    then of_ephemeral (get_ephemeral_credential device_id s.pairing)
    else stored_credential s.config_store device_id

unfoldable pub with_store : (ConfigStore → ConfigStore) → State → State
with_store f s = elim s.config_store [ none ↦ s | some c ↦ record s { config_store = some (f c) } ]

-- `set_ephemeral_credential` or `upsert_pending_credential`
unfoldable pub open_credential : Env → Bool → String → String → Option String → State → State
open_credential env is_ephemeral device_id hash ip s =
    if is_ephemeral
    then record s {
      pairing = (set_ephemeral_credential device_id env.fresh_secret hash s.pairing).0;
    }
    else with_store (upsert_pending_credential device_id env.fresh_secret hash ip env.now) s

-- `approve_ephemeral_credential` or `approve_credential`
unfoldable pub approve_device : Env → Bool → String → String → State → State
approve_device env is_ephemeral device_id hash s =
    if is_ephemeral
    then record s { pairing = (approve_ephemeral_credential device_id hash s.pairing).0 }
    else with_store (λ c. (approve_credential device_id hash env.now c).0) s

-- A new credential, approved at once if a valid one-shot token came with the manifest. The result
-- is the secret to hand out.
unfoldable pub open_and_try_token :
    Env → Bool → String → String → Option String → Option String → State → State × Option String
open_and_try_token env is_ephemeral device_id hash ip token s =
    let opened = open_credential env is_ephemeral device_id hash ip s in
    let (pairing, ok) = consume_auto_approve_token token opened.pairing in
    let consumed = record opened { pairing = pairing } in
    if ok
    then (approve_device env is_ephemeral device_id hash consumed, some env.fresh_secret)
    else (consumed, none)

pub pending_sids : State → List String
pending_sids s = map (λ e. e.0) s.pairing.pending_providers

-- A registration that does not go on waits for the operator, and both sides are told.
unfoldable pub park : Env → String → String → Manifest → String → Option String → State → State
park env sid device_id m hash ip s =
    let p = record s { pairing = add_pending_provider sid device_id m hash ip env.now s.pairing } in
    let told = emit (session sid) (registration_pending device_id) p in
    emit ui_clients (pending_devices (pending_sids told)) told

-- `parked`: the handler is done. `cleared`: it goes on, with the credential and the secret that
-- it will hand out.
pub data Verdict : Type 0 where
  parked : Verdict
  cleared : Option Paired → Option String → Verdict

unfoldable pub is_approved : Option Paired → Bool
is_approved none = false
is_approved (some c) = elim c.status [ approved ↦ true | _ ↦ false ]

unfoldable pub is_revoked : Paired → Bool
is_revoked c = elim c.status [ revoked ↦ true | _ ↦ false ]

unfoldable pub conclude :
    Env
    → String
    → String
    → Manifest
    → String
    → Option String
    → Option Paired
    → Option String
    → State
    → State × Verdict
conclude env sid device_id m hash ip credential issued s =
    if is_approved credential
    then (s, cleared credential issued)
    else (park env sid device_id m hash ip s, parked)

-- the part of the handler under `if auth_required and …`
unfoldable pub require_pairing :
    Env
    → String
    → Manifest
    → String
    → Option String
    → Bool
    → Option String
    → State
    → State × Verdict
require_pairing env sid m hash ip is_ephemeral token s =
    let device_id = resolve_device_id m in
    let (tried, issued) = open_and_try_token env is_ephemeral device_id hash ip token s in
    let afresh =
      conclude env sid device_id m hash ip (credential_of is_ephemeral device_id tried) issued
        tried in
    elim (credential_of is_ephemeral device_id s) [
      | none ↦ afresh
      | some c ↦
          if is_revoked c
          then (park env sid device_id m hash ip s, parked)
          else if not (c.manifest_hash == hash)
          then afresh
          else conclude env sid device_id m hash ip (some c) none s
    ]

unfoldable pub authenticate :
    Env
    → String
    → Manifest
    → String
    → Option String
    → Bool
    → Option String
    → State
    → State × Verdict
authenticate env sid m hash ip auth_required token s =
    let is_ephemeral = resolve_device_anchor m == "ephemeral" in
    if auth_required && (is_some s.config_store || is_ephemeral)
    then require_pairing env sid m hash ip is_ephemeral token s
    else (s, cleared (credential_of is_ephemeral (resolve_device_id m) s) none)
