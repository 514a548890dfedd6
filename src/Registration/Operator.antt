-- ===== src/Registration/Operator.antt =====
-- The operator's handlers: `approve_pending_device`, `revoke_device`, `delete_device_credential`.
use elab_core.Prelude.{String, Bool, false, Option, none, some, ◌==◌, is_some, if◌then◌else◌}
use elab_core.ConfigStore.{ConfigStore, revoke_credential, delete_credential, delete_device_config}
use elab_core.Registry.{manifests, add_provider, find_provider_sid}
use elab_core.Pairing.{
  PendingProvider, remove_pending_provider, find_pending_sid_by_device, register_approved_secret,
  get_ephemeral_credential, forget_secret,
}
use elab_core.State.{
  ui_clients, session, available_providers, pending_devices, registration_revoked,
  registration_approved, approval_error, State, emit, change_registered,
}
use elab_core.Registration.Request.{Env, Paired, credential_of, approve_device, pending_sids}
use elab_core.Registration.Activate.{apply_stored, announce, shown}

-- the device's one pending session is told its secret and activated
unfoldable pub activate_pending :
    Env → String → String → String → String → PendingProvider → State → State
activate_pending env device_id hash sid secret entry s =
    let informed = emit (session sid) (registration_approved device_id secret hash) s in
    let (r, accepted) = add_provider env.schema_ok sid env.now entry.manifest informed.registry in
    if accepted
    then announce (shown env sid informed.config_store entry.manifest) (record informed {
      registry = change_registered sid entry.manifest.id (apply_stored informed.config_store) r;
      pairing = register_approved_secret sid device_id secret informed.pairing;
    })
    else informed

unfoldable pub release_pending : Env → String → String → Paired → Option String → State → State
release_pending env device_id hash c none s = s
release_pending env device_id hash c (some sid) s =
    let (pairing, entry) = remove_pending_provider sid s.pairing in
    elim entry [
      | none ↦ record s { pairing = pairing }
      | some e ↦
          activate_pending env device_id hash sid c.secret_hex e (record s { pairing = pairing })
    ]

unfoldable pub tell_pending : State → State
tell_pending s = emit ui_clients (pending_devices (pending_sids s)) s

unfoldable pub finish_approval : Env → String → String → String → Option Paired → State → State
finish_approval env operator device_id hash none s = emit (session operator) approval_error s
finish_approval env operator device_id hash (some c) s =
    tell_pending
      (release_pending env device_id hash c (find_pending_sid_by_device device_id s.pairing) s)

-- Does the credential of the device, of the kind that it has, bear the hash?
unfoldable pub can_approve : Bool → String → String → State → Bool
can_approve is_ephemeral device_id hash s = elim (credential_of is_ephemeral device_id s) [
  | none ↦ false
  | some c ↦ c.manifest_hash == hash
]

unfoldable pub handle_approve_pending_device : Env → String → String → String → State → State
handle_approve_pending_device env operator device_id hash s =
    let is_ephemeral = is_some (get_ephemeral_credential device_id s.pairing) in
    if can_approve is_ephemeral device_id hash s
    then (let done = approve_device env is_ephemeral device_id hash s in
        finish_approval env operator device_id hash (credential_of is_ephemeral device_id done)
          done)
    else emit (session operator) approval_error s

unfoldable pub tell_revoked : String → Option String → State → State
tell_revoked device_id none s = s
tell_revoked device_id (some sid) s = emit (session sid) (registration_revoked device_id) s

unfoldable pub tell_providers : State → State
tell_providers s = emit ui_clients (available_providers (manifests s.registry.providers)) s

unfoldable pub finish_revocation : String → ConfigStore → State → State
finish_revocation device_id c s =
    let forgotten = record s {
      config_store = some c;
      pairing = forget_secret device_id s.pairing;
    } in
    tell_pending (
      tell_providers
        (tell_revoked device_id (find_provider_sid forgotten.registry device_id) forgotten))

unfoldable pub handle_revoke_device : String → State → State
handle_revoke_device device_id s = elim s.config_store [
  | none ↦ s
  | some c ↦
      let (c', done) = revoke_credential device_id c in
      if done then finish_revocation device_id c' s else s
]

pub handle_delete_device_credential : String → State → State
handle_delete_device_credential device_id s = elim s.config_store [
  | none ↦ s
  | some c ↦
      let c' = (delete_device_config device_id (delete_credential device_id c).0).0 in
      tell_pending
        (record s { config_store = some c'; pairing = forget_secret device_id s.pairing })
]
