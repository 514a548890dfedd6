-- ===== src/Registration/Revocation.antt =====
-- `revoke_device`, and what a revoked device can still do.
use elab_core.Prelude.{
  String, ◌≡◌, refl, ◌∙◌, ap, true, false, Option, none, some, ◌==◌, opt_eq, is_some, arith, eq_iff,
  if◌then◌else◌,
}
use elab_core.Prelude.Dict.{get, get-set}
use elab_core.Manifest.{Manifest, resolve_device_id, resolve_device_anchor}
use elab_core.ConfigStore.{ConfigStore, Credential, revoked, get_credential, revoke_credential}
use elab_core.Pairing.{forget_secret, get_secret_for_sid}
use elab_core.Pairing.Secrets.{forget_secret_lem}
use elab_core.State.{State, emit}
use elab_core.Registration.Request.{
  Env, Paired, credential_of, stored_credential, of_row, is_revoked, parked, require_pairing,
  authenticate,
}
use elab_core.Registration.Operator.{
  tell_pending, tell_revoked, tell_providers, finish_revocation, handle_revoke_device,
}

-- The messages touch no store.
finish_revocation_lem :
    (d : String) (c : ConfigStore) (o : Option String) (s : State)
    → let t = tell_pending (tell_providers (tell_revoked d o s)) in
      (t.config_store ≡ s.config_store) × (t.pairing ≡ s.pairing) × (t.registry ≡ s.registry)
unfolding tell_pending tell_providers tell_revoked emit
finish_revocation_lem d c none s = (refl, refl, refl)
finish_revocation_lem d c (some sid) s = (refl, refl, refl)

module _ (d : String) (s : State) {c : ConfigStore} {row : Credential}
    (store : s.config_store ≡ some c) (known : get_credential c d ≡ some row) where
  abbrev after_revocation : State
  after_revocation = handle_revoke_device d s

  done : (revoke_credential d c).1 ≡ true
  unfolding revoke_credential get_credential
  done = ground (arith, known)

  finished : after_revocation ≡ finish_revocation d (revoke_credential d c).0 s
  unfolding handle_revoke_device
  finished = ground (arith, store, done)

  revoked_row : get_credential (revoke_credential d c).0 d ≡ some (record row { status = revoked })
  unfolding revoke_credential get_credential
  revoked_row = ground (
    arith,
    known,
    eq_iff d d,
    get-set c.provider_credentials d (record row { status = revoked }) d,
  )

  pub pairing-after : after_revocation.pairing ≡ forget_secret d s.pairing
  unfolding finish_revocation
  pairing-after = rw finished ((finish_revocation_lem d c _ _).1)

  pub registry-after : after_revocation.registry ≡ s.registry
  unfolding finish_revocation
  registry-after = rw finished ((finish_revocation_lem d c _ _).2)

  store-after : after_revocation.config_store ≡ some (revoke_credential d c).0
  unfolding finish_revocation
  store-after = rw finished ((finish_revocation_lem d c _ _).0)

  credential-after :
      credential_of false d after_revocation
      ≡ some (record {
        secret_hex = row.secret_hex;
        manifest_hash = row.manifest_hash;
        status = revoked;
      })
  unfolding credential_of stored_credential of_row
  credential-after = ground (arith, store-after, revoked_row)

parked_if_revoked :
    (env : Env) (sid : String) (m : Manifest) (hash : String) (ip token : Option String) (s : State)
    (p : Paired)
    → credential_of false (resolve_device_id m) s ≡ some p
    → is_revoked p ≡ true
    → (require_pairing env sid m hash ip false token s).1 ≡ parked
unfolding require_pairing
parked_if_revoked env sid m hash ip token s p held gone = rw (held, gone, require_pairing) refl

stays_parked :
    (env : Env) (sid : String) (m : Manifest) (hash : String) (ip token : Option String) (s : State)
    (p : Paired)
    → (resolve_device_anchor m == "ephemeral") ≡ false
    → is_some s.config_store ≡ true
    → credential_of false (resolve_device_id m) s ≡ some p
    → is_revoked p ≡ true
    → (authenticate env sid m hash ip true token s).1 ≡ parked
unfolding authenticate
stays_parked env sid m hash ip token s p anchored kept held gone =
    rw (anchored, kept, authenticate) (parked_if_revoked env sid m hash ip token s p held gone)

-- After the operator has revoked a device that has a stored credential, every registration of the
-- device for which authentication is required and whose anchor is not of the ephemeral kind is parked,
-- whatever manifest and token it brings, and no session of the device has a secret any more; the other
-- sessions keep the secret that they had.
pub handle_revoke_device_lem :
    (d : String) (s : State) {c : ConfigStore} {row : Credential}
    → s.config_store ≡ some c
    → get_credential c d ≡ some row
    → let s' = handle_revoke_device d s in
      ((env : Env) (sid : String) (m : Manifest) (hash : String) (ip token : Option String)
        → resolve_device_id m ≡ d
        → (resolve_device_anchor m == "ephemeral") ≡ false
        → (authenticate env sid m hash ip true token s').1 ≡ parked)
      × ((sid : String)
          → get_secret_for_sid sid s'.pairing ≡ (
              if opt_eq (get s.pairing.sid_to_device sid) (some d)
              then none
              else get_secret_for_sid sid s.pairing))
unfolding is_revoked
handle_revoke_device_lem d s store known = (
  λ env sid m hash ip token same anchored.
      stays_parked env sid m hash ip token (handle_revoke_device d s) _ anchored
        (ground (arith, store-after d s store known))
        (ap (λ x. credential_of false x (handle_revoke_device d s)) same
          ∙ credential-after d s store known)
        refl,
  λ sid. rw (pairing-after d s store known) ((forget_secret_lem d s.pairing).2 sid),
)
