-- ===== src/Registration/Approval.antt =====
-- `approve_pending_device`: what an operator's approval achieves.
use elab_core.Prelude.{
  String, ◌≡◌, refl, ◌∙◌, Bool, true, false, Option, none, some, ◌==◌, ◌||◌, is_some, arith, eq_iff,
  Option-cases, inl, inr,
}
use elab_core.Manifest.{Manifest, resolve_device_id, resolve_device_anchor}
use elab_core.ConfigStore.{approved}
use elab_core.Pairing.{
  PendingProvider, get_ephemeral_credential, remove_pending_provider, register_approved_secret,
  find_pending_sid_by_device,
}
use elab_core.State.{State, emit}
use elab_core.Registration.Request.{
  Env, Paired, credential_of, approve_device, conclude, require_pairing, authenticate, cleared,
  is_approved, is_revoked, stored_credential,
}
use elab_core.Registration.Activate.{announce}
use elab_core.Registration.Operator.{
  activate_pending, release_pending, tell_pending, finish_approval, can_approve,
  handle_approve_pending_device,
}
use elab_core.Registration.Entry.{HoldsApproved, credential_of-cong}
use elab_core.Registration.Attempt.{approve_lem}

-- Activating a pending session changes neither the table nor a session-only credential.
activate_pending_lem :
    (env : Env) (d hash sid secret : String) (x : PendingProvider) (s : State)
    → let t = activate_pending env d hash sid secret x s in
      (t.config_store ≡ s.config_store)
      × (t.pairing.ephemeral_credentials ≡ s.pairing.ephemeral_credentials)
unfolding activate_pending emit announce register_approved_secret
activate_pending_lem env d hash sid secret x s = (ground arith, ground arith)

release_pending_lem :
    (env : Env) (d hash : String) (c : Paired) (o : Option String) (s : State)
    → let t = release_pending env d hash c o s in
      (t.config_store ≡ s.config_store)
      × (t.pairing.ephemeral_credentials ≡ s.pairing.ephemeral_credentials)
unfolding release_pending remove_pending_provider
release_pending_lem env d hash c none s = (refl, refl)
release_pending_lem env d hash c (some sid) s =
    elim (Option-cases (remove_pending_provider sid s.pairing).1) [
      | inl e ↦ rw (e, release_pending) (refl, refl)
      | inr (x, e) ↦ rw (e, release_pending) (activate_pending_lem env d hash sid c.secret_hex x _)
    ]

finish_approval_lem :
    (env : Env) (op d hash : String) (o : Option Paired) (e : Bool) (s : State)
    → credential_of e d (finish_approval env op d hash o s) ≡ credential_of e d s
unfolding finish_approval tell_pending emit
finish_approval_lem env op d hash none e s = credential_of-cong e d s _ refl refl
finish_approval_lem env op d hash (some c) e s =
    let o = find_pending_sid_by_device d s.pairing in
    credential_of-cong e d s _ (release_pending_lem env d hash c o s).0
      (release_pending_lem env d hash c o s).1

can_approve_lem :
    (e : Bool) (d hash : String) (s : State)
    → can_approve e d hash s ≡ true
    → (c : Paired) × (credential_of e d s ≡ some c) × (c.manifest_hash ≡ hash)
unfolding can_approve
can_approve_lem e d hash s h = elim (Option-cases (credential_of e d s)) [
  | inl n ↦ absurd (ground (arith, n, h))
  | inr (c, p) ↦ (c, p, ground (arith, p, h, eq_iff c.manifest_hash hash))
]

held_after :
    (env : Env) (op d hash : String) (s : State)
    → let e = is_some (get_ephemeral_credential d s.pairing) in
      can_approve e d hash s ≡ true
      → HoldsApproved e d hash (handle_approve_pending_device env op d hash s)
unfolding handle_approve_pending_device
held_after env op d hash s h =
    let e = is_some (get_ephemeral_credential d s.pairing) in
    let done = approve_device env e d hash s in
    let (c, p, q) = can_approve_lem e d hash s h in
    (
      record c { status = approved },
      rw (h, handle_approve_pending_device)
          (finish_approval_lem env op d hash (credential_of e d done) e done
            ∙ approve_lem env d hash none e s c p q),
      refl,
      q,
    )

-- A registration with an approved credential goes on.
enters :
    (env : Env) (sid : String) (m : Manifest) (hash : String) (ip token : Option String) (s : State)
    (e : Bool) (c : Paired)
    → credential_of e (resolve_device_id m) s ≡ some c
    → c.status ≡ approved
    → c.manifest_hash ≡ hash
    → require_pairing env sid m hash ip e token s ≡ (s, cleared (some c) none)
unfolding require_pairing conclude is_approved is_revoked
enters env sid m hash ip token s e c held ok same =
    let revoked_no : is_revoked c ≡ false = unfold is_revoked in ground (arith, ok) in
    let hash_eq : (c.manifest_hash == hash) ≡ true =
      ground (arith, same, eq_iff c.manifest_hash hash) in
    let good : is_approved (some c) ≡ true = unfold is_approved in ground (arith, ok) in
    rw (held, revoked_no, hash_eq, good, require_pairing) refl

let_in :
    (env : Env) (sid : String) (m : Manifest) (hash : String) (ip token : Option String) (s : State)
    (e : Bool)
    → (resolve_device_anchor m == "ephemeral") ≡ e
    → (is_some s.config_store || e) ≡ true
    → HoldsApproved e (resolve_device_id m) hash s
    → (c : Paired) × (authenticate env sid m hash ip true token s ≡ (s, cleared (some c) none))
      × (c.manifest_hash ≡ hash)
unfolding authenticate
let_in env sid m hash ip token s e kind kept (c, held, ok, same) =
    (c, rw (kind, kept, authenticate) (enters env sid m hash ip token s e c held ok same), same)

kept_store :
    (e : Bool) (d : String) (s : State) (c : Paired)
    → credential_of e d s ≡ some c
    → (is_some s.config_store || e) ≡ true
unfolding credential_of
kept_store true d s c h = ground arith
kept_store false d s c h = elim (Option-cases s.config_store) [
  | inl n ↦ absurd (unfold stored_credential in ground (arith, n, h))
  | inr (x, n) ↦ ground (arith, n)
]

-- After the operator has approved a device for a manifest hash, a registration of that device with
-- a manifest of that hash goes on at once, without a new secret and without a change of the state,
-- if the device's anchor is of the kind that its credential has.
pub approved_device_enters :
    (env : Env) (op sid : String) (m : Manifest) (hash : String) (ip token : Option String)
    (s : State)
    → let d = resolve_device_id m in
      let e = is_some (get_ephemeral_credential d s.pairing) in
      let s' = handle_approve_pending_device env op d hash s in
      (resolve_device_anchor m == "ephemeral") ≡ e
      → can_approve e d hash s ≡ true
      → (c : Paired) × (authenticate env sid m hash ip true token s' ≡ (s', cleared (some c) none))
        × (c.manifest_hash ≡ hash)
approved_device_enters env op sid m hash ip token s kind h =
    let d = resolve_device_id m in
    let e = is_some (get_ephemeral_credential d s.pairing) in
    let s' = handle_approve_pending_device env op d hash s in
    let (c, held, ok, same) = held_after env op d hash s h in
    let_in env sid m hash ip token s' e kind (kept_store e d s' c held) (c, held, ok, same)
