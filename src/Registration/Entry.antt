-- ===== src/Registration/Entry.antt =====
-- What enters the registry, and on which credential.
use elab_core.Prelude.{
  String, ◌≡◌, refl, ◌∙◌, ap, Bool, true, false, Option, none, some, List, [], ◌∷◌, ◌==◌, ◌||◌,
  is_some, arith, Bool-cases, inl, inr, ◌⊎◌,
}
use elab_core.Manifest.{Task, Manifest, resolve_device_id, resolve_device_anchor}
use elab_core.ConfigStore.{approved}
use elab_core.Registry.{pop_manifest, add_provider, find_id_conflicts, is_nil}
use elab_core.State.{State, emit, remove_provider, change_registered}
use elab_core.State.Removal.{remove_provider-keeps}
use elab_core.Pairing.{
  Pairing, get_ephemeral_credential, mark_ui_internal, register_approved_secret,
}
use elab_core.Registration.Request.{
  Env, Paired, credential_of, stored_credential, Verdict, parked, cleared, authenticate,
}
use elab_core.Registration.Activate.{
  remove_all, clear_duplicates, is_reregistration, ghost_sids, mark_tasks, mark_sources,
  cache_secret, apply_stored, announce, shown, hand_out, activate, proceed,
}
use elab_core.Registration.Gate.{registry-authenticate, authenticate-Decided, Decided}

module _ (e : Bool) (d : String) where
  credential-remove_provider :
      (sid : String) (s : State) → credential_of e d (remove_provider sid s) ≡ credential_of e d s
  unfolding credential_of stored_credential get_ephemeral_credential
  credential-remove_provider sid s = ground (arith, remove_provider-keeps sid s)

  credential-remove_all :
      (sids : List String) (s : State) → credential_of e d (remove_all sids s) ≡ credential_of e d s
  unfolding remove_all
  credential-remove_all [] s = refl
  credential-remove_all (sid ∷ sids) s =
      credential-remove_all sids (remove_provider sid s) ∙ credential-remove_provider sid s

  credential-clear_duplicates :
      (sid i d' : String) (ip : Option String) (s : State)
      → credential_of e d (clear_duplicates sid i d' ip s) ≡ credential_of e d s
  unfolding clear_duplicates
  credential-clear_duplicates sid i d' ip s =
      let ghosts = ghost_sids sid i d' ip s.registry.providers in
      elim (Bool-cases (is_reregistration sid i s.registry)) [
        | inl old ↦
            rw (old, clear_duplicates)
              (credential-remove_all ghosts
                  (record s { registry = (pop_manifest sid i s.registry).0 })
                ∙ unfold credential_of in refl)
        | inr new ↦ rw (new, clear_duplicates) (credential-remove_all ghosts s)
      ]

mark_tasks-keeps :
    (ts : List Task) (p : Pairing)
    → (mark_tasks ts p).ephemeral_credentials ≡ p.ephemeral_credentials
unfolding mark_tasks mark_ui_internal
mark_tasks-keeps [] p = refl
mark_tasks-keeps (t ∷ ts) p = mark_tasks-keeps ts (mark_ui_internal t.id p) ∙ ground arith

mark_sources-keeps :
    (u : Bool) (m : Manifest) (p : Pairing)
    → (mark_sources u m p).ephemeral_credentials ≡ p.ephemeral_credentials
unfolding mark_sources mark_ui_internal
mark_sources-keeps true m p = mark_tasks-keeps m.tasks (mark_ui_internal m.id p) ∙ ground arith
mark_sources-keeps false m p = refl

cache_secret-keeps :
    (a : Bool) (sid d : String) (o : Option Paired) (p : Pairing)
    → (cache_secret a sid d o p).ephemeral_credentials ≡ p.ephemeral_credentials
unfolding cache_secret register_approved_secret
cache_secret-keeps a sid d none p = refl
cache_secret-keeps a sid d (some c) p = ground arith

-- The credential of a device is read from two fields of the state.
pub credential_of-cong :
    (e : Bool) (d : String) (s t : State)
    → t.config_store ≡ s.config_store
    → t.pairing.ephemeral_credentials ≡ s.pairing.ephemeral_credentials
    → credential_of e d t ≡ credential_of e d s
unfolding credential_of get_ephemeral_credential
credential_of-cong e d s t p q = ground (arith, p, q)

told_stores :
    (sid d hash : String) (issued : Option String) (m : Manifest) (s : State)
    → let t = announce m (hand_out sid d hash issued s) in
      (t.config_store ≡ s.config_store) × (t.pairing ≡ s.pairing)
unfolding announce hand_out emit
told_stores sid d hash none m s = (refl, refl)
told_stores sid d hash (some secret) m s = (refl, refl)

-- The activation changes no credential.
credential-activate :
    (e : Bool) (d : String) (env : Env) (sid : String) (m : Manifest) (hash : String)
    (ip : Option String) (a u : Bool) (credential : Option Paired) (issued : Option String)
    (s : State)
    → credential_of e d (activate env sid m hash ip a u credential issued s) ≡ credential_of e d s
unfolding activate emit
credential-activate e d env sid m hash ip a u credential issued s =
    let d' = resolve_device_id m in
    let unique = clear_duplicates sid m.id d' ip s in
    let same = credential-clear_duplicates e d sid m.id d' ip s in
    let (r, accepted) = add_provider env.schema_ok sid env.now m unique.registry in
    let cached = cache_secret a sid d' credential unique.pairing in
    let stored : State = record unique {
      registry = change_registered sid m.id (apply_stored unique.config_store) r;
      pairing = mark_sources u m cached;
    } in
    let quiet = λ (t : State). credential_of-cong e d unique t in
    elim (Bool-cases (is_nil (find_id_conflicts sid m unique.registry))) [
      | inr taken ↦ rw (taken, activate) (quiet _ refl refl ∙ same)
      | inl free ↦ elim (Bool-cases accepted) [
        | inr bad ↦ rw (free, bad, activate) (quiet _ refl refl ∙ same)
        | inl good ↦
            rw (free, good, activate)
              (quiet
                  (announce (shown env sid unique.config_store m)
                    (hand_out sid d' hash issued stored))
                  (told_stores sid d' hash issued (shown env sid unique.config_store m) stored).0
                  (ap (λ (p : Pairing). p.ephemeral_credentials)
                      (told_stores sid d' hash issued (shown env sid unique.config_store m)
                        stored).1
                    ∙ mark_sources-keeps u m cached
                    ∙ cache_secret-keeps a sid d' credential unique.pairing)
                ∙ same)
      ]
    ]

-- The dispatcher holds an approved credential of the device for this hash.
abbrev pub HoldsApproved : Bool → String → String → State → Type 0
HoldsApproved e d hash s =
    (c : Paired) × (credential_of e d s ≡ some c) × (c.status ≡ approved) × (c.manifest_hash ≡ hash)

proceed_gate :
    (env : Env) (sid : String) (m : Manifest) (hash : String) (ip : Option String) (a u : Bool)
    (e : Bool) (d : String) (s t : State) (v : Verdict)
    → t.registry ≡ s.registry
    → Decided hash d e (t, v)
    → let s' = proceed env sid m hash ip a u (t, v) in
      (s'.registry ≡ s.registry) ⊎ HoldsApproved e d hash s'
unfolding proceed
proceed_gate env sid m hash ip a u e d s t parked same w = inl same
proceed_gate env sid m hash ip a u e d s t (cleared o issued) same w = elim w [
  | inl p ↦ absurd (cc p)
  | inr c ↦ inr (
    c.credential,
    credential-activate e d env sid m hash ip a u o issued t ∙ c.held,
    c.status,
    c.hash_eq,
  )
]

pub gate_at :
    (env : Env) (sid : String) (m : Manifest) (hash : String) (ip token : Option String) (s : State)
    (a u : Bool)
    → (is_some s.config_store || resolve_device_anchor m == "ephemeral") ≡ true
    → a ≡ true
    → let s' = proceed env sid m hash ip a u (authenticate env sid m hash ip a token s) in
      (s'.registry ≡ s.registry)
      ⊎ HoldsApproved (resolve_device_anchor m == "ephemeral") (resolve_device_id m) hash s'
gate_at env sid m hash ip token s a u kept required =
    let (t, v) = authenticate env sid m hash ip true token s in
    rw required (
      proceed_gate env sid m hash ip true u (resolve_device_anchor m == "ephemeral")
        (resolve_device_id m) s t v (registry-authenticate env sid m hash ip true token s)
        (authenticate-Decided env sid m hash ip token s kept))
