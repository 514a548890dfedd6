-- ===== src/Registration/Keeps.antt =====
-- Registrations and the invariant of the registry.
use elab_core.Prelude.{
  String, ◌≡◌, refl, subst, Bool, not, Option, none, some, List, [], ◌∷◌, ◌&&◌, arith, Option-cases,
  Bool-cases, inl, inr, truthy, opt_eq,
}
use elab_core.Prelude.Dict.{get}
use elab_core.Manifest.{compute_manifest_hash, Manifest, resolve_device_id}
use elab_core.Registry.{pop_manifest, add_provider, find_id_conflicts, is_nil}
use elab_core.Registry.Invariant.{
  IsConsistent, pop_manifest-IsConsistent, add_provider-IsConsistent,
}
use elab_core.State.{State, emit, remove_provider, change_registered}
use elab_core.State.Removal.{remove_provider-everywhere}
use elab_core.State.Shared.{change_registered-IsConsistent, stored-IsHarmless}
use elab_core.PluginUrls.{sanitize_plugin_urls}
use elab_core.Registration.Request.{Env, Paired, Verdict, parked, cleared, authenticate}
use elab_core.Registration.Activate.{
  remove_all, clear_duplicates, is_reregistration, ghost_sids, mark_sources, cache_secret,
  apply_stored, announce, shown, hand_out, activate, proceed, register_known, register_clean,
  register_sanitized, handle_register_provider,
}
use elab_core.Registration.Gate.{registry-authenticate}

remove_all-IsConsistent :
    (sids : List String) (s : State)
    → IsConsistent s.registry
    → IsConsistent (remove_all sids s).registry
unfolding remove_all
remove_all-IsConsistent [] s c = c
remove_all-IsConsistent (sid ∷ sids) s c =
    remove_all-IsConsistent sids (remove_provider sid s) (remove_provider-everywhere sid s c).0

clear_duplicates-IsConsistent :
    (sid i d : String) (ip : Option String) (s : State)
    → IsConsistent s.registry
    → IsConsistent (clear_duplicates sid i d ip s).registry
unfolding clear_duplicates
clear_duplicates-IsConsistent sid i d ip s c =
    let ghosts = ghost_sids sid i d ip s.registry.providers in
    elim (Bool-cases (is_reregistration sid i s.registry)) [
      | inl old ↦
          rw (old, clear_duplicates)
            (remove_all-IsConsistent ghosts
              (record s { registry = (pop_manifest sid i s.registry).0 })
              (pop_manifest-IsConsistent sid i c))
      | inr new ↦ rw (new, clear_duplicates) (remove_all-IsConsistent ghosts s c)
    ]

-- Messages touch no store.
told :
    (sid d hash : String) (issued : Option String) (m : Manifest) (s : State)
    → (announce m (hand_out sid d hash issued s)).registry ≡ s.registry
unfolding announce hand_out emit
told sid d hash none m s = refl
told sid d hash (some secret) m s = refl

activate-IsConsistent :
    (env : Env) (sid : String) (m : Manifest) (hash : String) (ip : Option String) (a u : Bool)
    (credential : Option Paired) (issued : Option String) (s : State)
    → IsConsistent s.registry
    → IsConsistent (activate env sid m hash ip a u credential issued s).registry
unfolding activate
activate-IsConsistent env sid m hash ip a u credential issued s c =
    let d = resolve_device_id m in
    let unique = clear_duplicates sid m.id d ip s in
    let c1 = clear_duplicates-IsConsistent sid m.id d ip s c in
    let (r, accepted) = add_provider env.schema_ok sid env.now m unique.registry in
    let c2 = add_provider-IsConsistent env.schema_ok sid env.now m c1 in
    let stored : State = record unique {
      registry = change_registered sid m.id (apply_stored unique.config_store) r;
      pairing = mark_sources u m (cache_secret a sid d credential unique.pairing);
    } in
    elim (Bool-cases (is_nil (find_id_conflicts sid m unique.registry))) [
      | inr taken ↦ unfold emit in rw (taken, activate) c1
      | inl free ↦ elim (Bool-cases accepted) [
        | inr bad ↦ unfold emit in rw (free, bad, activate) c1
        | inl good ↦
            rw (free, good, activate)
              (rw (told sid d hash issued (shown env sid unique.config_store m) stored) (
                unfold apply_stored in
                change_registered-IsConsistent _ (stored-IsHarmless unique.config_store) m.id sid
                  c2))
      ]
    ]

proceed-IsConsistent :
    (env : Env) (sid : String) (m : Manifest) (hash : String) (ip : Option String) (a u : Bool)
    (s : State) (v : Verdict)
    → IsConsistent s.registry
    → IsConsistent (proceed env sid m hash ip a u (s, v)).registry
unfolding proceed
proceed-IsConsistent env sid m hash ip a u s parked c = c
proceed-IsConsistent env sid m hash ip a u s (cleared credential issued) c =
    activate-IsConsistent env sid m hash ip a u credential issued s c

register_known-IsConsistent :
    (env : Env) (sid ip : String) (m : Manifest) (token : Option String) (s : State)
    → IsConsistent s.registry
    → IsConsistent (register_known env sid ip m token s).registry
unfolding register_known
register_known-IsConsistent env sid ip m token s c =
    let hash = compute_manifest_hash env.hashing m in
    let u = m.is_ui_instance && opt_eq (get s.clients sid) (some "ui") in
    let a = env.is_auth_required && not u in
    let (t, v) = authenticate env sid m hash (some ip) a token s in
    proceed-IsConsistent env sid m hash (some ip) a u t v
      (rw (registry-authenticate env sid m hash (some ip) a token s) c)

register_clean-IsConsistent :
    (env : Env) (sid ip : String) (m : Manifest) (s : State)
    → IsConsistent s.registry
    → IsConsistent (register_clean env sid ip m s).registry
unfolding register_clean emit
register_clean-IsConsistent env sid ip m s c =
    let bare = record m { auto_approve_token = none } in
    elim (Bool-cases (env.schema_ok m)) [
      | inr bad ↦ rw (bad, register_clean) c
      | inl ok ↦ elim (Bool-cases (truthy (resolve_device_id bare))) [
        | inr lost ↦ rw (ok, lost, register_clean) c
        | inl known ↦
            rw (ok, known, register_clean)
              (register_known-IsConsistent env sid ip bare m.auto_approve_token s c)
      ]
    ]

-- The handler of `register_provider` keeps the registry consistent, on every path on which it
-- returns.
pub handle_register_provider-IsConsistent :
    (env : Env) (sid ip : String) (m : Manifest) (s s' : State)
    → IsConsistent s.registry
    → handle_register_provider env sid ip m s ≡ some s'
    → IsConsistent s'.registry
unfolding handle_register_provider register_sanitized emit
handle_register_provider-IsConsistent env sid ip m s s' c h =
    let clean = sanitize_plugin_urls env.web ip (record m { client_ip = some ip }) in
    elim (Bool-cases (truthy m.id)) [
      | inr bad ↦ subst IsConsistent (ground (arith, bad, h)) c
      | inl ok ↦ elim (Option-cases clean) [
        | inl e ↦ absurd (ground (arith, ok, e, h))
        | inr (m', e) ↦
            subst IsConsistent (ground (arith, ok, e, h))
              (register_clean-IsConsistent env sid ip m' s c)
      ]
    ]
