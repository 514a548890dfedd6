-- ===== src/Dispatch/Control.antt =====
-- Whom a control command reaches, and who may deregister a provider.
use elab_core.Prelude.{
  String, ◌≡◌, ◌≢◌, refl, ◌∙◌, subst, Bool, true, false, Option, none, some, List, [], ◌∷◌, ◌++◌,
  map, ◌&&◌, ◌||◌, truthy, any, opt_eq, opt_eq_iff, if◌then◌else◌, arith, eq_iff, Option-cases,
  Bool-cases, inl, inr, ◌⊎◌, append_assoc, append-nil, sym,
}
use elab_core.Prelude.TextSet.{TextSet, has, has-add}
use elab_core.Manifest.{Manifest, has_provider, has_task}
use elab_core.Registry.{manifests, find_provider_sid, registered, pop_manifest}
use elab_core.Registry.Invariant.{IsConsistent, pop_manifest-IsConsistent}
use elab_core.Registry.Owners.{find_provider_sid_sound}
use elab_core.State.{
  State, Command, Message, session, execute_command, emit, emit_disconnected, forget_manifests,
  remove_manifest_from_sid, write_control,
}
use elab_core.Dispatch.{
  strip_prov_prefix, record_call, supports_action, add_target, target_sids, emit_to_all,
  emit_direct, routing_of, direct_target, route_command, handle_control_command,
  handle_deregister_provider, tell_list,
}

has-empty : (k : String) → has [] k ≡ false
unfolding has
has-empty k = refl

-- Is the manifest of that session, and does it declare the action?
abbrev pub takes : Option String → String → Manifest → Bool
takes a k m = supports_action a m && opt_eq m.sid (some k)

has-add_target :
    (o : Option String) (rest : TextSet) (k : String)
    → has (add_target o rest) k ≡ ((truthy k && opt_eq o (some k)) || has rest k)
unfolding add_target
has-add_target none rest k = ground arith
has-add_target (some sid) rest k = ground (arith, has-add rest sid k, eq_iff sid k)

has-target_sids :
    (a : Option String) (ms : List Manifest) (k : String)
    → has (target_sids a ms) k ≡ (truthy k && any (takes a k) ms)
unfolding target_sids
has-target_sids a [] k = ground (arith, has-empty k)
has-target_sids a (m ∷ ms) k =
    ground (arith, has-target_sids a ms k, has-add_target m.sid (target_sids a ms) k)

abbrev pub addressed : String → Command → List String → List Message
addressed provider_id c =
    map (λ sid. record { room = session sid; event = execute_command provider_id c })

sent-emit_to_all :
    (sids : List String) (provider_id : String) (c : Command) (s : State)
    → (emit_to_all sids provider_id c s).sent ≡ s.sent ++ addressed provider_id c sids
unfolding emit_to_all emit
sent-emit_to_all [] p c s = sym (append-nil s.sent)
sent-emit_to_all (sid ∷ sids) p c s =
    let e : Message = record { room = session sid; event = execute_command p c } in
    sent-emit_to_all sids p c (record s { sent = s.sent ++ (e ∷ []) })
    ∙ append_assoc s.sent (e ∷ []) (addressed p c sids)

noted : String → Command → State → State
noted p c s = if s.recording then record_call (write_control p c) s else s

noted_lem :
    (p : String) (c : Command) (s : State)
    → ((noted p c s).sent ≡ s.sent) × ((noted p c s).registry ≡ s.registry)
unfolding noted record_call
noted_lem p c s = (ground arith, ground arith)

-- A broadcast command is sent to a list of sessions that has exactly the sessions of the registered
-- providers that declare the action.
pub broadcast_lem :
    (p : String) (c : Command) (s : State)
    → truthy p ≡ true
    → routing_of c ≡ "broadcast"
    → (sids : List String) × ((handle_control_command p c s).sent ≡ s.sent ++ addressed p c sids)
      × ((k : String)
          → has sids k ≡ (truthy k && any (takes c.action k) (manifests s.registry.providers)))
unfolding handle_control_command route_command noted
broadcast_lem p c s t b =
    let n = noted p c s in
    (
      target_sids c.action (manifests s.registry.providers),
      rw (t, b, handle_control_command)
          (sent-emit_to_all (target_sids c.action (manifests n.registry.providers)) p c n
            ∙ rw ((noted_lem p c s).0, (noted_lem p c s).1) refl),
      has-target_sids c.action (manifests s.registry.providers),
    )

direct_shape :
    (p : String) (c : Command) (s : State)
    → truthy p ≡ true
    → routing_of c ≡ "direct"
    → handle_control_command p c s ≡ emit_direct (direct_target s p) p c (noted p c s)
unfolding handle_control_command route_command noted record_call direct_target
direct_shape p c s t b = rw (t, b, handle_control_command, route_command) (ground arith)

-- A direct command is sent to nobody, or to one session alone, which holds a provider or a task
-- with the id that the command names, with or without its prefix.
pub direct_lem :
    (p : String) (c : Command) (s : State)
    → IsConsistent s.registry
    → truthy p ≡ true
    → routing_of c ≡ "direct"
    → let s' = handle_control_command p c s in
      let holds = λ (k sid : String).
        has_provider k (registered s.registry sid) || has_task k (registered s.registry sid) in
      (s'.sent ≡ s.sent)
      ⊎ ((sid : String) × (s'.sent ≡ s.sent ++ addressed p c (sid ∷ []))
          × ((holds (strip_prov_prefix p) sid || holds p sid) ≡ true))
unfolding direct_target emit_direct emit
direct_lem p c s ok t b =
    let id = strip_prov_prefix p in
    let shape = direct_shape p c s t b in
    let quiet = (noted_lem p c s).0 in
    elim (Option-cases (find_provider_sid s.registry id)) [
      | inr (sid, e) ↦ inr (
        sid,
        ground (arith, shape, e, quiet),
        ground (arith, find_provider_sid_sound sid id ok e),
      )
      | inl e ↦ elim (Option-cases (find_provider_sid s.registry p)) [
        | inr (sid, f) ↦ inr (
          sid,
          ground (arith, shape, e, f, quiet),
          ground (arith, find_provider_sid_sound sid p ok f),
        )
        | inl f ↦ inl (ground (arith, shape, e, f, quiet))
      ]
    ]

registry-tell :
    (ms : List Manifest) (s : State) → (tell_list (emit_disconnected ms s)).registry ≡ s.registry
unfolding tell_list emit_disconnected emit
registry-tell [] s = refl
registry-tell (m ∷ ms) s = registry-tell ms (emit _ _ s)

-- A request to deregister a provider that another session owns, or nobody, changes nothing; in any
-- case the registry stays consistent.
pub handle_deregister_provider_lem :
    (sender p : String) (s : State)
    → IsConsistent s.registry
    → let s' = handle_deregister_provider sender p s in
      (find_provider_sid s.registry (strip_prov_prefix p) ≢ some sender → s' ≡ s)
      × IsConsistent s'.registry
unfolding handle_deregister_provider remove_manifest_from_sid forget_manifests
handle_deregister_provider_lem sender p s ok =
    let id = strip_prov_prefix p in
    elim (Bool-cases (truthy id)) [
      | inr bad ↦ rw (bad, handle_deregister_provider) (λ h. refl, ok)
      | inl real ↦ elim (Bool-cases (opt_eq (find_provider_sid s.registry id) (some sender))) [
        | inr foreign ↦ rw (real, foreign, handle_deregister_provider) (λ h. refl, ok)
        | inl own ↦
            rw (real, own, handle_deregister_provider)
              (
                λ h.
                    absurd (h ((opt_eq_iff (find_provider_sid s.registry id) (some sender)).0 own)),
                subst IsConsistent
                    (sym (
                      registry-tell (pop_manifest sender id s.registry).1 (
                        forget_manifests (pop_manifest sender id s.registry).1
                          (pop_manifest sender id s.registry).0 s)))
                    (pop_manifest-IsConsistent sender id ok),
              )
      ]
    ]
