-- ===== src/Registration/Farewell.antt =====
-- `disconnect`: what is left of a session that has ended.
use elab_core.Prelude.{
  String, ◌≡◌, ◌≢◌, refl, sym, ◌∙◌, subst, Bool, true, false, none, some, List, [], ◌∷◌, ◌&&◌, ◌||◌,
  truthy, is_some, arith, eq_iff, Option-cases, Bool-cases, inl, inr,
}
use elab_core.Prelude.Dict.{get, get-pop}
use elab_core.Prelude.TextSet.{has}
use elab_core.Manifest.{Task, Manifest, names, has_provider, has_task}
use elab_core.Offsets.Clock.{get-drop_time_offsets_for}
use elab_core.Registry.{Registry, registered, find_provider_sid, has_sid}
use elab_core.Registry.Invariant.{IsConsistent}
use elab_core.Registry.Owners.{find_provider_sid_sound}
use elab_core.Pairing.{
  Pairing, drop_session_auth, forget_ephemeral, get_secret_for_sid, remove_pending_provider,
}
use elab_core.State.{State, emit, remove_provider}
use elab_core.State.Removal.{remove_provider-everywhere}
use elab_core.Registration.Operator.{tell_pending, tell_providers}
use elab_core.Registration.Disconnect.{
  stale_tasks, stale_source_ids, tell_offline, disconnect_provider, disconnect_pending,
  disconnect_client, handle_disconnect,
}

-- The registry is consistent, and nothing in it leads to the session.
record IsLeft (sid : String) (r : Registry) : Type 0 where
  consistent : IsConsistent r
  unrouted : (k : String) → find_provider_sid r k ≢ some sid

has-stale_tasks :
    (ts : List Task) (rest : List String) (k : String)
    → has (stale_tasks ts rest) k ≡ (names k ts || has rest k)
unfolding stale_tasks has
has-stale_tasks [] rest k = refl
has-stale_tasks (t ∷ ts) rest k = ground (arith, has-stale_tasks ts rest k)

has-stale_source_ids :
    (ms : List Manifest) (k : String)
    → has (stale_source_ids ms) k ≡ (has_provider k ms || has_task k ms)
unfolding stale_source_ids has
has-stale_source_ids [] k = refl
has-stale_source_ids (m ∷ ms) k =
    ground (arith, has-stale_source_ids ms k, has-stale_tasks m.tasks (stale_source_ids ms) k)

offsets-tell_offline :
    (ms : List Manifest) (s : State) → (tell_offline ms s).time_offsets ≡ s.time_offsets
unfolding tell_offline emit
offsets-tell_offline [] s = refl
offsets-tell_offline (m ∷ ms) s =
    elim (Bool-cases (truthy m.id && is_some (find_provider_sid s.registry m.id))) [
      | inl owned ↦ rw (owned, tell_offline) (offsets-tell_offline ms s)
      | inr lost ↦ rw (lost, tell_offline) (offsets-tell_offline ms _)
    ]

-- the ids of the session's providers and tasks
abbrev pub held : String → String → State → Bool
held sid k s = has_provider k (registered s.registry sid) || has_task k (registered s.registry sid)

held_needs_session :
    (sid k : String) (s : State) → held sid k s ≡ true → has_sid s.registry sid ≡ true
unfolding has_sid
held_needs_session sid k s h = elim (Option-cases (get s.registry.providers sid)) [
  | inl e ↦ ground (arith, e, h)
  | inr (l, e) ↦ ground (arith, e)
]

offsets-disconnect_provider :
    (sid k : String) (s : State)
    → held sid k s ≡ true
    → get (disconnect_provider sid s).time_offsets k ≡ none
unfolding disconnect_provider tell_providers emit
offsets-disconnect_provider sid k s h =
    let gone = registered s.registry sid in
    rw (held_needs_session sid k s h, disconnect_provider)
      (rw (offsets-tell_offline gone _) (
        ground (
          arith,
          h,
          get-drop_time_offsets_for (stale_source_ids gone) (remove_provider sid s).time_offsets k,
          has-stale_source_ids gone k,
        )))

pairing-tell_offline : (ms : List Manifest) (s : State) → (tell_offline ms s).pairing ≡ s.pairing
unfolding tell_offline emit
pairing-tell_offline [] s = refl
pairing-tell_offline (m ∷ ms) s =
    elim (Bool-cases (truthy m.id && is_some (find_provider_sid s.registry m.id))) [
      | inl owned ↦ rw (owned, tell_offline) (pairing-tell_offline ms s)
      | inr lost ↦ rw (lost, tell_offline) (pairing-tell_offline ms _)
    ]

sid_to_device-drop_session_auth :
    (sid : String) (p : Pairing) → get (drop_session_auth sid p).0.sid_to_device sid ≡ none
unfolding drop_session_auth forget_ephemeral
sid_to_device-drop_session_auth sid p = elim (Option-cases (get p.sid_to_device sid)) [
  | inl e ↦ ground (arith, e, get-pop p.sid_to_device sid sid, eq_iff sid sid)
  | inr (d, e) ↦ ground (arith, e, get-pop p.sid_to_device sid sid, eq_iff sid sid)
]

unpaired-disconnect_provider :
    (sid : String) (s : State)
    → has_sid s.registry sid ≡ true
    → get (disconnect_provider sid s).pairing.sid_to_device sid ≡ none
unfolding disconnect_provider tell_providers emit
unpaired-disconnect_provider sid s h =
    rw (h, disconnect_provider)
      (rw (pairing-tell_offline (registered s.registry sid) _)
        (sid_to_device-drop_session_auth sid (remove_provider sid s).pairing))

registry-tell_offline : (ms : List Manifest) (s : State) → (tell_offline ms s).registry ≡ s.registry
unfolding tell_offline emit
registry-tell_offline [] s = refl
registry-tell_offline (m ∷ ms) s =
    elim (Bool-cases (truthy m.id && is_some (find_provider_sid s.registry m.id))) [
      | inl owned ↦ rw (owned, tell_offline) (registry-tell_offline ms s)
      | inr lost ↦ rw (lost, tell_offline) (registry-tell_offline ms _)
    ]

absent :
    (sid : String) {r : Registry}
    → IsConsistent r
    → has_sid r sid ≡ false
    → (k : String) → find_provider_sid r k ≢ some sid
unfolding has_sid
absent sid {r} c h k routed = elim (Option-cases (get r.providers sid)) [
  | inl e ↦ ground (arith, e, find_provider_sid_sound sid k c routed)
  | inr (l, e) ↦ ground (arith, e, h)
]

disconnect_provider-IsLeft :
    (sid : String) (s : State)
    → IsConsistent s.registry
    → IsLeft sid (disconnect_provider sid s).registry
unfolding disconnect_provider tell_providers emit
disconnect_provider-IsLeft sid s c = elim (Bool-cases (has_sid s.registry sid)) [
  | inr gone ↦
      rw (gone, disconnect_provider) (record { consistent = c; unrouted = absent sid c gone })
  | inl here ↦
      rw (here, disconnect_provider)
        (subst (IsLeft sid) (sym (registry-tell_offline (registered s.registry sid) _)) (record {
          consistent = (remove_provider-everywhere sid s c).0;
          unrouted = (remove_provider-everywhere sid s c).1;
        }))
]

disconnect_pending_lem :
    (sid : String) (s : State)
    → let t = disconnect_pending sid s in
      (t.registry ≡ s.registry)
      × (get t.pairing.pending_providers sid ≡ none)
      × (t.time_offsets ≡ s.time_offsets)
      × (t.pairing.sid_to_device ≡ s.pairing.sid_to_device)
unfolding disconnect_pending tell_pending remove_pending_provider emit
disconnect_pending_lem sid s = (
  ground arith,
  ground (arith, get-pop s.pairing.pending_providers sid sid, eq_iff sid sid),
  ground arith,
  ground arith,
)

disconnect_client_lem :
    (sid : String) (s : State)
    → let t = disconnect_client sid s in
      (t.registry ≡ s.registry)
      × (t.pairing ≡ s.pairing)
      × (get t.clients sid ≡ none)
      × (t.time_offsets ≡ s.time_offsets)
unfolding disconnect_client
disconnect_client_lem sid s = (
  ground arith,
  ground arith,
  ground (arith, get-pop s.clients sid sid, eq_iff sid sid),
  ground arith,
)

-- After a disconnect the registry is consistent and routes nothing to the session, the session is
-- neither among the devices that wait for approval nor among the clients, no clock offset is kept
-- for an id of its providers or their tasks, and a session that had registered a provider has no
-- secret any more.
pub handle_disconnect_lem :
    (sid : String) (s : State)
    → IsConsistent s.registry
    → let s' = handle_disconnect sid s in
      IsConsistent s'.registry
      × ((k : String) → find_provider_sid s'.registry k ≢ some sid)
      × (get s'.pairing.pending_providers sid ≡ none)
      × (get s'.clients sid ≡ none)
      × ((k : String) → held sid k s ≡ true → get s'.time_offsets k ≡ none)
      × (has_sid s.registry sid ≡ true → get_secret_for_sid sid s'.pairing ≡ none)
unfolding handle_disconnect get_secret_for_sid
handle_disconnect_lem sid s c =
    let first = disconnect_provider sid s in
    let left = disconnect_provider-IsLeft sid s c in
    let (same, gone, quiet, paired) = disconnect_pending_lem sid first in
    let (same2, kept, out, quiet2) = disconnect_client_lem sid (disconnect_pending sid first) in
    let here = subst (IsLeft sid) (sym (same2 ∙ same)) left in
    (
      here.consistent,
      here.unrouted,
      rw kept gone,
      out,
      λ k h. rw (quiet2 ∙ quiet) (offsets-disconnect_provider sid k s h),
      λ h. ground (arith, kept, paired, unpaired-disconnect_provider sid s h),
    )
