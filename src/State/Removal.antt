-- ===== src/State/Removal.antt =====
-- `remove_provider`: one session's end in all the stores.
use elab_core.Prelude.{
  String, ◌≡◌, ◌≢◌, refl, sym, ◌∙◌, not, some, List, [], ◌∷◌, ◌++◌, ◌&&◌, ◌||◌, append_assoc,
  append-nil, map,
}
use elab_core.Manifest.{Manifest, has_provider, has_task}
use elab_core.Registry.{registered, find_provider_sid, pop_provider}
use elab_core.Registry.Invariant.{IsConsistent, pop_provider-IsConsistent}
use elab_core.Registry.Owners.{pop_provider-routes}
use elab_core.Links.Laws.{feeds, feeds-purge_for}
use elab_core.Pairing.{is_ui_internal, forget_sources}
use elab_core.Pairing.Tokens.{is_ui_internal-forget_sources}
use elab_core.State.{
  State, Message, ui_clients, provider_disconnected, emit, emit_disconnected, forget_manifests,
  remove_provider,
}

abbrev pub farewells : List Manifest → List Message
farewells = map (λ m. record { room = ui_clients; event = provider_disconnected m.id })

-- Emitting changes nothing but the list of messages.
emit_disconnected_lem :
    (ms : List Manifest) (s : State)
    → emit_disconnected ms s ≡ record s { sent = s.sent ++ farewells ms }
unfolding emit_disconnected emit
emit_disconnected_lem [] s = λ i. record s { sent = sym (append-nil s.sent) i }
emit_disconnected_lem (m ∷ ms) s =
    let e : Message = record { room = ui_clients; event = provider_disconnected m.id } in
    emit_disconnected_lem ms (record s { sent = s.sent ++ (e ∷ []) })
    ∙ (λ i. record s { sent = append_assoc s.sent (e ∷ []) (farewells ms) i })

remove_provider_lem :
    (sid : String) (s : State)
    → remove_provider sid s
      ≡ record (forget_manifests (registered s.registry sid) (pop_provider sid s.registry).0 s) {
        sent = s.sent ++ farewells (registered s.registry sid);
      }
unfolding remove_provider forget_manifests pop_provider
remove_provider_lem sid s = emit_disconnected_lem (registered s.registry sid) _

-- The end of a session is the end of it in every store at once: the registry stays consistent and
-- routes nothing to the session, a source feeds an actuator only if neither bears an id of the
-- removed providers or their tasks, none of those ids is trusted as the user interface's own, and
-- the user interfaces are told of each removed provider, in order.
pub remove_provider-everywhere :
    (sid : String) (s : State)
    → IsConsistent s.registry
    → let s' = remove_provider sid s in
      let gone = λ (k : String).
        has_provider k (registered s.registry sid) || has_task k (registered s.registry sid) in
      IsConsistent s'.registry
      × ((k : String) → find_provider_sid s'.registry k ≢ some sid)
      × ((q a : String) → feeds s'.links q a ≡ (not (gone q) && not (gone a) && feeds s.links q a))
      × ((k : String) → is_ui_internal k s'.pairing ≡ (not (gone k) && is_ui_internal k s.pairing))
      × (s'.sent ≡ s.sent ++ farewells (registered s.registry sid))
unfolding forget_manifests
remove_provider-everywhere sid s c = rw remove_provider_lem (
  pop_provider-IsConsistent sid c,
  λ k. (pop_provider-routes sid k c).0,
  λ q a. feeds-purge_for (registered s.registry sid) s.links q a,
  λ k. is_ui_internal-forget_sources (registered s.registry sid) k s.pairing,
  refl,
)

-- What a removal leaves alone.
pub remove_provider-keeps :
    (sid : String) (s : State)
    → let s' = remove_provider sid s in
      (s'.config_store ≡ s.config_store)
      × (s'.pairing.ephemeral_credentials ≡ s.pairing.ephemeral_credentials)
      × (s'.pairing.approved_secrets ≡ s.pairing.approved_secrets)
      × (s'.pairing.sid_to_device ≡ s.pairing.sid_to_device)
      × (s'.active_tasks_by_slot ≡ s.active_tasks_by_slot)
      × (s'.clients ≡ s.clients)
unfolding forget_manifests forget_sources
remove_provider-keeps sid s = rw remove_provider_lem (refl, refl, refl, refl, refl, refl)
