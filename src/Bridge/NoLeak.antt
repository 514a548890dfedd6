-- ===== src/Bridge/NoLeak.antt =====
-- The blocks of shared memory over the life of the daemon.
use elab_core.Prelude.{
  String, ◌≡◌, ◌∙◌, ap, sym, refl, true, not, Option, none, some, List, [], ◌∷◌, ◌==◌, inl, inr,
  is_some, truthy, arith, eq_iff, if_lem, Bool-cases, Option-cases, subst,
}
use elab_core.Prelude.Dict.{Dict, get, set, pop, get-set, get-pop}
use elab_core.Manifest.{Manifest, Task}
use elab_core.Bridge.{
  Node, Bridge, Env, Response, send, deregister_node, create_channels, with_device, drop_node,
  store_node, forward_registration, handle_register,
}
use elab_core.Bridge.Leaks.{
  Holder, IsTight, deregister_node_lem, dropped-IsTight, distinct_ids, absent, create_channels_lem,
}

-- A step that touches neither the nodes nor the blocks.
pub same-IsTight : (b b' : Bridge) → b'.nodes ≡ b.nodes → b'.shm ≡ b.shm → IsTight b → IsTight b'
same-IsTight b b' nodes shm tight name h =
    subst (Holder name) (sym nodes) (tight name (ap (λ s. is_some (get s name)) (sym shm) ∙ h))

drop_node-IsTight : (id : String) (b : Bridge) → IsTight b → IsTight (drop_node id b)
unfolding drop_node
drop_node-IsTight id b tight = elim (Option-cases (get b.nodes id)) [
  | inl e ↦ let unchanged : b ≡ drop_node id b = ground (arith, e) in subst IsTight unchanged tight
  | inr (n, e) ↦
      let gone : deregister_node n (record b { nodes = pop b.nodes id }) ≡ drop_node id b =
        ground (arith, e) in
      subst IsTight gone (dropped-IsTight id n b e tight)
]

drop_node-gone : (id : String) (b : Bridge) → get (drop_node id b).nodes id ≡ none
unfolding drop_node
drop_node-gone id b = elim (Option-cases (get b.nodes id)) [
  | inl e ↦ ground (arith, e)
  | inr (n, e) ↦ ground (
    arith,
    e,
    (deregister_node_lem n (record b { nodes = pop b.nodes id })).0,
    get-pop b.nodes id id,
    eq_iff id id,
  )
]

none_absent : (ts : List Task) → absent ts [] ≡ true
unfolding get
none_absent [] = refl
none_absent (t ∷ ts) = none_absent ts

pub still_there :
    (id id' : String) (n n' : Node) (nodes : Dict Node)
    → get nodes id ≡ none
    → get nodes id' ≡ some n'
    → get (set nodes id n) id' ≡ some n'
still_there id id' n n' nodes gone there = elim (Bool-cases (id == id')) [
  | inl e ↦
      let same : id ≡ id' = ground (arith, e, eq_iff id id') in
      let twice : none ≡ some n' = sym gone ∙ ap (get nodes) same ∙ there in
      absurd (ground (arith, twice))
  | inr e ↦ ground (arith, e, there, get-set nodes id n id')
]

store_node-IsTight :
    (e : Env) (m : Manifest) (b : Bridge)
    → get b.nodes m.id ≡ none
    → distinct_ids m.tasks ≡ true
    → IsTight b
    → IsTight (store_node e m b).0
unfolding store_node
store_node-IsTight e m b gone d tight name h =
    let made = create_channels e m.id 0 m.tasks [] b.shm in
    let node : Node = record {
      node_id = m.id;
      manifest = m;
      last_seen = e.now;
      shm_channels = made.0;
    } in
    let created = create_channels_lem e m.id 0 m.tasks [] b.shm d (none_absent m.tasks) name in
    elim (created.0 h) [
      | inl old ↦
          let holder = tight name old in
          record {
            id = holder.id;
            node = holder.node;
            there = still_there m.id holder.id node holder.node b.nodes gone holder.there;
            held = holder.held;
          }
      | inr new ↦ record {
        id = m.id;
        node = node;
        there = ground (arith, get-set b.nodes m.id node m.id, eq_iff m.id m.id);
        held = new;
      }
    ]

pub with_device_lem :
    (m : Manifest) → ((with_device m).id ≡ m.id) × ((with_device m).tasks ≡ m.tasks)
unfolding with_device
with_device_lem m = elim (Option-cases m.device) [
  | inl e ↦ (ground (arith, e), ground (arith, e))
  | inr (d, e) ↦ (ground (arith, e), ground (arith, e))
]

forward-IsTight :
    (m : Manifest) (channels : Dict String) (b : Bridge)
    → IsTight b
    → IsTight (forward_registration m channels b).0
unfolding forward_registration send
forward-IsTight m channels b tight =
    if_lem (λ (x : Bridge × Response). IsTight x.0) b.is_connected _ _ (λ _. tight) (λ _. tight)

pub register-IsTight :
    (e : Env) (m : Option Manifest) (b : Bridge)
    → elim m [ none ↦ true | some x ↦ distinct_ids x.tasks ] ≡ true
    → IsTight b
    → IsTight (handle_register e m b).0
unfolding handle_register
register-IsTight e none b d tight = tight
register-IsTight e (some m) b d tight =
    let m' = with_device m in
    let (id, tasks) = with_device_lem m in
    let b₁ = drop_node m.id b in
    let stored = store_node e m' b₁ in
    let b₂ = forward_registration m' stored.1 stored.0 in
    if_lem (λ (x : Bridge × Response). IsTight x.0) (not (truthy m.id)) _ b₂ (λ _. tight)
      (λ _. forward-IsTight m' stored.1 stored.0 (
        store_node-IsTight e m' b₁ (ap (get b₁.nodes) id ∙ drop_node-gone m.id b)
          (ap distinct_ids tasks ∙ d) (drop_node-IsTight m.id b tight)))
