-- ===== src/Bridge/Life.antt =====
-- The blocks of shared memory under any messages, and after the daemon has stopped.
use elab_core.Prelude.{
  ℕ, String, ◌≡◌, ◌∙◌, ap, sym, refl, false, not, Option, none, some, List, [], ◌∷◌, ◌==◌, inl, inr,
  truthy, if◌then◌else◌, arith, eq_iff, if_lem, Bool-cases, Option-cases, subst,
}
use elab_core.Prelude.Dict.{get, set, pop, get-set}
use elab_core.Stream.{Payload}
use elab_core.ProviderAuth.{ProviderAuth, Signer, sign}
use elab_core.Bridge.{Node, Bridge, Env, send, deregister_node, touch, handle_deregister}
use elab_core.Bridge.Handlers.{
  DataAvailable, packet, sender_of, forward_signed, forward_samples, samples_of, read_node,
  handle_data_available, handle_heartbeat_ack,
}
use elab_core.Bridge.Leaks.{holds, IsTight, dropped-IsTight}
use elab_core.Bridge.NoLeak.{same-IsTight}

touched-IsTight :
    (id : String) (now : ℕ) (n : Node) (b : Bridge)
    → get b.nodes id ≡ some n
    → IsTight b
    → IsTight (record b { nodes = set b.nodes id (touch now n) })
unfolding touch
touched-IsTight id now n b there tight name h =
    let holder = tight name h in
    let found = holder.there in
    let held = holder.held in
    let n' = touch now n in
    elim (Bool-cases (id == holder.id)) [
      | inl e ↦
          let same : id ≡ holder.id = ground (arith, e, eq_iff id holder.id) in
          let twice : some n ≡ some holder.node = sym there ∙ ap (get b.nodes) same ∙ found in
          let alike : holds name n.shm_channels ≡ holds name holder.node.shm_channels =
            ap (λ o. elim o [ none ↦ false | some x ↦ holds name x.shm_channels ]) twice in
          record {
            id = id;
            node = n';
            there = ground (arith, get-set b.nodes id n' id, eq_iff id id);
            held = alike ∙ held;
          }
      | inr e ↦ record {
        id = holder.id;
        node = holder.node;
        there = ground (arith, e, found, get-set b.nodes id n' holder.id);
        held = held;
      }
    ]

pub deregister-IsTight :
    (id : Option String) (b : Bridge) → IsTight b → IsTight (handle_deregister id b).0
unfolding handle_deregister
deregister-IsTight none b tight = tight
deregister-IsTight (some id) b tight = elim (Option-cases (get b.nodes id)) [
  | inl e ↦
      let unchanged : b ≡ (handle_deregister (some id) b).0 = ground (arith, e) in
      subst IsTight unchanged tight
  | inr (n, e) ↦
      let gone = deregister_node n (record b { nodes = pop b.nodes id }) in
      let found : (if not (truthy id) then b else gone) ≡ (handle_deregister (some id) b).0 =
        ground (arith, e) in
      subst IsTight found
        (if_lem IsTight (not (truthy id)) b gone (λ _. tight) (λ _. dropped-IsTight id n b e tight))
]

signed_lem :
    (k : Signer) (a : ProviderAuth) (now : ℕ) (x : Payload) (b : Bridge)
    → ((forward_signed k a now x b).0.nodes ≡ b.nodes)
      × ((forward_signed k a now x b).0.shm ≡ b.shm)
unfolding forward_signed send
signed_lem k a now x b = elim (Option-cases (sign k a now x)) [
  | inl e ↦ (ground (arith, e), ground (arith, e))
  | inr (y, e) ↦ (ground (arith, e), ground (arith, e))
]

-- What the forwarding of samples leaves as it was.
forward_lem :
    (k : Signer) (now : ℕ) (id : String) (x : DataAvailable) (vs : List String) (b : Bridge)
    → ((forward_samples k now id x vs b).0.nodes ≡ b.nodes)
      × ((forward_samples k now id x vs b).0.shm ≡ b.shm)
unfolding forward_samples
forward_lem k now id x [] b = (refl, refl)
forward_lem k now id x (v ∷ vs) b = elim (Option-cases (get b.node_auths id)) [
  | inl e ↦ (ground (arith, e), ground (arith, e))
  | inr (a, e) ↦
      let (nodes, shm) = signed_lem k a now (packet x (v ∷ vs)) b in
      (ground (arith, e, nodes), ground (arith, e, shm))
]

read-IsTight :
    (k : Signer) (e : Env) (now : ℕ) (x : DataAvailable) (id : String) (n : Node) (b : Bridge)
    → get b.nodes id ≡ some n
    → IsTight b
    → IsTight (read_node k e now x id n b).0
unfolding read_node
read-IsTight k e now x id n b there tight = elim (Option-cases (get n.shm_channels x.task_id)) [
  | inl g ↦
      let unchanged : b ≡ (read_node k e now x id n b).0 = ground (arith, g) in
      subst IsTight unchanged tight
  | inr (name, g) ↦
      let b' = record b { nodes = set b.nodes id (touch e.now n) } in
      let vs = samples_of (get b.shm name) x.count in
      let (nodes, shm) = forward_lem k now id x vs b' in
      let read : (forward_samples k now id x vs b').0 ≡ (read_node k e now x id n b).0 =
        ground (arith, g) in
      subst IsTight read (
        same-IsTight b' (forward_samples k now id x vs b').0 nodes shm
          (touched-IsTight id e.now n b there tight))
]

pub data-IsTight :
    (k : Signer) (e : Env) (now : ℕ) (x : DataAvailable) (b : Bridge)
    → IsTight b
    → IsTight (handle_data_available k e now x b).0
unfolding handle_data_available
data-IsTight k e now x b tight = elim (Option-cases (sender_of x b)) [
  | inl s ↦
      let unchanged : b ≡ (handle_data_available k e now x b).0 = ground (arith, s) in
      subst IsTight unchanged tight
  | inr (id, s) ↦ elim (Option-cases (get b.nodes id)) [
    | inl g ↦
        let unchanged : b ≡ (handle_data_available k e now x b).0 = ground (arith, s, g) in
        subst IsTight unchanged tight
    | inr (n, g) ↦
        let read : (read_node k e now x id n b).0 ≡ (handle_data_available k e now x b).0 =
          ground (arith, s, g) in
        subst IsTight read (read-IsTight k e now x id n b g tight)
  ]
]

pub heartbeat_ack-IsTight :
    (e : Env) (id : String) (b : Bridge) → IsTight b → IsTight (handle_heartbeat_ack e id b).0
unfolding handle_heartbeat_ack
heartbeat_ack-IsTight e id b tight = elim (Option-cases (get b.nodes id)) [
  | inl g ↦
      let unchanged : b ≡ (handle_heartbeat_ack e id b).0 = ground (arith, g) in
      subst IsTight unchanged tight
  | inr (n, g) ↦
      let touched : record b { nodes = set b.nodes id (touch e.now n) }
          ≡ (handle_heartbeat_ack e id b).0 =
        ground (arith, g) in
      subst IsTight touched (touched-IsTight id e.now n b g tight)
]
