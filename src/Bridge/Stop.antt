-- ===== src/Bridge/Stop.antt =====
-- Every run of the daemon, and its end.
use elab_core.Prelude.{
  ℕ, String, ◌≡◌, ◌∙◌, ap, sym, refl, Bool, true, false, not, none, some, List, [], ◌∷◌, ◌==◌, ◌&&◌,
  ◌||◌, inl, inr, is_some, any, truthy, if◌then◌else◌, arith, if_lem, Bool-cases, Option-cases,
  subst,
}
use elab_core.Prelude.Dict.{Dict, get, pop}
use elab_core.ProviderAuth.{Signer}
use elab_core.Bridge.{
  Node, Bridge, Env, Response, send, publish, heartbeat, deregister_node, is_alive, deregister_all,
  stop,
}
use elab_core.Bridge.Handlers.{
  handle_actor_command, History, Message, register, deregister, data_available, actor_command,
  fetch_history, heartbeat_ack, other, handle_control_message, probe, dead_nodes, drop_nodes,
  heartbeat_pass, on_registration_approved, on_registration_revoked,
}
use elab_core.Bridge.Leaks.{
  holds, IsTight, release_lem, deregister_node_lem, dropped-IsTight, distinct_ids,
}
use elab_core.Bridge.NoLeak.{same-IsTight, register-IsTight}
use elab_core.Bridge.Life.{deregister-IsTight, data-IsTight, heartbeat_ack-IsTight}

pub data Action : Type 0 where
  message : Signer → Env → History → (now : ℕ) → Message → Action
  pass : (now : ℕ) → Action
  approved : Env → (device_id secret : String) → Action
  revoked : Env → (device_id : String) → Action

abbrev pub act : Action → Bridge → Bridge
act (message k e h now m) b = (handle_control_message k e h now m b).0
act (pass now) b = heartbeat_pass now b
act (approved e device_id secret) b = on_registration_approved e device_id secret b
act (revoked e device_id) b = on_registration_revoked e device_id b

abbrev pub run : List Action → Bridge → Bridge
run [] b = b
run (a ∷ actions) b = run actions (act a b)

abbrev has_distinct_ids : Message → Bool
has_distinct_ids (register m) = elim m [ none ↦ true | some x ↦ distinct_ids x.tasks ]
has_distinct_ids (deregister id) = true
has_distinct_ids (data_available x) = true
has_distinct_ids (actor_command t a p) = true
has_distinct_ids (fetch_history s i) = true
has_distinct_ids (heartbeat_ack id) = true
has_distinct_ids (other t) = true

-- No manifest that registers lists a task id twice.
abbrev pub all_distinct : List Action → Bool
all_distinct [] = true
all_distinct (message k e h now m ∷ actions) = has_distinct_ids m && all_distinct actions
all_distinct (pass now ∷ actions) = all_distinct actions
all_distinct (approved e d s ∷ actions) = all_distinct actions
all_distinct (revoked e d ∷ actions) = all_distinct actions

message-IsTight :
    (k : Signer) (e : Env) (h : History) (now : ℕ) (m : Message) (b : Bridge)
    → has_distinct_ids m ≡ true
    → IsTight b
    → IsTight (handle_control_message k e h now m b).0
unfolding handle_control_message handle_actor_command send
message-IsTight k e h now (register m) b d tight = register-IsTight e m b d tight
message-IsTight k e h now (deregister id) b d tight = deregister-IsTight id b tight
message-IsTight k e h now (data_available x) b d tight = data-IsTight k e now x b tight
message-IsTight k e h now (actor_command t a p) b d tight =
    if_lem (λ (x : Bridge × Response). IsTight x.0) (not (truthy t) || not (truthy a)) _ _
      (λ _. tight) (λ _. tight)
message-IsTight k e h now (fetch_history s i) b d tight = tight
message-IsTight k e h now (heartbeat_ack id) b d tight = heartbeat_ack-IsTight e id b tight
message-IsTight k e h now (other t) b d tight = tight

probe_lem :
    (now : ℕ) (ns : Dict Node) (b : Bridge)
    → ((probe now ns b).nodes ≡ b.nodes) × ((probe now ns b).shm ≡ b.shm)
unfolding probe publish
probe_lem now [] b = (refl, refl)
probe_lem now ((id, n) ∷ ns) b =
    let b' = if is_alive now n then publish id heartbeat b else b in
    let (nodes, shm) = probe_lem now ns b' in (nodes ∙ ground arith, shm ∙ ground arith)

drop_nodes-IsTight : (ids : List String) (b : Bridge) → IsTight b → IsTight (drop_nodes ids b)
unfolding drop_nodes
drop_nodes-IsTight [] b tight = tight
drop_nodes-IsTight (id ∷ ids) b tight = elim (Option-cases (get b.nodes id)) [
  | inl e ↦
      let unchanged : drop_nodes ids b ≡ drop_nodes (id ∷ ids) b = ground (arith, e) in
      subst IsTight unchanged (drop_nodes-IsTight ids b tight)
  | inr (n, e) ↦
      let gone = deregister_node n (record b { nodes = pop b.nodes id }) in
      let next : drop_nodes ids gone ≡ drop_nodes (id ∷ ids) b = ground (arith, e) in
      subst IsTight next (drop_nodes-IsTight ids gone (dropped-IsTight id n b e tight))
]

approved-IsTight :
    (e : Env) (d s : String) (b : Bridge) → IsTight b → IsTight (on_registration_approved e d s b)
unfolding on_registration_approved
approved-IsTight e d s b tight = elim (Option-cases (get b.node_auths d)) [
  | inl g ↦
      same-IsTight b (on_registration_approved e d s b) (ground (arith, g)) (ground (arith, g))
        tight
  | inr (a, g) ↦
      same-IsTight b (on_registration_approved e d s b) (ground (arith, g)) (ground (arith, g))
        tight
]

revoked-IsTight :
    (e : Env) (d : String) (b : Bridge) → IsTight b → IsTight (on_registration_revoked e d b)
unfolding on_registration_revoked
revoked-IsTight e d b tight = elim (Option-cases (get b.node_auths d)) [
  | inl g ↦
      same-IsTight b (on_registration_revoked e d b) (ground (arith, g)) (ground (arith, g)) tight
  | inr (a, g) ↦
      same-IsTight b (on_registration_revoked e d b) (ground (arith, g)) (ground (arith, g)) tight
]

act-IsTight :
    (a : Action) (b : Bridge) → all_distinct (a ∷ []) ≡ true → IsTight b → IsTight (act a b)
unfolding heartbeat_pass
act-IsTight (message k e h now m) b d tight =
    message-IsTight k e h now m b (ground (arith, d)) tight
act-IsTight (pass now) b d tight =
    let (nodes, shm) = probe_lem now b.nodes b in
    drop_nodes-IsTight (dead_nodes now b.nodes) (probe now b.nodes b)
      (same-IsTight b (probe now b.nodes b) nodes shm tight)
act-IsTight (approved e id s) b d tight = approved-IsTight e id s b tight
act-IsTight (revoked e id) b d tight = revoked-IsTight e id b tight

distinct_split :
    (a : Action) (actions : List Action)
    → all_distinct (a ∷ actions) ≡ true
    → (all_distinct (a ∷ []) ≡ true) × (all_distinct actions ≡ true)
distinct_split (message k e h now m) actions d = (ground (arith, d), ground (arith, d))
distinct_split (pass now) actions d = (refl, d)
distinct_split (approved e id s) actions d = (refl, d)
distinct_split (revoked e id) actions d = (refl, d)

run-IsTight :
    (actions : List Action) (b : Bridge)
    → all_distinct actions ≡ true
    → IsTight b
    → IsTight (run actions b)
run-IsTight [] b d tight = tight
run-IsTight (a ∷ actions) b d tight =
    let (first, rest) = distinct_split a actions d in
    run-IsTight actions (act a b) rest (act-IsTight a b first tight)

-- A block that is left by the end of all nodes was there, and no node held it.
released :
    (ns : Dict Node) (b : Bridge) (name : String)
    → is_some (get (deregister_all ns b).shm name) ≡ true
    → (is_some (get b.shm name) ≡ true) × (any (λ (id, n). holds name n.shm_channels) ns ≡ false)
unfolding deregister_all
released [] b name h = (h, refl)
released ((id, n) ∷ ns) b name h =
    let (left, rest) = released ns (deregister_node n b) name h in
    let (nodes, shm) = deregister_node_lem n b in
    let (before, free) =
      release_lem n.shm_channels b.shm name (ap (λ s. is_some (get s name)) (sym shm) ∙ left) in
    (before, ground (arith, free, rest))

held_in :
    (ns : Dict Node) (id name : String) (n : Node)
    → get ns id ≡ some n
    → holds name n.shm_channels ≡ true
    → any (λ (k, x). holds name x.shm_channels) ns ≡ true
unfolding get
held_in [] id name n there held = ground (arith, there)
held_in ((k, x) ∷ ns) id name n there held = elim (Bool-cases (k == id)) [
  | inl e ↦
      let same : some x ≡ some n = ground (arith, e, there) in
      let alike : holds name x.shm_channels ≡ holds name n.shm_channels =
        ap (λ o. elim o [ none ↦ false | some y ↦ holds name y.shm_channels ]) same in
      ground (arith, alike, held)
  | inr e ↦ let rest = held_in ns id name n (ground (arith, e, there)) held in ground (arith, rest)
]

no_block : (b : Bridge) (name : String) → b.shm ≡ [] → get b.shm name ≡ none
unfolding get
no_block b name shm = ap (λ s. get s name) shm

empty-IsTight : (b : Bridge) → b.shm ≡ [] → IsTight b
unfolding get
empty-IsTight b shm name h = absurd (ground (arith, no_block b name shm, h))

stopped_lem :
    (b : Bridge) (name : String)
    → IsTight b
    → is_some (get (deregister_all b.nodes b).shm name) ≡ false
stopped_lem b name tight = elim (Bool-cases (is_some (get (deregister_all b.nodes b).shm name))) [
  | inl h ↦
      let (left, free) = released b.nodes b name h in
      let holder = tight name left in
      let held = held_in b.nodes holder.id name holder.node holder.there holder.held in
      absurd (ground (arith, free, held))
  | inr h ↦ h
]

-- From a daemon without nodes and blocks on, through any messages, passes of the heartbeat loop,
-- approvals and revocations, if no manifest that registers lists a task id twice: every block of
-- shared memory is held by a registered node, and once the daemon has stopped none is left.
pub no_leak :
    (actions : List Action) (b : Bridge)
    → b.nodes ≡ []
    → b.shm ≡ []
    → all_distinct actions ≡ true
    → IsTight (run actions b)
      × ((name : String) → is_some (get (stop (run actions b)).shm name) ≡ false)
unfolding stop
no_leak actions b nodes shm d =
    let tight = run-IsTight actions b d (empty-IsTight b shm) in
    (tight, λ name. stopped_lem (run actions b) name tight)
