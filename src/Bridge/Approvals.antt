-- ===== src/Bridge/Approvals.antt =====
-- Whose data the bridge forwards, and which approvals reach it.
use elab_core.Prelude.{
  ℕ, String, ◌≡◌, ◌≢◌, ◌∙◌, ap, refl, not, none, some, List, [], ◌∷◌, ◌++◌, ◌⊎◌, inl, inr, truthy,
  arith, eq_iff, if_lem, Bool-cases, Option-cases, subst,
}
use elab_core.Prelude.Dict.{Dict, get, set, get-set}
use elab_core.Manifest.{Manifest}
use elab_core.ProviderAuth.{ProviderAuth, Signer, sign, has_secret}
use elab_core.Bridge.{
  Node, Bridge, Env, Response, send, deregister_node, touch, with_device, drop_node, store_node,
  forward_registration, handle_register,
}
use elab_core.Bridge.Handlers.{
  DataAvailable, sender_of, forward_signed, forward_samples, samples_of, read_node,
  handle_data_available, on_registration_approved,
}
use elab_core.Manifest.{resolve_device_id}
use elab_core.Stream.{Payload}
use elab_core.Bridge.{data_stream, missing_id, auth_for}
use elab_core.Bridge.NoLeak.{with_device_lem}
use elab_core.Bridge.Handlers.{packet}

-- A node whose client has a secret, and the packet that was signed with it.
pub record Signed (k : Signer) (now : ℕ) (x : DataAvailable) (b b' : Bridge) : Type 0 where
  pub node_id : String
  pub auth : ProviderAuth
  pub known : get b.node_auths node_id ≡ some auth
  pub samples : List String
  pub signed : Payload
  pub signature : sign k auth now (packet x samples) ≡ some signed
  pub sent : b'.sent ≡ b.sent ++ (data_stream signed ∷ [])

abbrev Forwards : Signer → ℕ → DataAvailable → Bridge → Bridge → Type 0
Forwards k now x b b' = (b'.sent ≡ b.sent) ⊎ Signed k now x b b'

samples-Forwards :
    (k : Signer) (now : ℕ) (id : String) (x : DataAvailable) (vs : List String) (b : Bridge)
    → Forwards k now x b (forward_samples k now id x vs b).0
unfolding forward_samples forward_signed send
samples-Forwards k now id x [] b = inl refl
samples-Forwards k now id x (v ∷ vs) b = elim (Option-cases (get b.node_auths id)) [
  | inl e ↦ inl (ground (arith, e))
  | inr (a, e) ↦ elim (Option-cases (sign k a now (packet x (v ∷ vs)))) [
    | inl n ↦ inl (ground (arith, e, n))
    | inr (y, n) ↦ elim (Bool-cases (has_secret a)) [
      | inl has ↦ inr (record {
        node_id = id;
        auth = a;
        known = e;
        samples = v ∷ vs;
        signed = y;
        signature = n;
        sent = ground (arith, e, n, has);
      })
      | inr lacks ↦ inl (ground (arith, e, lacks))
    ]
  ]
]

read-Forwards :
    (k : Signer) (e : Env) (now : ℕ) (x : DataAvailable) (id : String) (n : Node) (b : Bridge)
    → Forwards k now x b (read_node k e now x id n b).0
unfolding read_node
read-Forwards k e now x id n b = elim (Option-cases (get n.shm_channels x.task_id)) [
  | inl g ↦ inl (ground (arith, g))
  | inr (name, g) ↦
      let b' = record b { nodes = set b.nodes id (touch e.now n) } in
      let after = forward_samples k now id x (samples_of (get b.shm name) x.count) b' in
      let read : after.0 ≡ (read_node k e now x id n b).0 = ground (arith, g) in
      subst (Forwards k now x b) read
        (elim (samples-Forwards k now id x (samples_of (get b.shm name) x.count) b') [
          | inl same ↦ inl same
          | inr s ↦ inr (record {
            node_id = s.node_id;
            auth = s.auth;
            known = s.known;
            samples = s.samples;
            signed = s.signed;
            signature = s.signature;
            sent = s.sent;
          })
        ])
]

-- A message about new samples either makes the bridge send nothing, or one packet: of the task that the
-- message names, signed with the secret of a client that the bridge has.
pub handle_data_available_lem :
    (k : Signer) (e : Env) (now : ℕ) (x : DataAvailable) (b : Bridge)
    → let b' = (handle_data_available k e now x b).0 in (b'.sent ≡ b.sent) ⊎ Signed k now x b b'
unfolding handle_data_available
handle_data_available_lem k e now x b = elim (Option-cases (sender_of x b)) [
  | inl s ↦ inl (ground (arith, s))
  | inr (id, s) ↦ elim (Option-cases (get b.nodes id)) [
    | inl g ↦ inl (ground (arith, s, g))
    | inr (n, g) ↦
        let read : (read_node k e now x id n b).0 ≡ (handle_data_available k e now x b).0 =
          ground (arith, s, g) in
        subst (Forwards k now x b) read (read-Forwards k e now x id n b)
  ]
]

drop_node-auths : (id : String) (b : Bridge) → (drop_node id b).node_auths ≡ b.node_auths
unfolding drop_node deregister_node send
drop_node-auths id b = elim (Option-cases (get b.nodes id)) [
  | inl e ↦ ground (arith, e)
  | inr (n, e) ↦ ground (arith, e)
]

forward-auths :
    (m : Manifest) (channels : Dict String) (b : Bridge)
    → (forward_registration m channels b).0.node_auths ≡ b.node_auths
unfolding forward_registration send
forward-auths m channels b = ground arith

store_node-auths :
    (e : Env) (m : Manifest) (d : String) (b : Bridge)
    → d ≢ m.id
    → get (store_node e m b).0.node_auths d ≡ get b.node_auths d
unfolding store_node
store_node-auths e m d b other_id =
    ground (
      arith,
      other_id,
      get-set b.node_auths m.id (auth_for e m.id b) d,
      eq_iff m.id d,
      eq_iff d m.id,
    )

register-auths :
    (e : Env) (m : Manifest) (d : String) (b : Bridge)
    → d ≢ m.id
    → get (handle_register e (some m) b).0.node_auths d ≡ get b.node_auths d
unfolding handle_register
register-auths e m d b other_id =
    let m' = with_device m in
    let b₁ = drop_node m.id b in
    let stored = store_node e m' b₁ in
    if_lem (λ (x : Bridge × Response). get x.0.node_auths d ≡ get b.node_auths d)
      (not (truthy m.id)) (b, missing_id) (forward_registration m' stored.1 stored.0) (λ _. refl)
      (λ _.
        ap (λ auths. get auths d) (forward-auths m' stored.1 stored.0)
        ∙ store_node-auths e m' d b₁ (λ h. other_id (h ∙ (with_device_lem m).0))
        ∙ ap (λ auths. get auths d) (drop_node-auths m.id b))

-- The dispatcher approves a device by its device id. If a node registers with a device block whose
-- id is not the manifest's, and the bridge has no client under that device id, then the approval
-- changes nothing.
pub approval_is_lost :
    (e : Env) (m : Manifest) (secret : String) (b : Bridge)
    → resolve_device_id m ≢ m.id
    → get b.node_auths (resolve_device_id m) ≡ none
    → let b' = (handle_register e (some m) b).0 in
      on_registration_approved e (resolve_device_id m) secret b' ≡ b'
unfolding on_registration_approved
approval_is_lost e m secret b other_id unknown =
    let still = register-auths e m (resolve_device_id m) b other_id ∙ unknown in
    ground (arith, still)
