-- ===== src/Bridge/Leaks.antt =====
-- Which blocks of shared memory exist, and which node holds them.
use elab_core.Prelude.{
  ℕ, String, ◌+◌, ◌≡◌, ◌∙◌, ap, sym, refl, Bool, true, false, not, none, some, List, [], ◌∷◌, ◌==◌,
  ◌&&◌, ◌||◌, ◌⊎◌, inl, inr, is_some, any, truthy, arith, eq_iff, if_lem, Bool-cases, Option-cases,
}
use elab_core.Prelude.Dict.{Dict, get, set, pop, get-set, get-pop}
use elab_core.Manifest.{Task}
use elab_core.SharedMemory.{Channel, create}
use elab_core.Bridge.{Node, Bridge, Env, send, release, deregister_node, shm_name, create_channels}

abbrev pub holds : String → Dict String → Bool
holds name = any (λ (task_id, n). n == name)

-- A registered node holds the block.
pub record Holder (name : String) (nodes : Dict Node) : Type 0 where
  pub id : String
  pub node : Node
  pub there : get nodes id ≡ some node
  pub held : holds name node.shm_channels ≡ true

-- Every block that exists is held by a registered node.
abbrev pub IsTight : Bridge → Type 0
IsTight b = (name : String) → is_some (get b.shm name) ≡ true → Holder name b.nodes

pub release_lem :
    (channels : Dict String) (shm : Dict (Channel String)) (name : String)
    → is_some (get (release channels shm) name) ≡ true
    → (is_some (get shm name) ≡ true) × (holds name channels ≡ false)
unfolding release
release_lem [] shm name h = (h, refl)
release_lem ((task_id, n) ∷ channels) shm name h =
    let (left, free) = release_lem channels (pop shm n) name h in
    let popped = get-pop shm n name in
    (ground (arith, left, popped), ground (arith, left, popped, free))

pub deregister_node_lem :
    (n : Node) (b : Bridge)
    → ((deregister_node n b).nodes ≡ b.nodes)
      × ((deregister_node n b).shm ≡ release n.shm_channels b.shm)
unfolding deregister_node send
deregister_node_lem n b = (ground arith, ground arith)

-- Whoever holds a block that the other does not hold is another node.
other_stays :
    (id id' : String) (n n' : Node) (nodes : Dict Node) (name : String)
    → get nodes id ≡ some n
    → get nodes id' ≡ some n'
    → holds name n.shm_channels ≡ false
    → holds name n'.shm_channels ≡ true
    → get (pop nodes id) id' ≡ some n'
other_stays id id' n n' nodes name there there' free held = elim (Bool-cases (id == id')) [
  | inl e ↦
      let same : id ≡ id' = ground (arith, e, eq_iff id id') in
      let twice : some n ≡ some n' = sym there ∙ ap (get nodes) same ∙ there' in
      let alike : holds name n.shm_channels ≡ holds name n'.shm_channels =
        ap (λ o. elim o [ none ↦ false | some x ↦ holds name x.shm_channels ]) twice in
      absurd (ground (arith, alike, free, held))
  | inr e ↦ ground (arith, e, there', get-pop nodes id id')
]

-- A node that goes takes its blocks with it.
pub dropped-IsTight :
    (id : String) (n : Node) (b : Bridge)
    → get b.nodes id ≡ some n
    → IsTight b
    → IsTight (deregister_node n (record b { nodes = pop b.nodes id }))
dropped-IsTight id n b there tight name h =
    let b' = record b { nodes = pop b.nodes id } in
    let (nodes, shm) = deregister_node_lem n b' in
    let (left, free) =
      release_lem n.shm_channels b.shm name (ap (λ s. is_some (get s name)) (sym shm) ∙ h) in
    let holder = tight name left in
    let found = holder.there in
    let held = holder.held in
    record {
      id = holder.id;
      node = holder.node;
      there =
          ap (λ ns. get ns holder.id) nodes
          ∙ other_stays id holder.id n holder.node b.nodes name there found free held;
      held = held;
    }

abbrev pub distinct_ids : List Task → Bool
distinct_ids [] = true
distinct_ids (t ∷ ts) = not (any (λ u. u.id == t.id) ts) && distinct_ids ts

abbrev pub absent : List Task → Dict String → Bool
absent ts channels = not (any (λ t. is_some (get channels t.id)) ts)

holds-set :
    (channels : Dict String) (task_id n name : String)
    → get channels task_id ≡ none
    → holds name (set channels task_id n) ≡ (holds name channels || n == name)
unfolding set get
holds-set [] task_id n name h = ground arith
holds-set ((t, m) ∷ channels) task_id n name h =
    ground (arith, h, eq_iff t task_id, holds-set channels task_id n name)

absent-set :
    (ts : List Task) (channels : Dict String) (task_id n : String)
    → any (λ u. u.id == task_id) ts ≡ false
    → absent ts channels ≡ true
    → absent ts (set channels task_id n) ≡ true
absent-set [] channels task_id n d h = refl
absent-set (t ∷ ts) channels task_id n d h = ground (
  arith,
  d,
  h,
  get-set channels task_id n t.id,
  eq_iff t.id task_id,
  eq_iff task_id t.id,
  absent-set ts channels task_id n,
)

absent_first :
    (t : Task) (ts : List Task) (channels : Dict String)
    → absent (t ∷ ts) channels ≡ true
    → get channels t.id ≡ none
absent_first t ts channels h = elim (Option-cases (get channels t.id)) [
  | inl e ↦ e
  | inr (n, e) ↦ absurd (ground (arith, h, e))
]

new_or_old :
    (shm : Dict (Channel String)) (nm : String) (c : Channel String) (name : String) (held : Bool)
    → (is_some (get (set shm nm c) name) ≡ true) ⊎ (held ≡ true)
    → (nm ≡ name → held ≡ true)
    → (is_some (get shm name) ≡ true) ⊎ (held ≡ true)
new_or_old shm nm c name held (inr h) k = inr h
new_or_old shm nm c name held (inl h) k = elim (Bool-cases (nm == name)) [
  | inl e ↦ inr (k (ground (arith, e, eq_iff nm name)))
  | inr e ↦ inl (ground (arith, e, h, get-set shm nm c name))
]

-- What the creation of channels leaves: the blocks that were there, and those of the channels.
abbrev pub Created :
    Dict (Channel String) → Dict String → Dict String × Dict (Channel String) → Type 0
Created shm before (channels, shm') =
    (name : String)
    → (is_some (get shm' name) ≡ true
        → (is_some (get shm name) ≡ true) ⊎ (holds name channels ≡ true))
      × (holds name before ≡ true → holds name channels ≡ true)

pub create_channels_lem :
    (e : Env) (node_id : String) (i : ℕ) (ts : List Task) (channels : Dict String)
    (shm : Dict (Channel String))
    → distinct_ids ts ≡ true
    → absent ts channels ≡ true
    → Created shm channels (create_channels e node_id i ts channels shm)
unfolding create_channels
create_channels_lem e node_id i [] channels shm d a = λ name. (λ h. inl h, λ h. h)
create_channels_lem e node_id i (t ∷ ts) channels shm d a =
    let nm = shm_name e i node_id t.id in
    let channels' = set channels t.id nm in
    let shm' = set shm nm (create e.blank) in
    if_lem (Created shm channels) (not (truthy t.id) || e.refuses nm || is_some (get shm nm))
      (create_channels e node_id (i + 1) ts channels shm)
      (create_channels e node_id (i + 1) ts channels' shm')
      (λ skipped.
        create_channels_lem e node_id (i + 1) ts channels shm (ground (arith, d))
          (ground (arith, a)))
      (λ made name.
        let later =
          create_channels_lem e node_id (i + 1) ts channels' shm' (ground (arith, d))
            (absent-set ts channels t.id nm (ground (arith, d)) (ground (arith, a))) name in
        let now = holds-set channels t.id nm name (absent_first t ts channels a) in
        (
          λ h.
              new_or_old shm nm (create e.blank) name _ (later.0 h)
                (λ k. later.1 (ground (arith, now, k, eq_iff nm name))),
          λ h. later.1 (ground (arith, now, h)),
        ))
