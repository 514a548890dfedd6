-- ===== src/Registry/Reindex.antt =====
-- One manifest of a session replaced by another: what the lists and the indices hold then.
use elab_core.Prelude.{
  ℕ, String, ◌≡◌, refl, true, false, Option, none, some, List, [], ◌∷◌, ◌==◌, ◌&&◌, truthy, opt_eq,
  if◌then◌else◌, arith, eq_iff, inl, inr, Bool-cases, ◌⊎◌,
}
use elab_core.Prelude.Dict.{get, get-set, get-pop}
use elab_core.Manifest.{Task, Manifest, names, has_provider, has_task}
use elab_core.ConfigStore.{ConfigStore}
use elab_core.Registry.{Registry, index_manifest, unindex_manifest, same_id}
use elab_core.Registry.Index.{Stamped, get-index_tasks, get-unindex_tasks}
use elab_core.Registry.Refresh.{
  override_tasks, override_manifest, find_same, replace_same, refreshed,
}

-- Overrides change no id.
names-override_tasks :
    (store : Option ConfigStore) (ts : List Task) (k : String)
    → names k (override_tasks store ts) ≡ names k ts
unfolding override_tasks
names-override_tasks store [] k = refl
names-override_tasks store (t ∷ ts) k = ground (arith, names-override_tasks store ts k)

module _ (store : Option ConfigStore) (sid : String) (now : ℕ) (m old : Manifest) where
  pub refreshed_fields :
      let new = refreshed store sid now m old in (new.id ≡ m.id) × (new.sid ≡ some sid)
  unfolding refreshed override_manifest
  refreshed_fields = (ground arith, ground arith)

  pub names-refreshed :
      (k : String) → names k (refreshed store sid now m old).tasks ≡ names k m.tasks
  unfolding refreshed override_manifest
  names-refreshed k = ground (arith, names-override_tasks store m.tasks k)

pub has_provider-replace_same :
    (i : String) (new : Manifest) (ms : List Manifest) (k : String)
    → new.id ≡ i
    → has_provider k (replace_same i new ms) ≡ has_provider k ms
unfolding replace_same same_id
has_provider-replace_same i new [] k e = refl
has_provider-replace_same i new (m ∷ ms) k e =
    ground (arith, has_provider-replace_same i new ms k, eq_iff m.id i, e)

pub has_task-replace_same :
    (i : String) (new old : Manifest) (ms : List Manifest) (k : String)
    → find_same i ms ≡ some old
    → has_task k (replace_same i new ms) ≡ false
    → (names k new.tasks ≡ false) × ((names k old.tasks ≡ true) ⊎ (has_task k ms ≡ false))
unfolding replace_same find_same same_id
has_task-replace_same i new old [] k f h = cc
has_task-replace_same i new old (m ∷ ms) k f h = elim (Bool-cases (m.id == i)) [
  | inl here ↦ (ground (arith, here), ground (arith, here))
  | inr there ↦
      let (a, b) =
        has_task-replace_same i new old ms k (ground (arith, there)) (ground (arith, there)) in
      (a, ground (arith, there, b))
]

pub Stamped-replace_same :
    (s i : String) (new : Manifest) (ms : List Manifest)
    → new.sid ≡ some s
    → Stamped s ms
    → Stamped s (replace_same i new ms)
unfolding replace_same
Stamped-replace_same s i new [] e st = tt
Stamped-replace_same s i new (m ∷ ms) e st = ground (arith, Stamped-replace_same s i new ms e st.1)

pub stamp_of_found :
    (s i : String) (ms : List Manifest) (old : Manifest)
    → find_same i ms ≡ some old
    → Stamped s ms
    → (old.sid ≡ some s) × (old.id ≡ i)
unfolding find_same same_id
stamp_of_found s i [] old f st = cc
stamp_of_found s i (m ∷ ms) old f st = elim (Bool-cases (m.id == i)) [
  | inl here ↦ (ground (arith, here), ground (arith, here, eq_iff m.id i))
  | inr there ↦ stamp_of_found s i ms old (ground (arith, there)) st.1
]

pub provider_index-reindex :
    (sid i : String) (new old : Manifest) (r : Registry) (k : String)
    → new.id ≡ i
    → old.id ≡ i
    → get (index_manifest sid new (unindex_manifest old r)).provider_index k
      ≡ (if truthy i && i == k then some sid else get r.provider_index k)
unfolding index_manifest unindex_manifest
provider_index-reindex sid i new old r k e f = ground (
  arith,
  e,
  f,
  get-set (unindex_manifest old r).provider_index new.id sid k,
  get-pop r.provider_index old.id k,
  eq_iff new.id k,
  eq_iff old.id k,
  eq_iff i k,
)

pub task_index-reindex :
    (sid : String) (new old : Manifest) (r : Registry) (k : String)
    → old.sid ≡ some sid
    → get (index_manifest sid new (unindex_manifest old r)).task_index k ≡ (
        if names k new.tasks
        then some sid
        else if names k old.tasks && opt_eq (get r.task_index k) (some sid)
        then none
        else get r.task_index k)
unfolding index_manifest unindex_manifest
task_index-reindex sid new old r k e = ground (
  arith,
  e,
  get-index_tasks sid new.tasks (unindex_manifest old r).task_index k,
  get-unindex_tasks old.sid old.tasks r.task_index k,
)

pub has_provider_of_found :
    (i : String) (ms : List Manifest) (old : Manifest)
    → find_same i ms ≡ some old
    → truthy i ≡ true
    → has_provider i ms ≡ true
unfolding find_same same_id
has_provider_of_found i [] old f t = cc
has_provider_of_found i (m ∷ ms) old f t =
    ground (arith, has_provider_of_found i ms old, eq_iff m.id i)
