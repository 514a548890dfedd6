-- ===== src/State/Shared.antt =====
-- Changing registered manifests in place: what a change of fields keeps.
use elab_core.Prelude.{
  String, ◌≡◌, refl, Option, none, some, List, [], ◌∷◌, map, if◌then◌else◌, arith, eq_iff, ap, ◌∙◌,
}
use elab_core.Prelude.Dict.{get-set}
use elab_core.Manifest.{Task, Manifest, names, has_provider, has_task, resolve_device_id}
use elab_core.ConfigStore.{ConfigStore, get_device_config}
use elab_core.Registry.{Registry, registered, same_id}
use elab_core.Registry.Index.{Stamped}
use elab_core.Registry.Invariant.{IsConsistent}
use elab_core.State.{change_registered, apply_stored_config, apply_stored_device_config}
use elab_core.Registry.Refresh.{override_tasks, override_manifest}

-- A change of a manifest that leaves its ids and its stamp alone.
pub record IsHarmless (f : Manifest → Manifest) : Type 0 where
  pub id : (m : Manifest) → (f m).id ≡ m.id
  pub sid : (m : Manifest) → (f m).sid ≡ m.sid
  pub tasks : (k : String) (m : Manifest) → names k (f m).tasks ≡ names k m.tasks

module _ (f : Manifest → Manifest) (h : IsHarmless f) (i : String) where
  changed : Manifest → Manifest
  changed m = if same_id i m then f m else m

  changed-id : (m : Manifest) → (changed m).id ≡ m.id
  unfolding changed
  changed-id m = ground (arith, h.id m)

  changed-sid : (m : Manifest) → (changed m).sid ≡ m.sid
  unfolding changed
  changed-sid m = ground (arith, h.sid m)

  changed-tasks : (k : String) (m : Manifest) → names k (changed m).tasks ≡ names k m.tasks
  unfolding changed
  changed-tasks k m = ground (arith, h.tasks k m)

  has_provider-changed :
      (k : String) (ms : List Manifest) → has_provider k (map changed ms) ≡ has_provider k ms
  has_provider-changed k [] = refl
  has_provider-changed k (m ∷ ms) = ground (arith, has_provider-changed k ms, changed-id m)

  has_task-changed : (k : String) (ms : List Manifest) → has_task k (map changed ms) ≡ has_task k ms
  has_task-changed k [] = refl
  has_task-changed k (m ∷ ms) = ground (arith, has_task-changed k ms, changed-tasks k m)

  Stamped-changed : (s : String) (ms : List Manifest) → Stamped s ms → Stamped s (map changed ms)
  Stamped-changed s [] st = tt
  Stamped-changed s (m ∷ ms) st = (ground (arith, changed-sid m, st.0), Stamped-changed s ms st.1)

  -- A harmless change of registered manifests keeps the registry's invariant.
  pub change_registered-IsConsistent :
      (sid : String) {r : Registry} → IsConsistent r → IsConsistent (change_registered sid i f r)
  unfolding change_registered changed
  change_registered-IsConsistent sid {r} c =
      let new = map changed (registered r sid) in
      record {
        stamped = λ s. ground (
          arith,
          get-set r.providers sid new s,
          c.stamped s,
          eq_iff sid s,
          Stamped-changed sid (registered r sid) (c.stamped sid),
        );
        provider_exact = λ s k. ground (
          arith,
          get-set r.providers sid new s,
          c.provider_exact s k,
          eq_iff sid s,
          has_provider-changed k (registered r sid),
        );
        task_sound = λ s k g. ground (
          arith,
          g,
          get-set r.providers sid new s,
          c.task_sound s k,
          eq_iff sid s,
          has_task-changed k (registered r sid),
        );
      }

names-override_tasks :
    (store : Option ConfigStore) (k : String) (ts : List Task)
    → names k (override_tasks store ts) ≡ names k ts
unfolding override_tasks
names-override_tasks store k [] = refl
names-override_tasks store k (t ∷ ts) = ground (arith, names-override_tasks store k ts)

apply_stored_config-IsHarmless :
    (store : Option ConfigStore) → IsHarmless (λ m. apply_stored_config m store)
unfolding apply_stored_config override_manifest
apply_stored_config-IsHarmless store = record {
  id = λ m. ground arith;
  sid = λ m. ground arith;
  tasks = λ k m. ground (arith, names-override_tasks store k m.tasks);
}

name_only :
    (c : ConfigStore) (m : Manifest) (o : Option String)
    → get_device_config c (resolve_device_id m) ≡ o
    → ((apply_stored_device_config (some c) m).id ≡ m.id)
      × ((apply_stored_device_config (some c) m).sid ≡ m.sid)
      × ((apply_stored_device_config (some c) m).tasks ≡ m.tasks)
unfolding apply_stored_device_config
name_only c m none e = (ground (arith, e), ground (arith, e), ground (arith, e))
name_only c m (some n) e = (ground (arith, e), ground (arith, e), ground (arith, e))

apply_stored_device_config-IsHarmless :
    (store : Option ConfigStore) → IsHarmless (apply_stored_device_config store)
unfolding apply_stored_device_config
apply_stored_device_config-IsHarmless none = record {
  id = λ m. refl;
  sid = λ m. refl;
  tasks = λ k m. refl;
}
apply_stored_device_config-IsHarmless (some c) = record {
  id = λ m. (name_only c m _ refl).0;
  sid = λ m. (name_only c m _ refl).1;
  tasks = λ k m. ap (names k) (name_only c m _ refl).2;
}

-- Applying the stored configuration changes no id and no stamp.
pub stored-IsHarmless :
    (store : Option ConfigStore)
    → IsHarmless (λ m. apply_stored_device_config store (apply_stored_config m store))
stored-IsHarmless store =
    let a = apply_stored_config-IsHarmless store in
    let b = apply_stored_device_config-IsHarmless store in
    record {
      id = λ m. b.id (apply_stored_config m store) ∙ a.id m;
      sid = λ m. b.sid (apply_stored_config m store) ∙ a.sid m;
      tasks = λ k m. b.tasks k (apply_stored_config m store) ∙ a.tasks k m;
    }
