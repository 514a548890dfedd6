-- ===== src/Registry/Update.antt =====
-- `update_provider_manifest`: what it keeps, and what it lets a session take.
use elab_core.Prelude.{
  ℕ, String, ◌≡◌, Option, none, some, ◌==◌, ◌&&◌, truthy, opt_eq, if◌then◌else◌, arith, eq_iff,
  opt_eq_iff, inl, inr, Option-cases,
}
use elab_core.Prelude.Dict.{get, get-set}
use elab_core.Manifest.{Manifest, names}
use elab_core.ConfigStore.{ConfigStore}
use elab_core.Registry.{Registry, registered, index_manifest, unindex_manifest}
use elab_core.Registry.Invariant.{IsConsistent}
use elab_core.Registry.Refresh.{find_same, replace_same, refreshed, update_provider_manifest}
use elab_core.Registry.Reindex.{
  refreshed_fields, names-refreshed, has_provider-replace_same, has_task-replace_same,
  Stamped-replace_same, stamp_of_found, provider_index-reindex, task_index-reindex,
  has_provider_of_found,
}

module _ (store : Option ConfigStore) (sid : String) (now : ℕ) (m old : Manifest) (r : Registry)
    (found : find_same m.id (registered r sid) ≡ some old) where
  abbrev after : Registry
  after = (update_provider_manifest store sid now m r).0

  registered-after :
      (s : String)
      → registered after s ≡ (
          if sid == s
          then replace_same m.id (refreshed store sid now m old) (registered r sid)
          else registered r s)
  unfolding update_provider_manifest index_manifest unindex_manifest
  registered-after s = ground (
    arith,
    found,
    get-set r.providers sid (replace_same m.id (refreshed store sid now m old) (registered r sid))
        s,
  )

  module _ (c : IsConsistent r) where
    found_fields : (old.sid ≡ some sid) × (old.id ≡ m.id)
    found_fields = stamp_of_found sid m.id (registered r sid) old found (c.stamped sid)

    provider_index-after :
        (k : String)
        → get after.provider_index k
          ≡ (if truthy m.id && m.id == k then some sid else get r.provider_index k)
    unfolding update_provider_manifest
    provider_index-after k = ground (
      arith,
      found,
      provider_index-reindex sid m.id (refreshed store sid now m old) old r k
          (refreshed_fields store sid now m old).0 found_fields.1,
    )

    task_index-after :
        (k : String)
        → get after.task_index k ≡ (
            if names k m.tasks
            then some sid
            else if names k old.tasks && opt_eq (get r.task_index k) (some sid)
            then none
            else get r.task_index k)
    unfolding update_provider_manifest
    task_index-after k = ground (
      arith,
      found,
      task_index-reindex sid (refreshed store sid now m old) old r k found_fields.0,
      names-refreshed store sid now m old k,
    )

    replaced-IsConsistent : IsConsistent after
    replaced-IsConsistent =
        let mine = registered r sid in
        let new = refreshed store sid now m old in
        let (new_id, new_sid) = refreshed_fields store sid now m old in
        record {
          stamped = λ s. rw (registered-after s) (
              ground (
                arith,
                c.stamped s,
                Stamped-replace_same sid m.id new mine new_sid (c.stamped sid),
                eq_iff sid s,
              ));
          provider_exact = λ s k. rw (registered-after s) (
              ground (
                arith,
                provider_index-after k,
                has_provider-replace_same m.id new mine k new_id,
                has_provider_of_found m.id mine old found,
                c.provider_exact s k,
                c.provider_exact sid k,
                eq_iff sid s,
                eq_iff m.id k,
                opt_eq_iff (get r.provider_index k) (some s),
                opt_eq_iff (get r.provider_index k) (some sid),
              ));
          task_sound = λ s k h. rw (registered-after s) (
              ground (
                arith,
                h,
                task_index-after k,
                names-refreshed store sid now m old k,
                has_task-replace_same m.id new old mine k found,
                c.task_sound s k,
                eq_iff sid s,
                opt_eq_iff (get r.task_index k) (some sid),
              ));
        }

refused :
    (store : Option ConfigStore) (sid : String) (now : ℕ) (m : Manifest) (r : Registry)
    → find_same m.id (registered r sid) ≡ none
    → (update_provider_manifest store sid now m r).0 ≡ r
unfolding update_provider_manifest
refused store sid now m r e = ground (arith, e)

-- `update_provider_manifest` keeps the invariant.
pub update_provider_manifest-IsConsistent :
    (store : Option ConfigStore) (sid : String) (now : ℕ) (m : Manifest) {r : Registry}
    → IsConsistent r
    → IsConsistent (update_provider_manifest store sid now m r).0
update_provider_manifest-IsConsistent store sid now m {r} c =
    elim (Option-cases (find_same m.id (registered r sid))) [
      | inl e ↦ rw (refused store sid now m r e) c
      | inr (old, e) ↦ replaced-IsConsistent store sid now m old r e c
    ]
