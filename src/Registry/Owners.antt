-- ===== src/Registry/Owners.antt =====
-- Who owns an id, and what routing finds.
use elab_core.Prelude.{
  ℕ, String, ◌≡◌, Bool, true, false, none, some, List, ◌==◌, ◌&&◌, ◌||◌, truthy, opt_eq, keep,
  if◌then◌else◌, arith, eq_iff, opt_eq_iff, ◌≢◌,
}
use elab_core.Prelude.Dict.{get, pop, get-set}
use elab_core.Manifest.{Manifest, names, has_provider, has_task}
use elab_core.Registry.{
  Registry, registered, index_manifest, unregister_all, same_id, store_manifest, add_provider,
  pop_provider, find_provider_sid, find_id_conflicts, is_nil, is_foreign, owner_of,
}
use elab_core.Registry.Index.{
  Stamped-keep, get-index_tasks, provider_index-unregister_all, task_index-unregister_all,
}
use elab_core.Registry.Invariant.{
  IsConsistent, provider_not_foreign, task_not_foreign, not-foreign-provider,
}

-- No two sessions hold a provider of one id.
pub provider_owner_unique :
    {r : Registry} (s t k : String)
    → IsConsistent r
    → has_provider k (registered r s) ≡ true
    → has_provider k (registered r t) ≡ true
    → s ≡ t
provider_owner_unique {r} s t k c p q = ground (
  arith,
  c.provider_exact s k,
  c.provider_exact t k,
  opt_eq_iff (get r.provider_index k) (some s),
  opt_eq_iff (get r.provider_index k) (some t),
)

-- A provider that a session holds is found under its id.
pub find_provider_sid_of_held :
    {r : Registry} (s k : String)
    → IsConsistent r
    → truthy k ≡ true
    → has_provider k (registered r s) ≡ true
    → find_provider_sid r k ≡ some s
unfolding find_provider_sid
find_provider_sid_of_held {r} s k c t h =
    ground (arith, c.provider_exact s k, opt_eq_iff (get r.provider_index k) (some s))

-- Routing leads only to a session that holds the id, as a provider's or a task's.
pub find_provider_sid_sound :
    {r : Registry} (s k : String)
    → IsConsistent r
    → find_provider_sid r k ≡ some s
    → (has_provider k (registered r s) || has_task k (registered r s)) ≡ true
unfolding find_provider_sid
find_provider_sid_sound {r} s k c h =
    ground
      (arith, c.provider_exact s k, c.task_sound s k, opt_eq_iff (get r.provider_index k) (some s))

-- an id that is routed to another session is foreign
foreign_of_route :
    (sid k s : String) (r : Registry)
    → (sid == s) ≡ false
    → find_provider_sid r k ≡ some s
    → is_foreign sid (owner_of r k) ≡ true
unfolding find_provider_sid is_foreign owner_of
foreign_of_route sid k s r ne h = ground (arith, ne, h, eq_iff sid s, eq_iff s sid)

module _ (schema_ok : Manifest → Bool) (sid : String) (now : ℕ) (m : Manifest) {r : Registry}
    (c : IsConsistent r) (accepted : (add_provider schema_ok sid now m r).1 ≡ true) where
  abbrev added : Registry
  added = (add_provider schema_ok sid now m r).0

  -- what acceptance means
  no_conflict : is_nil (find_id_conflicts sid m r) ≡ true
  unfolding add_provider
  no_conflict = ground (arith, accepted)

  added_is_stored : added ≡ store_manifest sid now m r
  unfolding add_provider
  added_is_stored = ground (arith, accepted)

  gone : List Manifest
  gone = keep (same_id m.id) (registered r sid)

  provider_index-added :
      (k : String)
      → get added.provider_index k ≡ (
          if truthy m.id && m.id == k
          then some sid
          else if has_provider k gone && opt_eq (get r.provider_index k) (some sid)
          then none
          else get r.provider_index k)
  unfolding store_manifest index_manifest gone
  provider_index-added k = rw added_is_stored (
      ground (
        arith,
        get-set (unregister_all gone r).provider_index m.id sid k,
        provider_index-unregister_all sid gone r k
            (Stamped-keep sid (same_id m.id) (registered r sid) (c.stamped sid)),
      ))

  task_index-added :
      (k : String)
      → get added.task_index k ≡ (
          if names k m.tasks
          then some sid
          else if has_task k gone && opt_eq (get r.task_index k) (some sid)
          then none
          else get r.task_index k)
  unfolding store_manifest index_manifest gone
  task_index-added k = rw added_is_stored (
      ground (
        arith,
        get-index_tasks sid m.tasks (unregister_all gone r).task_index k,
        task_index-unregister_all sid gone r k
            (Stamped-keep sid (same_id m.id) (registered r sid) (c.stamped sid)),
      ))

  -- After an accepted registration the provider's id and the id of each of its tasks are routed
  -- to the session that registered them.
  pub add_provider-routes :
      (k : String)
      → truthy k ≡ true
      → (m.id == k || names k m.tasks) ≡ true
      → find_provider_sid added k ≡ some sid
  unfolding find_provider_sid
  add_provider-routes k t h = ground (
    arith,
    provider_index-added k,
    task_index-added k,
    task_not_foreign sid m r k no_conflict,
    not-foreign-provider sid k r,
    eq_iff m.id k,
  )

  -- A registration that is accepted changes no route to another session.
  pub add_provider-keeps_routes :
      (k s : String)
      → (sid == s) ≡ false
      → find_provider_sid r k ≡ some s
      → find_provider_sid added k ≡ some s
  unfolding find_provider_sid
  add_provider-keeps_routes k s ne h = ground (
    arith,
    provider_index-added k,
    task_index-added k,
    task_not_foreign sid m r k no_conflict,
    provider_not_foreign sid m r no_conflict,
    foreign_of_route sid k s r ne h,
    eq_iff m.id k,
    opt_eq_iff (get r.provider_index k) (some sid),
    opt_eq_iff (get r.task_index k) (some sid),
    eq_iff sid s,
  )

-- The end of a session leaves no route to it, and every route to another session as it was.
pub pop_provider-routes :
    {r : Registry} (sid k : String)
    → IsConsistent r
    → let r' = (pop_provider sid r).0 in
      (find_provider_sid r' k ≢ some sid)
      × ((s : String)
          → (sid == s) ≡ false
          → find_provider_sid r k ≡ some s
          → find_provider_sid r' k ≡ some s)
unfolding pop_provider find_provider_sid
pop_provider-routes {r} sid k c =
    let gone = registered r sid in
    let r' = record r { providers = pop r.providers sid } in
    let p = provider_index-unregister_all sid gone r' k (c.stamped sid) in
    let t = task_index-unregister_all sid gone r' k (c.stamped sid) in
    (
      λ h. ground (
        arith,
        p,
        t,
        h,
        c.provider_exact sid k,
        c.task_sound sid k,
        opt_eq_iff (get r.provider_index k) (some sid),
        opt_eq_iff (get r.task_index k) (some sid),
      ),
      λ s ne h. ground (
        arith,
        p,
        t,
        h,
        ne,
        eq_iff sid s,
        opt_eq_iff (get r.provider_index k) (some sid),
        opt_eq_iff (get r.task_index k) (some sid),
      ),
    )
