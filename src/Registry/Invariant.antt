-- ===== src/Registry/Invariant.antt =====
-- The registry's invariant, that the indices agree with the manifests, under each method.
use elab_core.Prelude.{
  ℕ, String, ◌≡◌, refl, Bool, true, false, not, none, some, List, [], ◌∷◌, ◌++◌, ◌==◌, ◌&&◌, truthy,
  opt_eq, keep, arith, eq_iff, opt_eq_iff, any-append, inl, inr, Option-cases, Bool-cases, ◌⊎◌,
}
use elab_core.Prelude.Dict.{get, pop, get-set, get-pop}
use elab_core.Manifest.{Task, Manifest, names, has_provider, has_task}
use elab_core.Registry.{
  Registry, empty, registered, index_manifest, unregister_all, same_id, store_manifest,
  add_provider, pop_provider, pop_manifest, find_id_conflicts, is_nil, is_foreign, owner_of,
  task_ids,
}
use elab_core.Registry.Index.{
  Stamped, Stamped-keep, Stamped-append, get-index_tasks, provider_index-unregister_all,
  task_index-unregister_all, providers-unregister_all, has_provider-keep_others,
  has_provider-keep_same, has_task-split,
}

pub record IsConsistent (r : Registry) : Type 0 where
  -- what a session holds bears its stamp
  pub stamped : (s : String) → Stamped s (registered r s)
  -- the provider index maps an id to a session exactly when that session holds the id
  pub provider_exact :
      (s k : String) → opt_eq (get r.provider_index k) (some s) ≡ has_provider k (registered r s)
  -- an entry of the task index names a session with such a task
  pub task_sound : (s k : String) → get r.task_index k ≡ some s → has_task k (registered r s) ≡ true

pub empty-IsConsistent : IsConsistent empty
unfolding get
empty-IsConsistent = record {
  stamped = λ s. tt;
  provider_exact = λ s k. refl;
  task_sound = λ s k h. cc;
}

-- `pop_provider` keeps the invariant.
pub pop_provider-IsConsistent :
    (sid : String) {r : Registry} → IsConsistent r → IsConsistent (pop_provider sid r).0
unfolding pop_provider
pop_provider-IsConsistent sid {r} c =
    let gone = registered r sid in
    let r' = record r { providers = pop r.providers sid } in
    record {
      stamped = λ s.
          ground (arith, providers-unregister_all gone r', get-pop r.providers sid s, c.stamped s);
      provider_exact = λ s k. ground (
        arith,
        providers-unregister_all gone r',
        get-pop r.providers sid s,
        provider_index-unregister_all sid gone r' k (c.stamped sid),
        c.provider_exact s k,
        c.provider_exact sid k,
        eq_iff sid s,
        opt_eq_iff (get r.provider_index k) (some s),
        opt_eq_iff (get r.provider_index k) (some sid),
      );
      task_sound = λ s k h. ground (
        arith,
        providers-unregister_all gone r',
        get-pop r.providers sid s,
        task_index-unregister_all sid gone r' k (c.stamped sid),
        c.task_sound s k,
        eq_iff sid s,
        opt_eq_iff (get r.task_index k) (some sid),
      );
    }

-- `pop_manifest` keeps the invariant.
pub pop_manifest-IsConsistent :
    (sid manifest_id : String) {r : Registry}
    → IsConsistent r
    → IsConsistent (pop_manifest sid manifest_id r).0
unfolding pop_manifest
pop_manifest-IsConsistent sid i {r} c =
    let old = registered r sid in
    let dropped = keep (same_id i) old in
    let kept = keep (λ p. not (same_id i p)) old in
    let gone = Stamped-keep sid (same_id i) old (c.stamped sid) in
    record {
      stamped = λ s. ground (
        arith,
        get-set (unregister_all dropped r).providers sid kept s,
        providers-unregister_all dropped r,
        c.stamped s,
        eq_iff sid s,
        Stamped-keep sid (λ p. not (same_id i p)) old (c.stamped sid),
      );
      provider_exact = λ s k. ground (
        arith,
        get-set (unregister_all dropped r).providers sid kept s,
        providers-unregister_all dropped r,
        provider_index-unregister_all sid dropped r k gone,
        has_provider-keep_others k i old,
        has_provider-keep_same k i old,
        c.provider_exact s k,
        c.provider_exact sid k,
        eq_iff sid s,
        opt_eq_iff (get r.provider_index k) (some s),
        opt_eq_iff (get r.provider_index k) (some sid),
      );
      task_sound = λ s k h. ground (
        arith,
        get-set (unregister_all dropped r).providers sid kept s,
        providers-unregister_all dropped r,
        task_index-unregister_all sid dropped r k gone,
        has_task-split k (same_id i) old,
        c.task_sound s k,
        eq_iff sid s,
        opt_eq_iff (get r.task_index k) (some sid),
      );
    }

-- No id of an accepted manifest belongs to another session.
pub provider_not_foreign :
    (sid : String) (m : Manifest) (r : Registry)
    → is_nil (find_id_conflicts sid m r) ≡ true
    → truthy m.id ≡ true
    → is_foreign sid (owner_of r m.id) ≡ false
unfolding find_id_conflicts
provider_not_foreign sid m r h t = ground arith

task_not_foreign_from :
    (p : String → Bool) (k : String) (ts : List Task)
    → is_nil (keep (λ c. truthy c && p c) (task_ids ts)) ≡ true
    → names k ts ≡ true
    → p k ≡ false
task_not_foreign_from p k [] h n = cc
task_not_foreign_from p k (t ∷ ts) h n = ground (arith, task_not_foreign_from p k ts, eq_iff t.id k)

is_nil-keep-tail :
    (p : String → Bool) (c : String) (cs : List String)
    → is_nil (keep p (c ∷ cs)) ≡ true
    → is_nil (keep p cs) ≡ true
is_nil-keep-tail p c cs h = ground arith

pub task_not_foreign :
    (sid : String) (m : Manifest) (r : Registry) (k : String)
    → is_nil (find_id_conflicts sid m r) ≡ true
    → names k m.tasks ≡ true
    → is_foreign sid (owner_of r k) ≡ false
unfolding find_id_conflicts
task_not_foreign sid m r k h =
    task_not_foreign_from (λ c. is_foreign sid (owner_of r c)) k m.tasks
      (is_nil-keep-tail (λ c. truthy c && is_foreign sid (owner_of r c)) m.id (task_ids m.tasks) h)

-- a provider id that is not foreign is the session's own, or free
pub not-foreign-provider :
    (sid k : String) (r : Registry)
    → is_foreign sid (owner_of r k) ≡ false
    → (get r.provider_index k ≡ none) ⊎ (get r.provider_index k ≡ some sid)
unfolding is_foreign owner_of
not-foreign-provider sid k r h = elim (Option-cases (get r.provider_index k)) [
  | inl e ↦ inl e
  | inr (o, e) ↦ inr (ground (arith, e, h, eq_iff o sid))
]

store_manifest-IsConsistent :
    (sid : String) (now : ℕ) (m : Manifest) {r : Registry}
    → IsConsistent r
    → is_nil (find_id_conflicts sid m r) ≡ true
    → IsConsistent (store_manifest sid now m r)
unfolding store_manifest index_manifest
store_manifest-IsConsistent sid now m {r} c free =
    let old = registered r sid in
    let dropped = keep (same_id m.id) old in
    let kept = keep (λ p. not (same_id m.id p)) old in
    let fresh = record m { sid = some sid; connected_at = some now } in
    let gone = Stamped-keep sid (same_id m.id) old (c.stamped sid) in
    let cleared = unregister_all dropped r in
    record {
      stamped = λ s. ground (
        arith,
        get-set cleared.providers sid (kept ++ (fresh ∷ [])) s,
        providers-unregister_all dropped r,
        c.stamped s,
        eq_iff sid s,
        Stamped-append sid kept fresh
            (Stamped-keep sid (λ p. not (same_id m.id p)) old (c.stamped sid)) refl,
      );
      provider_exact = λ s k. ground (
        arith,
        get-set cleared.providers sid (kept ++ (fresh ∷ [])) s,
        providers-unregister_all dropped r,
        get-set cleared.provider_index m.id sid k,
        provider_index-unregister_all sid dropped r k gone,
        any-append (λ (p : Manifest). truthy p.id && p.id == k) kept (fresh ∷ []),
        has_provider-keep_others k m.id old,
        has_provider-keep_same k m.id old,
        provider_not_foreign sid m r free,
        not-foreign-provider sid k r,
        c.provider_exact s k,
        c.provider_exact sid k,
        eq_iff sid s,
        eq_iff m.id k,
        opt_eq_iff (get r.provider_index k) (some s),
        opt_eq_iff (get r.provider_index k) (some sid),
      );
      task_sound = λ s k h. ground (
        arith,
        get-set cleared.providers sid (kept ++ (fresh ∷ [])) s,
        providers-unregister_all dropped r,
        get-index_tasks sid m.tasks cleared.task_index k,
        task_index-unregister_all sid dropped r k gone,
        any-append (λ (p : Manifest). names k p.tasks) kept (fresh ∷ []),
        has_task-split k (same_id m.id) old,
        c.task_sound s k,
        eq_iff sid s,
        opt_eq_iff (get r.task_index k) (some sid),
      );
    }

-- `add_provider` keeps the invariant, whether it accepts or refuses.
pub add_provider-IsConsistent :
    (schema_ok : Manifest → Bool) (sid : String) (now : ℕ) (m : Manifest) {r : Registry}
    → IsConsistent r
    → IsConsistent (add_provider schema_ok sid now m r).0
unfolding add_provider
add_provider-IsConsistent schema_ok sid now m {r} c =
    elim (Bool-cases (is_nil (find_id_conflicts sid m r))) [
      | inl free ↦ ground (arith, free, store_manifest-IsConsistent sid now m c free, c)
      | inr taken ↦ ground (arith, taken, c)
    ]
