-- ===== src/TaskMeta/Lookup.antt =====
-- What a lookup finds after a change of metadata.
use elab_core.Prelude.{
  String, ◌≡◌, refl, true, false, Option, none, some, List, [], ◌∷◌, ◌++◌, ◌==◌, any, or_else,
  if◌then◌else◌, arith, eq_iff, Option-cases, Bool-cases, inl, inr,
}
use elab_core.Prelude.Dict.{Dict}
use elab_core.Manifest.{Task, Manifest}
use elab_core.Registry.{Registry, manifests, find_task, find_task_in, get_task}
use elab_core.TaskMeta.{
  has_task_id, change_in_tasks, change_in_manifests, change_in_providers, change_task,
}

-- the change applied to a task that was found
abbrev pub on_found : (Task → Task) → Option Task → Option Task
on_found f none = none
on_found f (some t) = some (f t)

module _ (k : String) (f : Task → Task) (same : (t : Task) → (f t).id ≡ t.id) where
  find-change_in_tasks :
      (ts : List Task) (q : String)
      → find_task q (change_in_tasks k f ts)
        ≡ (if k == q then on_found f (find_task q ts) else find_task q ts)
  unfolding find_task change_in_tasks
  find-change_in_tasks [] q = ground arith
  find-change_in_tasks (t ∷ ts) q = ground (
    arith,
    find-change_in_tasks ts q,
    same t,
    eq_iff k q,
    eq_iff t.id k,
    eq_iff t.id q,
    eq_iff (f t).id q,
  )

  none_without : (ts : List Task) → any (λ (t : Task). t.id == k) ts ≡ false → find_task k ts ≡ none
  unfolding find_task
  none_without [] h = refl
  none_without (t ∷ ts) h = ground (arith, h, none_without ts)

  some_with :
      (ts : List Task) (o : Option Task)
      → any (λ (t : Task). t.id == k) ts ≡ true
      → or_else (find_task k ts) o ≡ find_task k ts
  unfolding find_task
  some_with [] o h = cc
  some_with (t ∷ ts) o h = ground (arith, h, some_with ts o)

  changed_here :
      (m : Manifest) (ms : List Manifest)
      → has_task_id k m ≡ true
      → change_in_manifests k f (m ∷ ms) ≡ record m { tasks = change_in_tasks k f m.tasks } ∷ ms
  unfolding change_in_manifests
  changed_here m ms h = rw (h, change_in_manifests) refl

  changed_there :
      (m : Manifest) (ms : List Manifest)
      → has_task_id k m ≡ false
      → change_in_manifests k f (m ∷ ms) ≡ m ∷ change_in_manifests k f ms
  unfolding change_in_manifests
  changed_there m ms h = rw (h, change_in_manifests) refl

  find-change_in_manifests :
      (ms : List Manifest) (q : String)
      → find_task_in q (change_in_manifests k f ms)
        ≡ (if k == q then on_found f (find_task_in q ms) else find_task_in q ms)
  unfolding find_task_in
  find-change_in_manifests [] q = unfold change_in_manifests in ground arith
  find-change_in_manifests (m ∷ ms) q =
      let later = find-change_in_manifests ms q in
      elim (Bool-cases (has_task_id k m)) [
        | inl here ↦ rw (changed_here m ms here) (
            ground (
              arith,
              find-change_in_tasks m.tasks q,
              eq_iff k q,
              some_with m.tasks (find_task_in q ms) here,
              some_with m.tasks none here,
            ))
        | inr there ↦
            rw (changed_there m ms there)
              (ground (arith, later, none_without m.tasks there, eq_iff k q))
      ]

  none_in : (ms : List Manifest) → any (has_task_id k) ms ≡ false → find_task_in k ms ≡ none
  unfolding find_task_in
  none_in [] h = refl
  none_in (m ∷ ms) h = ground (arith, h, none_without m.tasks, none_in ms)

  some_in :
      (ms : List Manifest) (o : Option Task)
      → any (has_task_id k) ms ≡ true
      → or_else (find_task_in k ms) o ≡ find_task_in k ms
  unfolding find_task_in
  some_in [] o h = cc
  some_in (m ∷ ms) o h = elim (Bool-cases (has_task_id k m)) [
    | inl here ↦
        ground (arith, some_with m.tasks (find_task_in k ms) here, some_with m.tasks o here)
    | inr there ↦ ground (arith, h, there, none_without m.tasks there, some_in ms o)
  ]

find-append :
    (q : String) (ms ns : List Manifest)
    → find_task_in q (ms ++ ns) ≡ or_else (find_task_in q ms) (find_task_in q ns)
unfolding find_task_in
find-append q [] ns = refl
find-append q (m ∷ ms) ns = elim (Option-cases (find_task q m.tasks)) [
  | inl e ↦ ground (arith, e, find-append q ms ns)
  | inr (t, e) ↦ ground (arith, e)
]

module _ (k : String) (f : Task → Task) (same : (t : Task) → (f t).id ≡ t.id) where
  providers_here :
      (sid : String) (ms : List Manifest) (d : Dict (List Manifest))
      → any (has_task_id k) ms ≡ true
      → manifests (change_in_providers k f ((sid, ms) ∷ d))
        ≡ change_in_manifests k f ms ++ manifests d
  unfolding change_in_providers manifests
  providers_here sid ms d h = rw (h, change_in_providers) refl

  providers_there :
      (sid : String) (ms : List Manifest) (d : Dict (List Manifest))
      → any (has_task_id k) ms ≡ false
      → manifests (change_in_providers k f ((sid, ms) ∷ d))
        ≡ ms ++ manifests (change_in_providers k f d)
  unfolding change_in_providers manifests
  providers_there sid ms d h = rw (h, change_in_providers) refl

  find-change_in_providers :
      (d : Dict (List Manifest)) (q : String)
      → find_task_in q (manifests (change_in_providers k f d)) ≡ (
          if k == q
          then on_found f (find_task_in q (manifests d))
          else find_task_in q (manifests d))
  unfolding manifests
  find-change_in_providers [] q = unfold find_task_in change_in_providers in ground arith
  find-change_in_providers ((sid, ms) ∷ d) q =
      let later = find-change_in_providers d q in
      elim (Bool-cases (any (has_task_id k) ms)) [
        | inl here ↦ rw (providers_here sid ms d here) (
            ground (
              arith,
              eq_iff k q,
              find-append q (change_in_manifests k f ms) (manifests d),
              find-append q ms (manifests d),
              find-change_in_manifests k f same ms q,
              some_in k f same ms (find_task_in q (manifests d)) here,
              some_in k f same ms none here,
            ))
        | inr there ↦ rw (providers_there sid ms d there) (
            ground (
              arith,
              eq_iff k q,
              later,
              find-append q ms (manifests (change_in_providers k f d)),
              find-append q ms (manifests d),
              none_in k f same ms there,
            ))
      ]

  -- Changing the first task with an id changes what a lookup of that id finds, and what a lookup
  -- of any other id finds stays as it was, if the change leaves the id alone.
  pub get_task-change_task :
      (r : Registry) (q : String)
      → get_task (change_task k f r) q
        ≡ (if k == q then on_found f (get_task r q) else get_task r q)
  unfolding get_task change_task
  get_task-change_task r q = find-change_in_providers r.providers q
