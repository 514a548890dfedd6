-- ===== src/State/Groups.antt =====
-- Group exclusivity: what a permission means for the tasks that are active.
use elab_core.Prelude.{
  String, ◌≡◌, Bool, true, false, not, some, List, [], ◌∷◌, ◌==◌, truthy, any, arith, eq_iff,
  Option-cases, Bool-cases, inl, inr, ◌↔◌,
}
use elab_core.Manifest.{Task, Manifest}
use elab_core.Registry.{manifests, find_task}
use elab_core.State.{
  State, group_of, group_text, first_with_task, clashes, slot_tasks, exclusive,
  check_group_exclusivity,
}

-- Is the task one of these, and of another group?
abbrev pub ConflictsWith : List Task → String → String → Type 0
ConflictsWith tasks group active =
    (t : Task) × (find_task active tasks ≡ some t) × ((group_of t == group) ≡ false)

-- `a` is active in one of the slots.
abbrev pub is_active : String → List String → Bool
is_active a = any (λ b. b == a)

clashes_complete :
    (tasks : List Task) (group : String) (actives : List String) (a : String) (t : Task)
    → clashes tasks group actives ≡ false
    → is_active a actives ≡ true
    → find_task a tasks ≡ some t
    → group_of t ≡ group
unfolding clashes
clashes_complete tasks group [] a t h i f = cc
clashes_complete tasks group (b ∷ rest) a t h i f = elim (Option-cases (find_task b tasks)) [
  | inl e ↦
      clashes_complete tasks group rest a t (ground (arith, e, h))
        (ground (arith, e, f, eq_iff b a)) f
  | inr (u, e) ↦ ground (
    arith,
    e,
    h,
    i,
    f,
    eq_iff b a,
    eq_iff (group_of u) group,
    clashes_complete tasks group rest a t,
  )
]

clashes_sound :
    (tasks : List Task) (group : String) (actives : List String)
    → clashes tasks group actives ≡ true
    → (a : String) × (is_active a actives ≡ true) × ConflictsWith tasks group a
unfolding clashes
clashes_sound tasks group [] h = cc
clashes_sound tasks group (b ∷ rest) h = elim (Option-cases (find_task b tasks)) [
  | inl e ↦
      let (a, i, w) = clashes_sound tasks group rest (ground (arith, e, h)) in
      (a, ground (arith, i), w)
  | inr (u, e) ↦ elim (Bool-cases (group_of u == group)) [
    | inl same ↦
        let (a, i, w) = clashes_sound tasks group rest (ground (arith, e, h, same)) in
        (a, ground (arith, i), w)
    | inr other ↦ (b, ground (arith, eq_iff b b), (u, e, other))
  ]
]

module _ (task_id : String) (s : State) (m : Manifest) (requested : Task)
    (owner : first_with_task task_id (manifests s.registry.providers) ≡ some m)
    (found : find_task task_id m.tasks ≡ some requested)
    (grouped : any (λ (t : Task). truthy (group_text t.group)) m.tasks ≡ true) where
  allowed-eq-not-clashes :
      check_group_exclusivity task_id s
      ≡ not (clashes m.tasks (group_of requested) (slot_tasks s.active_tasks_by_slot))
  unfolding check_group_exclusivity exclusive
  allowed-eq-not-clashes = ground (arith, owner, found, grouped)

  -- For a provider with groups: a task may be dispatched exactly when every task of that provider
  -- that is active in a slot belongs to the group of the task.
  pub check_group_exclusivity_lem : (check_group_exclusivity task_id s ≡ true) ↔ (
      (a : String) (t : Task)
      → is_active a (slot_tasks s.active_tasks_by_slot) ≡ true
      → find_task a m.tasks ≡ some t
      → group_of t ≡ group_of requested)
  check_group_exclusivity_lem = (
    λ h a t.
        clashes_complete m.tasks (group_of requested) (slot_tasks s.active_tasks_by_slot) a t
          (ground (arith, h, allowed-eq-not-clashes)),
    λ all.
        elim (Bool-cases
          (clashes m.tasks (group_of requested) (slot_tasks s.active_tasks_by_slot))) [
            | inl clash ↦
                let (a, i, (t, f, other)) =
                  clashes_sound m.tasks (group_of requested) (slot_tasks s.active_tasks_by_slot)
                    clash in
                absurd
                  (ground (arith, all a t i f, other, eq_iff (group_of t) (group_of requested)))
            | inr free ↦ ground (arith, free, allowed-eq-not-clashes)
          ],
  )
