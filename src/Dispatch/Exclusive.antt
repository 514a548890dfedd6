-- ===== src/Dispatch/Exclusive.antt =====
-- Task groups under assignment and removal.
use elab_core.Prelude.{
  String, ◌≡◌, refl, Bool, true, false, Option, none, some, List, [], ◌∷◌, ◌==◌, ◌||◌, truthy, any,
  arith, eq_iff, Option-cases, Bool-cases, inl, inr, ◌⊎◌,
}
use elab_core.Prelude.Dict.{Dict, set, pop}
use elab_core.Manifest.{Task, Manifest}
use elab_core.Registry.{manifests, find_task, get_provider_manifest, find_provider_sid}
use elab_core.State.{
  State, group_of, group_text, first_with_task, slot_tasks, check_group_exclusivity, emit,
}
use elab_core.State.Groups.{is_active, check_group_exclusivity_lem}
use elab_core.Dispatch.{
  handle_task_assigned, handle_task_unassigned, forward_start, send_start, record_call,
}

-- Does one of the tasks belong to a group?
abbrev pub is_grouped : Manifest → Bool
is_grouped m = any (λ t. truthy (group_text t.group)) m.tasks

-- The active tasks of a provider with groups are of one group.
abbrev pub IsExclusiveFor : List String → Manifest → Type 0
IsExclusiveFor actives m =
    is_grouped m ≡ true
    → (a b : String) (t u : Task) → is_active a actives ≡ true
    → is_active b actives ≡ true
    → find_task a m.tasks ≡ some t
    → find_task b m.tasks ≡ some u
    → group_of t ≡ group_of u

abbrev pub IsExclusive : List String → List Manifest → Type 0
IsExclusive actives [] = Unit
IsExclusive actives (m ∷ ms) = IsExclusiveFor actives m × IsExclusive actives ms

-- None of the manifests has the task.
abbrev pub IsNowhere : String → List Manifest → Type 0
IsNowhere k [] = Unit
IsNowhere k (m ∷ ms) = (find_task k m.tasks ≡ none) × IsNowhere k ms

-- One manifest at most has the task.
abbrev pub IsUnique : String → List Manifest → Type 0
IsUnique k [] = Unit
IsUnique k (m ∷ ms) =
    (((find_task k m.tasks ≡ none) × IsUnique k ms)
      ⊎ ((any (λ t. t.id == k) m.tasks ≡ true) × IsNowhere k ms))

active-set :
    (d : Dict String) (slot k a : String)
    → is_active a (slot_tasks (set d slot k)) ≡ true
    → ((k == a) || is_active a (slot_tasks d)) ≡ true
unfolding set slot_tasks
active-set [] slot k a h = ground (arith, h)
active-set ((j, v) ∷ d) slot k a h = ground (arith, h, active-set d slot k a)

active-pop :
    (d : Dict String) (slot a : String)
    → is_active a (slot_tasks (pop d slot)) ≡ true
    → is_active a (slot_tasks d) ≡ true
unfolding pop slot_tasks
active-pop [] slot a h = h
active-pop ((j, v) ∷ d) slot a h = ground (arith, h, active-pop d slot a)

find_task_of_any :
    (k : String) (ts : List Task)
    → any (λ (t : Task). t.id == k) ts ≡ true
    → (t : Task) × (find_task k ts ≡ some t)
unfolding find_task
find_task_of_any k [] h = cc
find_task_of_any k (t ∷ ts) h = elim (Bool-cases (t.id == k)) [
  | inl here ↦ (t, ground (arith, here))
  | inr there ↦
      let (u, e) = find_task_of_any k ts (ground (arith, h, there)) in (u, ground (arith, there, e))
]

any_of_none :
    (k : String) (ts : List Task) → find_task k ts ≡ none → any (λ (t : Task). t.id == k) ts ≡ false
unfolding find_task
any_of_none k [] h = refl
any_of_none k (t ∷ ts) h = ground (arith, h, any_of_none k ts)

-- `actives'` has no task that is neither `k` nor in `actives`.
abbrev Extends : String → List String → List String → Type 0
Extends k actives actives' =
    (a : String) → is_active a actives' ≡ true → ((k == a) || is_active a actives) ≡ true

module _ (k : String) (actives actives' : List String) (ext : Extends k actives actives') where
  keeps_without :
      (m : Manifest)
      → find_task k m.tasks ≡ none
      → IsExclusiveFor actives m
      → IsExclusiveFor actives' m
  keeps_without m none_here old g a b t u p q f h =
      ground (arith, none_here, old g a b t u, ext a p, ext b q, f, h, eq_iff k a, eq_iff k b)

  keeps_nowhere :
      (ms : List Manifest) → IsNowhere k ms → IsExclusive actives ms → IsExclusive actives' ms
  keeps_nowhere [] n e = tt
  keeps_nowhere (m ∷ ms) n e = (keeps_without m n.0 e.0, keeps_nowhere ms n.1 e.1)

  -- what an accepted assignment means for the provider of the task
  keeps_with :
      (m : Manifest) (requested : Task)
      → find_task k m.tasks ≡ some requested
      → ((a : String) (t : Task)
          → is_active a actives ≡ true
          → find_task a m.tasks ≡ some t
          → group_of t ≡ group_of requested)
      → IsExclusiveFor actives' m
  keeps_with m requested here all g a b t u p q f h =
      ground (arith, here, ext a p, ext b q, f, h, all a t, all b u, eq_iff k a, eq_iff k b)

  keeps_all :
      (ms : List Manifest)
      → IsUnique k ms
      → ((m : Manifest) → first_with_task k ms ≡ some m → IsExclusiveFor actives' m)
      → IsExclusive actives ms
      → IsExclusive actives' ms
  unfolding first_with_task
  keeps_all [] one first e = tt
  keeps_all (m ∷ ms) one first e = elim one [
    | inl (absent, rest) ↦ (
      keeps_without m absent e.0,
      keeps_all ms rest (λ n f. first n (ground (arith, f, any_of_none k m.tasks absent))) e.1,
    )
    | inr (here, rest) ↦ (first m (ground (arith, here)), keeps_nowhere ms rest e.1)
  ]

has_of_first :
    (k : String) (ms : List Manifest) (m : Manifest)
    → first_with_task k ms ≡ some m
    → any (λ (t : Task). t.id == k) m.tasks ≡ true
unfolding first_with_task
has_of_first k [] m h = cc
has_of_first k (n ∷ ms) m h = ground (arith, h, has_of_first k ms m)

accepted :
    (slot k : String) (s : State) (m : Manifest)
    → check_group_exclusivity k s ≡ true
    → first_with_task k (manifests s.registry.providers) ≡ some m
    → IsExclusiveFor (slot_tasks (set s.active_tasks_by_slot slot k)) m
accepted slot k s m ok owner g a b t u p q f h =
    let (requested, here) =
      find_task_of_any k m.tasks (has_of_first k (manifests s.registry.providers) m owner) in
    let all = (check_group_exclusivity_lem k s m requested owner here g).0 ok in
    keeps_with k (slot_tasks s.active_tasks_by_slot)
      (slot_tasks (set s.active_tasks_by_slot slot k))
      (λ c. active-set s.active_tasks_by_slot slot k c) m requested here all g a b t u p q f h

-- The messages of an assignment change neither slots nor registry.
forward_lem :
    (k : String) (o : Option Manifest) (s : State)
    → let t = forward_start k o s in
      (t.active_tasks_by_slot ≡ s.active_tasks_by_slot) × (t.registry ≡ s.registry)
unfolding forward_start send_start emit
forward_lem k none s = (refl, refl)
forward_lem k (some m) s = elim (Option-cases (find_provider_sid s.registry m.id)) [
  | inl e ↦ (ground (arith, e), ground (arith, e))
  | inr (sid, e) ↦ (ground (arith, e), ground (arith, e))
]

-- The active tasks of each provider with groups are of one group.
abbrev pub IsExclusiveState : State → Type 0
IsExclusiveState s =
    IsExclusive (slot_tasks s.active_tasks_by_slot) (manifests s.registry.providers)

-- An assignment keeps the active tasks of each provider with groups of one group, whether it is
-- accepted or rejected, if one provider at most has a task with the id.
pub handle_task_assigned-IsExclusive :
    (ui slot k : String) (s : State)
    → IsUnique k (manifests s.registry.providers)
    → IsExclusiveState s
    → IsExclusiveState (handle_task_assigned ui slot k s)
unfolding handle_task_assigned record_call emit
handle_task_assigned-IsExclusive ui slot k s one old = elim (Bool-cases (truthy k)) [
  | inr bad ↦ rw (bad, handle_task_assigned) old
  | inl real ↦ elim (Bool-cases (check_group_exclusivity k s)) [
    | inr refused ↦ rw (real, refused, handle_task_assigned) old
    | inl ok ↦
        rw (real, ok, handle_task_assigned)
          (rw
            (
              (forward_lem k (get_provider_manifest s.registry k) _).0,
              (forward_lem k (get_provider_manifest s.registry k) _).1,
            )
            (keeps_all k (slot_tasks s.active_tasks_by_slot)
              (slot_tasks (set s.active_tasks_by_slot slot k))
              (λ c. active-set s.active_tasks_by_slot slot k c) (manifests s.registry.providers) one
              (λ m. accepted slot k s m ok) old))
  ]
]

fewer :
    (actives actives' : List String) (ms : List Manifest)
    → ((a : String) → is_active a actives' ≡ true → is_active a actives ≡ true)
    → IsExclusive actives ms
    → IsExclusive actives' ms
fewer actives actives' [] sub e = tt
fewer actives actives' (m ∷ ms) sub e =
    (λ g a b t u p q f h. e.0 g a b t u (sub a p) (sub b q) f h, fewer actives actives' ms sub e.1)

-- Removing a task from its slot keeps the active tasks of each provider with groups of one group.
pub handle_task_unassigned-IsExclusive :
    (slot : String) (s : State)
    → IsExclusiveState s
    → IsExclusiveState (handle_task_unassigned slot s)
unfolding handle_task_unassigned
handle_task_unassigned-IsExclusive slot s old =
    fewer (slot_tasks s.active_tasks_by_slot) (slot_tasks (pop s.active_tasks_by_slot slot))
      (manifests s.registry.providers) (λ a. active-pop s.active_tasks_by_slot slot a) old
