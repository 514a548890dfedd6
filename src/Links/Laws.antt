-- ===== src/Links/Laws.antt =====
-- What each method does to the relation "source feeds actuator".
use elab_core.Prelude.{
  String, ◌≡◌, refl, Bool, true, false, not, none, List, [], ◌∷◌, ◌==◌, ◌&&◌, ◌||◌, truthy,
  if◌then◌else◌, arith, eq_iff, Option-cases, inl, inr,
}
use elab_core.Prelude.Dict.{get, pop, get-set, get-pop}
use elab_core.Prelude.TextSet.{TextSet, has, add, discard, minus, has-add, has-discard, has-minus}
use elab_core.Manifest.{Task, Manifest, names, has_provider, has_task}
use elab_core.Registry.{or_nil, is_nil}
use elab_core.Links.{
  Links, add_actuator_link, store_targets, remove_actuator_link, get_actuator_links, gone_tasks,
  gone_ids, pop_all, sweep_source, sweep, sources, purge_for,
}

-- Does the source feed the actuator?
abbrev pub feeds : Links → String → String → Bool
feeds links s a = has (get_actuator_links s links) a

has-nil : (t : TextSet) (a : String) → is_nil t ≡ true → has t a ≡ false
unfolding has
has-nil [] a h = refl
has-nil (x ∷ t) a h = cc

-- Adding a link adds that pair and no other, and nothing if one of the ids is empty.
pub feeds-add_actuator_link :
    (s a : String) (links : Links) (q b : String)
    → feeds (add_actuator_link s a links) q b
      ≡ ((truthy s && truthy a && s == q && a == b) || feeds links q b)
unfolding add_actuator_link get_actuator_links
feeds-add_actuator_link s a links q b = ground (
  arith,
  get-set links s (add (or_nil (get links s)) a) q,
  has-add (or_nil (get links s)) a b,
  eq_iff s q,
)

has-empty : (a : String) → has [] a ≡ false
unfolding has
has-empty a = refl

feeds-store_targets :
    (s : String) (t : TextSet) (links : Links) (q b : String)
    → feeds (store_targets s t links) q b ≡ (if s == q then has t b else feeds links q b)
unfolding store_targets get_actuator_links
feeds-store_targets s t links q b =
    ground (arith, get-set links s t q, get-pop links s q, has-nil t b, has-empty b)

-- Removing a link removes that pair and no other.
pub feeds-remove_actuator_link :
    (s a : String) (links : Links) (q b : String)
    → feeds (remove_actuator_link s a links) q b ≡ (not (s == q && a == b) && feeds links q b)
unfolding remove_actuator_link get_actuator_links
feeds-remove_actuator_link s a links q b =
    let t = or_nil (get links s) in
    ground (
      arith,
      feeds-store_targets s (discard t a) links q b,
      has-discard t a b,
      has-nil t b,
      eq_iff s q,
    )

has-gone_tasks :
    (ts : List Task) (gone : TextSet) (k : String)
    → has (gone_tasks ts gone) k ≡ (names k ts || has gone k)
unfolding gone_tasks
has-gone_tasks [] gone k = refl
has-gone_tasks (t ∷ ts) gone k =
    ground (
      arith,
      has-gone_tasks ts (if truthy t.id then add gone t.id else gone) k,
      has-add gone t.id k,
    )

has-gone_ids :
    (ms : List Manifest) (gone : TextSet) (k : String)
    → has (gone_ids ms gone) k ≡ (has_provider k ms || has_task k ms || has gone k)
unfolding gone_ids
has-gone_ids [] gone k = refl
has-gone_ids (m ∷ ms) gone k =
    let first = if truthy m.id then add gone m.id else gone in
    ground (
      arith,
      has-gone_ids ms (gone_tasks m.tasks first) k,
      has-gone_tasks m.tasks first k,
      has-add gone m.id k,
    )

get-pop_all :
    (ks : TextSet) (links : Links) (q : String)
    → get (pop_all ks links) q ≡ (if has ks q then none else get links q)
unfolding pop_all has
get-pop_all [] links q = refl
get-pop_all (k ∷ ks) links q = ground (arith, get-pop_all ks (pop links k) q, get-pop links k q)

feeds-sweep_source :
    (gone : TextSet) (s : String) (links : Links) (q b : String)
    → feeds (sweep_source gone s links) q b ≡ (not (s == q && has gone b) && feeds links q b)
unfolding sweep_source get_actuator_links
feeds-sweep_source gone s links q b = elim (Option-cases (get links s)) [
  | inl e ↦ ground (arith, e, eq_iff s q, has-empty b)
  | inr (t, e) ↦
      ground
        (arith, e, feeds-store_targets s (minus t gone) links q b, has-minus t gone b, eq_iff s q)
]

feeds-sweep :
    (gone : TextSet) (ss : List String) (links : Links) (q b : String)
    → feeds (sweep gone ss links) q b ≡ (not (has ss q && has gone b) && feeds links q b)
unfolding sweep has
feeds-sweep gone [] links q b = ground arith
feeds-sweep gone (s ∷ ss) links q b = ground (
  arith,
  feeds-sweep gone ss (sweep_source gone s links) q b,
  feeds-sweep_source gone s links q b,
)

source_of_feeds :
    (links : Links) (q b : String) → feeds links q b ≡ true → has (sources links) q ≡ true
unfolding get_actuator_links has get
source_of_feeds [] q b h = cc
source_of_feeds ((k, t) ∷ links) q b h = ground (arith, source_of_feeds links q b)

-- Purging removed providers drops exactly the links whose source or actuator is the id of one of
-- them or of one of their tasks.
pub feeds-purge_for :
    (ms : List Manifest) (links : Links) (q b : String)
    → let gone = λ (k : String). has_provider k ms || has_task k ms in
      feeds (purge_for ms links) q b ≡ (not (gone q) && not (gone b) && feeds links q b)
unfolding purge_for get_actuator_links
feeds-purge_for ms links q b =
    let gone = gone_ids ms [] in
    let left = pop_all gone links in
    ground (
      arith,
      feeds-sweep gone (sources left) left q b,
      source_of_feeds left q b,
      get-pop_all gone links q,
      has-gone_ids ms [] q,
      has-gone_ids ms [] b,
      has-empty q,
      has-empty b,
    )
