-- ===== src/Links.antt =====
-- `ActuatorLinkRegistry` of elab_server/state_stores/actuator_links.py: from a data source to the
-- set of the actuators that it feeds.
pub mod Laws
use elab_core.Prelude.{
  String, Bool, true, false, Option, none, some, List, [], ◌∷◌, map, ◌&&◌, truthy, if◌then◌else◌,
}
use elab_core.Prelude.Dict.{Dict, get, set, pop}
use elab_core.Prelude.TextSet.{TextSet, has, add, discard, minus}
use elab_core.Manifest.{Task, Manifest}
use elab_core.Registry.{or_nil, is_nil}

abbrev pub Links : Type 0
Links = Dict TextSet

pub add_actuator_link : String → String → Links → Links
add_actuator_link source_id actuator_id links =
    if truthy source_id && truthy actuator_id
    then set links source_id (add (or_nil (get links source_id)) actuator_id)
    else links

-- a set that has become empty loses its entry
pub store_targets : String → TextSet → Links → Links
store_targets source_id targets links =
    if is_nil targets then pop links source_id else set links source_id targets

pub remove_actuator_link : String → String → Links → Links
unfolding store_targets
remove_actuator_link source_id actuator_id links =
    let targets = or_nil (get links source_id) in
    if is_nil targets then links else store_targets source_id (discard targets actuator_id) links

pub get_actuator_links : String → Links → TextSet
get_actuator_links source_id links = or_nil (get links source_id)

pub gone_tasks : List Task → TextSet → TextSet
gone_tasks [] gone = gone
gone_tasks (t ∷ ts) gone = gone_tasks ts (if truthy t.id then add gone t.id else gone)

-- the ids of the removed providers and of their tasks
pub gone_ids : List Manifest → TextSet → TextSet
gone_ids [] gone = gone
gone_ids (m ∷ ms) gone =
    gone_ids ms (gone_tasks m.tasks (if truthy m.id then add gone m.id else gone))

pub pop_all : TextSet → Links → Links
pop_all [] links = links
pop_all (k ∷ ks) links = pop_all ks (pop links k)

-- `targets -= gone` for one source
pub sweep_source : TextSet → String → Links → Links
sweep_source gone src links = elim (get links src) [
  | none ↦ links
  | some targets ↦ store_targets src (minus targets gone) links
]

pub sweep : TextSet → List String → Links → Links
sweep gone [] links = links
sweep gone (src ∷ rest) links = sweep gone rest (sweep_source gone src links)

abbrev sources : Links → List String
sources = map (λ e. e.0)

pub purge_for : List Manifest → Links → Links
purge_for providers links =
    let gone = gone_ids providers [] in
    let left = pop_all gone links in sweep gone (sources left) left
