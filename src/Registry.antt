-- ===== src/Registry.antt =====
-- `ProviderRegistry` of elab_server/state_stores/provider_registry.py: the manifests of each
-- session, the lookup indices from provider and task ids to sessions, and the decoders.
-- Every method runs under the one lock of the context, so a call is one step.
pub mod Reindex
pub mod Refresh
pub mod Index
pub mod Invariant
pub mod Update
pub mod Owners
use elab_core.Prelude.{
  ℕ, String, Bool, true, false, not, Option, none, some, List, [], ◌∷◌, ◌++◌, map, ◌==◌, ◌&&◌, ◌||◌,
  truthy, opt_eq, or_else, is_some, any, keep, length, nat_eq, if◌then◌else◌,
}
use elab_core.Prelude.Dict.{Dict, get, set, pop}
use elab_core.Prelude.TextSet.{TextSet, add}
use elab_core.Manifest.{DecoderConfig, Task, Manifest, is_persist_capable}
use elab_core.ConfigStore.{ConfigStore, TaskConfig, no_config, get_task_config}

-- A decoder instance is the configuration that it was built from.
pub record Registry : Type 0 where
  pub providers : Dict (List Manifest)
  pub decoders : Dict DecoderConfig
  pub provider_index : Dict String
  pub task_index : Dict String

abbrev pub empty : Registry
empty = record { providers = []; decoders = []; provider_index = []; task_index = [] }

abbrev pub or_nil {ℓ} : {A : Type ℓ} → Option (List A) → List A
or_nil none = []
or_nil (some l) = l

-- `self.providers.get(sid, [])`
abbrev pub registered : Registry → String → List Manifest
registered r sid = or_nil (get r.providers sid)

-- The loops over `providers.values()` visit these manifests, in this order.
unfoldable pub manifests : Dict (List Manifest) → List Manifest
manifests [] = []
manifests ((_, l) ∷ d) = l ++ manifests d

unfoldable pub index_tasks : String → List Task → Dict String → Dict String
index_tasks sid [] idx = idx
index_tasks sid (t ∷ ts) idx = index_tasks sid ts (if truthy t.id then set idx t.id sid else idx)

unfoldable pub unindex_tasks : Option String → List Task → Dict String → Dict String
unindex_tasks owner [] idx = idx
unindex_tasks owner (t ∷ ts) idx =
    unindex_tasks owner ts
      (if truthy t.id && opt_eq (get idx t.id) owner then pop idx t.id else idx)

unfoldable pub index_manifest : String → Manifest → Registry → Registry
index_manifest sid m r = record r {
  provider_index = if truthy m.id then set r.provider_index m.id sid else r.provider_index;
  task_index = index_tasks sid m.tasks r.task_index;
}

-- Only entries that still point at the manifest's own session are removed.
unfoldable pub unindex_manifest : Manifest → Registry → Registry
unindex_manifest m r = record r {
  provider_index =
      if truthy m.id && opt_eq (get r.provider_index m.id) m.sid
      then pop r.provider_index m.id
      else r.provider_index;
  task_index = unindex_tasks m.sid m.tasks r.task_index;
}

unfoldable pub drop_decoders : List Task → Dict DecoderConfig → Dict DecoderConfig
drop_decoders [] d = d
drop_decoders (t ∷ ts) d = drop_decoders ts (if truthy t.id then pop d t.id else d)

-- the loop that takes replaced, dropped or disconnected manifests out of the indices
unfoldable pub unregister_all : List Manifest → Registry → Registry
unregister_all [] r = r
unregister_all (m ∷ ms) r =
    let s = unindex_manifest m r in
    unregister_all ms (record s { decoders = drop_decoders m.tasks s.decoders })

-- `DecoderRegistry.get_decoder`: one decoder class is registered
abbrev pub is_known_decoder : String → Bool
is_known_decoder type = type == "generic_binary"

-- A configuration whose decoder cannot be built, which the code skips, is left out.
unfoldable pub add_decoder : Task → Dict DecoderConfig → Dict DecoderConfig
add_decoder t d = elim t.decoder [
  | none ↦ d
  | some c ↦ if is_known_decoder c.type && truthy t.id then set d t.id c else d
]

-- `_build_decoders` followed by `decoders.update`: a later task's decoder takes the place of an
-- earlier one's in both.
unfoldable pub install_decoders : List Task → Dict DecoderConfig → Dict DecoderConfig
install_decoders [] d = d
install_decoders (t ∷ ts) d = install_decoders ts (add_decoder t d)

-- the session that owns an id, of either kind
unfoldable pub owner_of : Registry → String → Option String
owner_of r k = or_else (get r.provider_index k) (get r.task_index k)

unfoldable pub is_foreign : String → Option String → Bool
is_foreign sid none = false
is_foreign sid (some o) = not (o == sid)

abbrev pub task_ids : List Task → List String
task_ids = map (λ t. t.id)

unfoldable pub find_id_conflicts : String → Manifest → Registry → List String
unfolding owner_of is_foreign
find_id_conflicts sid m r =
    keep (λ c. truthy c && is_foreign sid (owner_of r c)) (m.id ∷ task_ids m.tasks)

abbrev pub to_set : List String → TextSet
to_set [] = []
to_set (k ∷ ks) = add (to_set ks) k

abbrev pub has_duplicates : List String → Bool
has_duplicates ids = not (nat_eq (length (to_set ids)) (length ids))

abbrev pub is_nil {ℓ} : {A : Type ℓ} → List A → Bool
is_nil [] = true
is_nil (x ∷ xs) = false

unfoldable pub same_id : String → Manifest → Bool
same_id k p = p.id == k

-- the locked part of `add_provider`
unfoldable pub store_manifest : String → ℕ → Manifest → Registry → Registry
store_manifest sid now m r =
    let stamped = record m { sid = some sid; connected_at = some now } in
    let old = registered r sid in
    let cleared = unregister_all (keep (same_id m.id) old) r in
    let kept = keep (λ p. not (same_id m.id p)) old in
    let indexed =
      index_manifest sid stamped
        (record cleared { providers = set cleared.providers sid (kept ++ (stamped ∷ [])) }) in
    record indexed { decoders = install_decoders m.tasks indexed.decoders }

-- `schema_ok` is the validation by the jsonschema package.
unfoldable pub add_provider : (Manifest → Bool) → String → ℕ → Manifest → Registry → Registry × Bool
add_provider schema_ok sid now m r =
    if not (schema_ok m)
    then (r, false)
    else if has_duplicates (keep truthy (task_ids m.tasks))
    then (r, false)
    else if not (is_nil (find_id_conflicts sid m r))
    then (r, false)
    else (store_manifest sid now m r, true)

unfoldable pub pop_provider : String → Registry → Registry × List Manifest
pop_provider sid r =
    let gone = registered r sid in
    (unregister_all gone (record r { providers = pop r.providers sid }), gone)

unfoldable pub pop_manifest : String → String → Registry → Registry × List Manifest
pop_manifest sid manifest_id r =
    if is_some (get r.providers sid)
    then (let dropped = keep (same_id manifest_id) (registered r sid) in
        let cleared = unregister_all dropped r in
        let kept = keep (λ p. not (same_id manifest_id p)) (registered r sid) in
        (record cleared { providers = set cleared.providers sid kept }, dropped))
    else (r, [])

unfoldable pub find_provider_sid : Registry → String → Option String
find_provider_sid r k =
    if truthy k then or_else (get r.provider_index k) (get r.task_index k) else none

unfoldable pub has_sid : Registry → String → Bool
has_sid r sid = is_some (get r.providers sid)

unfoldable pub find_task : String → List Task → Option Task
find_task k [] = none
find_task k (t ∷ ts) = if t.id == k then some t else find_task k ts

unfoldable pub find_task_in : String → List Manifest → Option Task
find_task_in k [] = none
find_task_in k (m ∷ ms) = or_else (find_task k m.tasks) (find_task_in k ms)

unfoldable pub get_task : Registry → String → Option Task
get_task r k = find_task_in k (manifests r.providers)

-- Is `k` the manifest's own id or that of one of its tasks?
abbrev pub owns : String → Manifest → Bool
owns k m = m.id == k || any (λ t. t.id == k) m.tasks

unfoldable pub find_owner : String → List Manifest → Option Manifest
find_owner k [] = none
find_owner k (m ∷ ms) = if owns k m then some m else find_owner k ms

pub get_provider_manifest : Registry → String → Option Manifest
get_provider_manifest r k = find_owner k (manifests r.providers)
