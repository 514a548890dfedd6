-- ===== src/Registry/Index.antt =====
-- What the index loops of the registry leave in the indices, as one equation for each lookup.
use elab_core.Prelude.{
  String, ◌≡◌, refl, Bool, false, not, Option, none, some, List, [], ◌∷◌, ◌++◌, ◌==◌, ◌&&◌, ◌||◌,
  truthy, opt_eq, keep, if◌then◌else◌, arith, eq_iff, inl, inr, Option-cases,
}
use elab_core.Prelude.Dict.{Dict, get, set, pop, get-set, get-pop}
use elab_core.Manifest.{DecoderConfig, Task, Manifest, names, has_provider, has_task}
use elab_core.Registry.{
  Registry, index_tasks, unindex_tasks, unindex_manifest, drop_decoders, unregister_all, same_id,
  add_decoder, install_decoders,
}

pub get-index_tasks :
    (sid : String) (ts : List Task) (idx : Dict String) (k : String)
    → get (index_tasks sid ts idx) k ≡ (if names k ts then some sid else get idx k)
unfolding index_tasks
get-index_tasks sid [] idx k = refl
get-index_tasks sid (t ∷ ts) idx k = ground (
  arith,
  get-index_tasks sid ts (if truthy t.id then set idx t.id sid else idx) k,
  get-set idx t.id sid k,
)

pub get-unindex_tasks :
    (owner : Option String) (ts : List Task) (idx : Dict String) (k : String)
    → get (unindex_tasks owner ts idx) k
      ≡ (if names k ts && opt_eq (get idx k) owner then none else get idx k)
unfolding unindex_tasks
get-unindex_tasks owner [] idx k = refl
get-unindex_tasks owner (t ∷ ts) idx k = ground (
  arith,
  get-unindex_tasks owner ts
      (if truthy t.id && opt_eq (get idx t.id) owner then pop idx t.id else idx) k,
  get-pop idx t.id k,
  eq_iff t.id k,
)

pub get-drop_decoders :
    (ts : List Task) (d : Dict DecoderConfig) (k : String)
    → get (drop_decoders ts d) k ≡ (if names k ts then none else get d k)
unfolding drop_decoders
get-drop_decoders [] d k = refl
get-drop_decoders (t ∷ ts) d k =
    ground (arith, get-drop_decoders ts (if truthy t.id then pop d t.id else d) k, get-pop d t.id k)

-- the manifests of one session, as the registry stamps them
abbrev pub Stamped : String → List Manifest → Type 0
Stamped s [] = Unit
Stamped s (m ∷ ms) = (m.sid ≡ some s) × Stamped s ms

-- Taking the manifests of one session out removes the entries that point at that session, and
-- no entry of another session.
pub provider_index-unregister_all :
    (s : String) (ms : List Manifest) (r : Registry) (k : String)
    → Stamped s ms
    → get (unregister_all ms r).provider_index k ≡ (
        if has_provider k ms && opt_eq (get r.provider_index k) (some s)
        then none
        else get r.provider_index k)
unfolding unregister_all unindex_manifest
provider_index-unregister_all s [] r k st = refl
provider_index-unregister_all s (m ∷ ms) r k st =
    let u = unindex_manifest m r in
    let r' = record u { decoders = drop_decoders m.tasks u.decoders } in
    ground (
      arith,
      provider_index-unregister_all s ms r' k st.1,
      get-pop r.provider_index m.id k,
      eq_iff m.id k,
    )

pub task_index-unregister_all :
    (s : String) (ms : List Manifest) (r : Registry) (k : String)
    → Stamped s ms
    → get (unregister_all ms r).task_index k
      ≡ (if has_task k ms && opt_eq (get r.task_index k) (some s) then none else get r.task_index k)
unfolding unregister_all unindex_manifest
task_index-unregister_all s [] r k st = refl
task_index-unregister_all s (m ∷ ms) r k st =
    let u = unindex_manifest m r in
    let r' = record u { decoders = drop_decoders m.tasks u.decoders } in
    ground (
      arith,
      task_index-unregister_all s ms r' k st.1,
      get-unindex_tasks m.sid m.tasks r.task_index k,
      st.0,
    )

pub decoders-unregister_all :
    (ms : List Manifest) (r : Registry) (k : String)
    → get (unregister_all ms r).decoders k ≡ (if has_task k ms then none else get r.decoders k)
unfolding unregister_all unindex_manifest
decoders-unregister_all [] r k = refl
decoders-unregister_all (m ∷ ms) r k =
    let u = unindex_manifest m r in
    let r' = record u { decoders = drop_decoders m.tasks u.decoders } in
    ground (arith, decoders-unregister_all ms r' k, get-drop_decoders m.tasks r.decoders k)

pub providers-unregister_all :
    (ms : List Manifest) (r : Registry) → (unregister_all ms r).providers ≡ r.providers
unfolding unregister_all unindex_manifest
providers-unregister_all [] r = refl
providers-unregister_all (m ∷ ms) r =
    let u = unindex_manifest m r in
    providers-unregister_all ms (record u { decoders = drop_decoders m.tasks u.decoders })

-- Filtering a session's manifests by id.
pub has_provider-keep_others :
    (k i : String) (ms : List Manifest)
    → has_provider k (keep (λ p. not (same_id i p)) ms) ≡ (not (i == k) && has_provider k ms)
unfolding same_id
has_provider-keep_others k i [] = ground arith
has_provider-keep_others k i (m ∷ ms) =
    ground (arith, has_provider-keep_others k i ms, eq_iff m.id i, eq_iff m.id k, eq_iff i k)

pub has_provider-keep_same :
    (k i : String) (ms : List Manifest)
    → has_provider k (keep (same_id i) ms) ≡ (i == k && has_provider k ms)
unfolding same_id
has_provider-keep_same k i [] = ground arith
has_provider-keep_same k i (m ∷ ms) =
    ground (arith, has_provider-keep_same k i ms, eq_iff m.id i, eq_iff m.id k, eq_iff i k)

pub has_task-split :
    (k : String) (p : Manifest → Bool) (ms : List Manifest)
    → has_task k ms ≡ (has_task k (keep p ms) || has_task k (keep (λ m. not (p m)) ms))
has_task-split k p [] = refl
has_task-split k p (m ∷ ms) = ground (arith, has_task-split k p ms)

pub Stamped-keep :
    (s : String) (p : Manifest → Bool) (ms : List Manifest) → Stamped s ms → Stamped s (keep p ms)
Stamped-keep s p [] st = tt
Stamped-keep s p (m ∷ ms) st = ground (arith, Stamped-keep s p ms st.1)

pub Stamped-append :
    (s : String) (ms : List Manifest) (m : Manifest)
    → Stamped s ms
    → m.sid ≡ some s
    → Stamped s (ms ++ (m ∷ []))
Stamped-append s [] m st e = (e, tt)
Stamped-append s (x ∷ ms) m st e = (st.0, Stamped-append s ms m st.1 e)

add_decoder_other :
    (t : Task) (d : Dict DecoderConfig) (k : String)
    → (truthy t.id && t.id == k) ≡ false
    → get (add_decoder t d) k ≡ get d k
unfolding add_decoder
add_decoder_other t d k h = elim (Option-cases t.decoder) [
  | inl e ↦ ground (arith, e)
  | inr (c, e) ↦ ground (arith, e, get-set d t.id c k)
]

-- Decoders are installed under the ids of the tasks only.
pub get-install_decoders :
    (ts : List Task) (d : Dict DecoderConfig) (k : String)
    → names k ts ≡ false
    → get (install_decoders ts d) k ≡ get d k
unfolding install_decoders
get-install_decoders [] d k h = refl
get-install_decoders (t ∷ ts) d k h =
    ground (arith, get-install_decoders ts (add_decoder t d) k, add_decoder_other t d k)
