-- ===== src/Recorder/Lifecycle.antt =====
-- A recording from its start to its end, and the file that it leaves.
use elab_core.Prelude.{
  take, String, some, List, [], ◌∷◌, ◌≡◌, ◌∙◌, sym, refl, arith, subst, if_lem, Option-cases, inl,
  inr, eq_iff,
}
use elab_core.Prelude.Dict.{get, get-set}
use elab_core.State.{State}
use elab_core.Recorder.{
  Row, Tables, Connection, Fault, fine, fails_after, rolls_back, Recorder, execute_many, commit,
}
use elab_core.Recorder.Session.{
  Formats, StartClock, BoundsFaults, prepared, write_time_bounds, bound_session, store_bounds,
  close, insert_manifest, insert_manifests, insert_meta, time_bounds, manifests_to_store,
}
use elab_core.Recorder.Flush.{insert_all-keeps}
use elab_core.Recorder.Settled.{Settled}

-- Another table.
meta_keeps : (x : String × String) (t : Tables) → (insert_meta x t).session_log ≡ t.session_log
unfolding insert_meta
meta_keeps (key, value) t = refl

manifests_keep :
    (ms : List (String × String)) (t : Tables) → (insert_manifests ms t).session_log ≡ t.session_log
unfolding insert_manifests insert_manifest
manifests_keep [] t = refl
manifests_keep ((pid, text) ∷ ms) t =
    manifests_keep ms (insert_manifest (pid, text) t) ∙ ground arith

pub prepared_keeps :
    (f : Formats) (k : StartClock) (s : State) (t : Tables)
    → (prepared f k s t).session_log ≡ t.session_log
unfolding prepared insert_meta
prepared_keeps f k s t = manifests_keep (manifests_to_store f s.active_tasks_by_slot s []) (
    insert_meta ("created_at_ms", f.show k.created_at)
      (insert_meta ("origin", "recorded") (insert_meta ("schema_version", "1") t)))

-- A connection with these rows, on disk and in the transaction.
record Holds (c : Connection) (rows : List Row) : Type 0 where
  on_disk : c.committed.session_log ≡ rows
  in_transaction : c.working.session_log ≡ rows

meta-Holds :
    (fault : Fault) (xs : List (String × String)) (c : Connection) (rows : List Row)
    → Holds c rows
    → Holds (execute_many fault insert_meta xs c).0 rows
unfolding execute_many
meta-Holds fine xs c rows h = record {
  on_disk = h.on_disk;
  in_transaction = insert_all-keeps insert_meta meta_keeps xs c.working ∙ h.in_transaction;
}
meta-Holds (fails_after n) xs c rows h = record {
  on_disk = h.on_disk;
  in_transaction = insert_all-keeps insert_meta meta_keeps (take n xs) c.working ∙ h.in_transaction;
}
meta-Holds rolls_back xs c rows h = record { on_disk = h.on_disk; in_transaction = h.on_disk }

commit-Holds :
    (fault : Fault) (c : Connection) (rows : List Row)
    → Holds c rows
    → Holds (commit fault c).0 rows
unfolding commit
commit-Holds fine c rows h = record {
  on_disk = h.in_transaction;
  in_transaction = h.in_transaction;
}
commit-Holds (fails_after n) c rows h = h
commit-Holds rolls_back c rows h = record { on_disk = h.on_disk; in_transaction = h.on_disk }

bounds-Holds :
    (f : Formats) (b : BoundsFaults) (c : Connection) (rows : List Row)
    → Holds c rows
    → Holds (bound_session f b c) rows
unfolding bound_session store_bounds
bounds-Holds f b c rows h = elim (Option-cases (time_bounds c.working.session_log)) [
  | inl e ↦ subst (λ c'. Holds c' rows) (sym (ground (arith, e))) h
  | inr ((first, last), e) ↦
      let done =
        execute_many b.insert_fault insert_meta
          (("session_start_ms", f.show first) ∷ ("session_end_ms", f.show last) ∷ []) c in
      let h' = meta-Holds b.insert_fault _ c rows h in
      subst (λ c'. Holds c' rows) (sym (ground (arith, e)))
        (if_lem (λ c'. Holds c' rows) done.1 (commit b.commit_fault done.0).0 done.0
          (λ _. commit-Holds b.commit_fault done.0 rows h') (λ _. h'))
]

-- The file after the recorder has written the bounds and closed it.
pub closed :
    (f : Formats) (b : BoundsFaults) (r : Recorder) (rows : List Row)
    → Settled r rows
    → (t : Tables) × (get (close (write_time_bounds f b r)).files r.db_path ≡ some t)
      × (t.session_log ≡ rows)
unfolding close write_time_bounds
closed f b r rows settled =
    let c = settled.connection in
    let h =
      bounds-Holds f b c rows
        (record { on_disk = settled.on_disk; in_transaction = settled.in_transaction }) in
    let c' = bound_session f b c in
    let there = settled.conn in
    (
      c'.committed,
      ground (
        arith,
        there,
        get-set r.files r.db_path c'.committed r.db_path,
        eq_iff r.db_path r.db_path,
      ),
      h.on_disk,
    )
