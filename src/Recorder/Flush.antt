-- ===== src/Recorder/Flush.antt =====
-- What a flush does to the buffer and to the table of events.
use elab_core.Prelude.{
  ℕ, String, Bool, true, false, Option, none, some, List, [], ◌∷◌, ◌++◌, ◌≡◌, ◌∙◌, sym, ap, refl,
  ◌&&◌, leb, take, arith, append_assoc, append-nil, Bool-cases, Option-cases, zero, suc, inl, inr,
}
use elab_core.Recorder.{
  Row, Tables, Connection, Fault, fine, fails_after, rolls_back, Recorder, Disk, insert_all,
  execute_many, commit, insert_source, insert_row, commit_rows, flush_rows, flush_sources, is_empty,
  flush_locked,
}

-- the rows that are in the table or wait in the buffer
abbrev pub seen : Connection → List Row → List Row
seen c rows = c.working.session_log ++ rows

-- All the rows of the session so far, while the database is open.
pub log_view : Recorder → Option (List Row)
log_view r = elim r.conn [ none ↦ none | some c ↦ some (seen c r.buffer) ]

pub view_open :
    (r : Recorder) (c : Connection) → r.conn ≡ some c → log_view r ≡ some (seen c r.buffer)
unfolding log_view
view_open r c h = ground (arith, h)

-- The fault leaves no row half-way: there is none, or it comes before the first row.
unfoldable pub is_atomic : Fault → Bool
is_atomic fine = true
is_atomic (fails_after n) = leb n 0
is_atomic rolls_back = false

unfoldable pub is_kept : Fault → Bool
is_kept fine = true
is_kept (fails_after n) = true
is_kept rolls_back = false

-- No statement rolls the transaction back, and the insertion of events is atomic.
abbrev pub is_gentle : Disk → Bool
is_gentle d = is_kept d.sources_fault && is_atomic d.log_fault && is_kept d.commit_fault

pub rows_log :
    (rows : List Row) (t : Tables)
    → (insert_all insert_row rows t).session_log ≡ t.session_log ++ rows
unfolding insert_all insert_row
rows_log [] t = sym (append-nil t.session_log)
rows_log (x ∷ xs) t = rows_log xs (insert_row x t) ∙ append_assoc t.session_log (x ∷ []) xs

-- A statement on another table.
pub insert_all-keeps {ℓ} :
    {A : Type ℓ} (insert : A → Tables → Tables)
    → ((x : A) (t : Tables) → (insert x t).session_log ≡ t.session_log)
    → (xs : List A) (t : Tables) → (insert_all insert xs t).session_log ≡ t.session_log
unfolding insert_all
insert_all-keeps insert keeps [] t = refl
insert_all-keeps insert keeps (x ∷ xs) t = insert_all-keeps insert keeps xs (insert x t) ∙ keeps x t

pub execute-keeps {ℓ} :
    {A : Type ℓ} (insert : A → Tables → Tables)
    → ((x : A) (t : Tables) → (insert x t).session_log ≡ t.session_log)
    → (f : Fault) (xs : List A) (c : Connection) → is_kept f ≡ true
    → (execute_many f insert xs c).0.working.session_log ≡ c.working.session_log
unfolding execute_many is_kept
execute-keeps insert keeps fine xs c h = insert_all-keeps insert keeps xs c.working
execute-keeps insert keeps (fails_after n) xs c h =
    insert_all-keeps insert keeps (take n xs) c.working
execute-keeps insert keeps rolls_back xs c h = ground (arith, h)

pub sources_log :
    (xs : List (String × (String × ℕ))) (t : Tables)
    → (insert_all insert_source xs t).session_log ≡ t.session_log
unfolding insert_source
sources_log = insert_all-keeps insert_source (λ (sid, e) t. refl)

source_step :
    (f : Fault) (xs : List (String × (String × ℕ))) (c : Connection)
    → is_kept f ≡ true
    → (execute_many f insert_source xs c).0.working.session_log ≡ c.working.session_log
unfolding insert_source
source_step = execute-keeps insert_source (λ (sid, e) t. refl)

pub commit_step :
    (f : Fault) (c : Connection)
    → is_kept f ≡ true
    → (commit f c).0.working.session_log ≡ c.working.session_log
unfolding commit is_kept
commit_step fine c h = refl
commit_step (fails_after n) c h = refl
commit_step rolls_back c h = ground (arith, h)

pub nothing_buffered :
    (rows : List Row) (c : Connection) → is_empty rows ≡ true → seen c rows ≡ c.working.session_log
unfolding is_empty
nothing_buffered [] c h = append-nil c.working.session_log
nothing_buffered (x ∷ xs) c h = ground (arith, h)

view_commit_rows :
    (d : Disk) (c : Connection) (r : Recorder)
    → is_kept d.commit_fault ≡ true
    → log_view (commit_rows d c r) ≡ some c.working.session_log
unfolding log_view commit_rows
view_commit_rows d c r h = ground (
  arith,
  commit_step d.commit_fault c h,
  append-nil (commit d.commit_fault c).0.working.session_log,
)

-- An insertion of events, with the commit after it if it succeeds.
insert_step :
    (f : Fault) (rows : List Row) (c : Connection)
    → is_atomic f ≡ true
    → let (c', ok) = execute_many f insert_row rows c in
      (ok ≡ true → c'.working.session_log ≡ seen c rows)
      × (ok ≡ false → c'.working.session_log ≡ c.working.session_log)
unfolding execute_many is_atomic insert_all
insert_step fine rows c h = (λ _. rows_log rows c.working, λ e. ground (arith, e))
insert_step (fails_after zero) rows c h = (λ e. ground (arith, e), λ _. refl)
insert_step (fails_after (suc n)) rows c h = ground (arith, h)
insert_step rolls_back rows c h = ground (arith, h)

view_flush_rows :
    (d : Disk) (c : Connection) (r : Recorder)
    → is_atomic d.log_fault ≡ true
    → is_kept d.commit_fault ≡ true
    → log_view (flush_rows d c r) ≡ some (seen c r.buffer)
unfolding flush_rows
view_flush_rows d c r a k = elim (Bool-cases (is_empty r.buffer)) [
  | inl e ↦ ground (arith, e, nothing_buffered r.buffer c e, view_commit_rows d c r k)
  | inr e ↦ elim (Bool-cases (execute_many d.log_fault insert_row r.buffer c).1) [
    | inl ok ↦
        let log = (insert_step d.log_fault r.buffer c a).0 ok in
        let c' = (execute_many d.log_fault insert_row r.buffer c).0 in
        ground (arith, e, ok, log, view_commit_rows d c' r k)
    | inr failed ↦
        let log = (insert_step d.log_fault r.buffer c a).1 failed in
        let c' = (execute_many d.log_fault insert_row r.buffer c).0 in
        ground (arith, e, failed, log, view_open (record r { conn = some c' }) c' refl)
  ]
]

view_flush_sources :
    (d : Disk) (c : Connection) (r : Recorder)
    → is_gentle d ≡ true
    → log_view (flush_sources d c r) ≡ some (seen c r.buffer)
unfolding flush_sources
view_flush_sources d c r g =
    let a : is_atomic d.log_fault ≡ true = ground (arith, g) in
    let k : is_kept d.commit_fault ≡ true = ground (arith, g) in
    let c' = (execute_many d.sources_fault insert_source r.pending_sources c).0 in
    let log = source_step d.sources_fault r.pending_sources c (ground (arith, g)) in
    let kept : seen c' r.buffer ≡ seen c r.buffer = ap (λ rows. rows ++ r.buffer) log in
    elim (Bool-cases (is_empty r.pending_sources)) [
      | inl e ↦ ground (arith, e, view_flush_rows d c r a k)
      | inr e ↦
          elim (Bool-cases (execute_many d.sources_fault insert_source r.pending_sources c).1) [
            | inl ok ↦
                ground
                  (arith, e, ok, kept, view_flush_rows d c' (record r { pending_sources = [] }) a k)
            | inr failed ↦
                ground (arith, e, failed, kept, view_open (record r { conn = some c' }) c' refl)
          ]
    ]

pub view_flush :
    (d : Disk) (r : Recorder) (rows : List Row)
    → is_gentle d ≡ true
    → log_view r ≡ some rows
    → log_view (flush_locked d r) ≡ some rows
unfolding flush_locked
view_flush d r rows g h = elim (Option-cases r.conn) [
  | inl e ↦ ground (arith, e, h)
  | inr (c, e) ↦
      let same = view_open r c e in
      let after = view_flush_sources d c r g in
      elim (Bool-cases (is_empty r.buffer && is_empty r.pending_sources)) [
        | inl idle ↦ ground (arith, e, idle, h)
        | inr busy ↦ ground (arith, e, busy, h, same, after)
      ]
]

pub opened :
    (r : Recorder) (rows : List Row)
    → log_view r ≡ some rows
    → (c : Connection) × (r.conn ≡ some c) × (seen c r.buffer ≡ rows)
unfolding log_view
opened r rows h = elim (Option-cases r.conn) [
  | inl e ↦ absurd (ground (arith, e, h))
  | inr (c, e) ↦ (c, e, ground (arith, e, h))
]
