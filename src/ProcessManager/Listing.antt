-- ===== src/ProcessManager/Listing.antt =====
-- The list of scripts that the user interface shows, and the end of the processes.
use elab_core.Prelude.{
  ℕ, String, ◌≡◌, ◌∙◌, ap, sym, refl, Bool, true, false, not, none, List, [], ◌∷◌, ◌++◌, ◌==◌, ◌&&◌,
  ◌||◌, inl, inr, is_some, any, any-append, eq_iff, arith, if◌then◌else◌, if_lem, Option-cases,
  Bool-cases,
}
use elab_core.Prelude.Dict.{Dict, get, get-pop}
use elab_core.ProcessManager.{
  System, Manager, Script, gone, os_error, timeout, StopOutcome, all_dirs, scan_files, scan_dirs,
  scan_scripts, stop_script, after_stop, stop_all, shutdown,
}

abbrev pub distinct : List Script → Bool
distinct [] = true
distinct (s ∷ ss) = not (any (λ x. x.filename == s.filename) ss) && distinct ss

-- Each script says whether there is a process under its name.
abbrev pub flagged : Dict ℕ → List Script → Bool
flagged running [] = true
flagged running (s ∷ ss) =
    (if is_some (get running s.filename) then s.is_running else not s.is_running)
    && flagged running ss

-- The list is free of repetitions, and its flags are right.
abbrev IsListing : Dict ℕ → List Script → Type 0
IsListing running ss = (distinct ss ≡ true) × (flagged running ss ≡ true)

distinct-append :
    (ss : List Script) (s : Script)
    → any (λ x. x.filename == s.filename) ss ≡ false
    → distinct ss ≡ true
    → distinct (ss ++ (s ∷ [])) ≡ true
distinct-append [] s new d = refl
distinct-append (x ∷ xs) s new d = ground (
  arith,
  new,
  d,
  distinct-append xs s,
  any-append (λ y. y.filename == x.filename) xs (s ∷ []),
  eq_iff s.filename x.filename,
  eq_iff x.filename s.filename,
)

flagged-append :
    (running : Dict ℕ) (ss : List Script) (f : String)
    → flagged running ss ≡ true
    → flagged running (ss ++ (record { filename = f; is_running = is_some (get running f) } ∷ []))
      ≡ true
flagged-append running [] f h = ground arith
flagged-append running (x ∷ xs) f h = ground (arith, h, flagged-append running xs f)

files-IsListing :
    (y : System) (running : Dict ℕ) (fs : List String) (ss : List Script)
    → IsListing running ss
    → IsListing running (scan_files y running fs ss)
unfolding scan_files
files-IsListing y running [] ss h = h
files-IsListing y running (f ∷ fs) ss (d, g) =
    let s : Script = record { filename = f; is_running = is_some (get running f) } in
    if_lem (IsListing running)
      (y.is_skipped f
        || any (λ s. s.filename == f) ss
        || y.is_frozen && not (is_some (y.client_exe f)))
      (scan_files y running fs ss) (scan_files y running fs (ss ++ (s ∷ [])))
      (λ _. files-IsListing y running fs ss (d, g))
      (λ kept.
        files-IsListing y running fs (ss ++ (s ∷ []))
          (distinct-append ss s (ground (arith, kept)) d, flagged-append running ss f g))

dirs-IsListing :
    (y : System) (running : Dict ℕ) (ds : List String) (ss : List Script)
    → IsListing running ss
    → IsListing running (scan_dirs y running ds ss)
unfolding scan_dirs
dirs-IsListing y running [] ss h = h
dirs-IsListing y running (d ∷ ds) ss h =
    dirs-IsListing y running ds (if y.exists d then scan_files y running (y.glob d) ss else ss) (
      if_lem (IsListing running) (y.exists d) (scan_files y running (y.glob d) ss) ss
        (λ _. files-IsListing y running (y.glob d) ss h) (λ _. h))

-- The list of scripts names no file twice, also if several directories have it, and says of each whether
-- there is a process under its name.
pub scan_scripts_lem :
    (y : System) (p : Manager)
    → (distinct (scan_scripts y p) ≡ true) × (flagged p.running (scan_scripts y p) ≡ true)
unfolding scan_scripts
scan_scripts_lem y p = dirs-IsListing y p.running (all_dirs p) [] (refl, refl)

-- Does the process end when it is told to?
abbrev pub ends : StopOutcome → Bool
ends gone = true
ends os_error = true
ends timeout = false

after_stop_lem :
    (o : StopOutcome) (filename q : String) (p : Manager)
    → ends o ≡ true
    → get (after_stop o filename p).0.running q ≡ (if filename == q then none else get p.running q)
unfolding after_stop
after_stop_lem gone filename q p h = get-pop p.running filename q
after_stop_lem os_error filename q p h = get-pop p.running filename q
after_stop_lem timeout filename q p h = ground (arith, h)

stop_script_lem :
    (y : System) (filename q : String) (p : Manager)
    → ((pid : ℕ) → ends (y.stops pid) ≡ true)
    → get (stop_script y filename p).0.running q ≡ (if filename == q then none else get p.running q)
unfolding stop_script
stop_script_lem y filename q p h = elim (Option-cases (get p.running filename)) [
  | inl e ↦ elim (Bool-cases (filename == q)) [
    | inl same ↦
        let q' : filename ≡ q = ground (arith, same, eq_iff filename q) in
        ground (arith, e, same, sym (ap (get p.running) q') ∙ e)
    | inr other ↦ ground (arith, e, other)
  ]
  | inr (pid, e) ↦ ground (arith, e, after_stop_lem (y.stops pid) filename q p (h pid))
]

stop_all_lem :
    (y : System) (ps : List (String × ℕ)) (q : String) (p : Manager)
    → ((pid : ℕ) → ends (y.stops pid) ≡ true)
    → get (stop_all y ps p).running q
      ≡ (if any (λ (f, pid). f == q) ps then none else get p.running q)
unfolding stop_all
stop_all_lem y [] q p h = refl
stop_all_lem y ((f, pid) ∷ ps) q p h =
    ground (arith, stop_all_lem y ps q (stop_script y f p).0 h, stop_script_lem y f q p h)

unlisted : (ps : Dict ℕ) (q : String) → any (λ (f, pid). f == q) ps ≡ false → get ps q ≡ none
unfolding get
unlisted [] q h = refl
unlisted ((f, pid) ∷ ps) q h = ground (arith, h, unlisted ps q)

-- After a shutdown no process is kept, if each ends when it is told to.
pub shutdown_lem :
    (y : System) (p : Manager)
    → ((pid : ℕ) → ends (y.stops pid) ≡ true)
    → (filename : String) → get (shutdown y p).running filename ≡ none
unfolding shutdown
shutdown_lem y p h filename =
    ground (arith, stop_all_lem y p.running filename p h, unlisted p.running filename)
