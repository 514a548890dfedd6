-- ===== src/ProcessManager/Starting.antt =====
-- What a start of a script needs, and what it leaves if it fails.
use elab_core.Prelude.{
  ℕ, String, ◌≡◌, true, false, Option, none, some, List, [], ◌∷◌, ◌++◌, ◌==◌, ◌⊎◌, inl, inr, any,
  eq_iff, arith, Option-cases, Bool-cases, truthy, subst,
}
use elab_core.Prelude.Dict.{get, get-set}
use elab_core.Pairing.Tokens.{is_valid_token}
use elab_core.Pairing.{Pairing, issue_auto_approve_token}
use elab_core.ProcessManager.{
  System, Manager, Started, started, not_found, no_binary, all_dirs, accept_in, search_dirs,
  resolve_script_path, issue_token, command_for, spawn, start_path, is_busy, start_script,
}

-- A regular file whose name is allowed and that lies directly in one of the directories.
pub record Allowed (y : System) (p : Manager) (filename path : String) : Type 0 where
  pub valid : y.is_valid_name filename ≡ true
  pub scan_dir : String
  pub is_client_dir : any (λ d. d == scan_dir) (all_dirs p) ≡ true
  pub resolved : path ≡ y.realpath (y.join (y.realpath scan_dir) filename)
  pub direct_child : y.dirname path ≡ y.realpath scan_dir
  pub regular : y.opens path ≡ some true

accept_lem :
    (y : System) (d filename path : String)
    → accept_in y d filename ≡ some path
    → (path ≡ y.realpath (y.join (y.realpath d) filename))
      × (y.dirname path ≡ y.realpath d)
      × (y.opens path ≡ some true)
unfolding accept_in
accept_lem y d filename path h =
    let root = y.realpath d in
    let candidate = y.realpath (y.join root filename) in
    elim (Option-cases (y.opens candidate)) [
      | inl e ↦ absurd (ground (arith, h, e))
      | inr (regular, e) ↦ (
        ground (arith, h, e),
        ground (arith, h, e, eq_iff (y.dirname candidate) root),
        ground (arith, h, e),
      )
    ]

search_lem :
    (y : System) (ds : List String) (filename path : String)
    → search_dirs y ds filename ≡ some path
    → (d : String) × (any (λ x. x == d) ds ≡ true) × (accept_in y d filename ≡ some path)
unfolding search_dirs
search_lem y [] filename path h = ground (arith, h)
search_lem y (d ∷ ds) filename path h = elim (Option-cases (accept_in y d filename)) [
  | inl e ↦
      let (d', listed, accepted) = search_lem y ds filename path (ground (arith, h, e)) in
      (d', ground (arith, listed), accepted)
  | inr (found, e) ↦ (d, ground (arith, eq_iff d d), ground (arith, h, e))
]

-- The process runs an allowed script, or the binary that goes with it.
pub record Runs (y : System) (filename : String) (p p' : Manager) (pid : ℕ) : Type 0 where
  pub path : String
  pub allowed : Allowed y p filename path
  pub command : List String
  pub cwd : String
  pub chosen : command_for y filename path ≡ some (command, cwd)
  pub created : y.popen command ≡ some pid
  pub recorded : get p'.running filename ≡ some pid
  pub token : Option String
  pub logged :
      p'.spawned ≡ p.spawned ++ (record { command = command; cwd = cwd; token = token } ∷ [])

abbrev Outcome : System → String → Manager → Manager × Started → Type 0
Outcome y filename p (p', result) =
    ((pid : ℕ) × (result ≡ started pid) × Runs y filename p p' pid)
    ⊎ ((p'.running ≡ p.running) × (p'.spawned ≡ p.spawned))

issued_lem :
    (token filename : String) (now : ℕ) (p : Manager)
    → ((issue_token token filename now p).0.running ≡ p.running)
      × ((issue_token token filename now p).0.spawned ≡ p.spawned)
unfolding issue_token
issued_lem token filename now p = elim (Option-cases p.auth_state) [
  | inl e ↦ (ground (arith, e), ground (arith, e))
  | inr (pairing, e) ↦ (ground (arith, e), ground (arith, e))
]

path-Outcome :
    (y : System) (token : String) (now : ℕ) (filename path : String) (p : Manager)
    → Allowed y p filename path
    → Outcome y filename p (start_path y token now filename path p)
unfolding start_path spawn
path-Outcome y token now filename path p allowed =
    let (p', given) = issue_token token filename now p in
    let (running, spawned) = issued_lem token filename now p in
    elim (Option-cases (command_for y filename path)) [
      | inl c ↦ inr (ground (arith, c, running), ground (arith, c, spawned))
      | inr ((command, cwd), c) ↦ elim (Option-cases (y.popen command)) [
        | inl o ↦ inr (ground (arith, c, o, running), ground (arith, c, o, spawned))
        | inr (pid, o) ↦ inl (
          pid,
          ground (arith, c, o),
          record {
            path = path;
            allowed = allowed;
            command = command;
            cwd = cwd;
            chosen = c;
            created = o;
            recorded =
                ground
                  (arith, c, o, get-set p'.running filename pid filename, eq_iff filename filename);
            token = given;
            logged = ground (arith, c, o, spawned);
          },
        )
      ]
    ]

-- An attempt to start a script either starts one process and keeps it under the script's name, and then
-- the name is allowed and the file is a regular one that lies directly in one of the client
-- directories; or it starts none and leaves the processes as they were.
pub start_script_lem :
    (y : System) (token : String) (now : ℕ) (filename : String) (p : Manager)
    → let (p', result) = start_script y token now filename p in
      ((pid : ℕ) × (result ≡ started pid) × Runs y filename p p' pid)
      ⊎ ((p'.running ≡ p.running) × (p'.spawned ≡ p.spawned))
unfolding start_script resolve_script_path
start_script_lem y token now filename p = elim (Bool-cases (is_busy y filename p)) [
  | inl r ↦ inr (ground (arith, r), ground (arith, r))
  | inr r ↦ elim (Bool-cases (y.is_valid_name filename)) [
    | inr v ↦ inr (ground (arith, r, v), ground (arith, r, v))
    | inl v ↦ elim (Option-cases (search_dirs y (all_dirs p) filename)) [
      | inl s ↦ inr (ground (arith, r, v, s), ground (arith, r, v, s))
      | inr (path, s) ↦
          let (d, listed, accepted) = search_lem y (all_dirs p) filename path s in
          let (resolved, child, regular) = accept_lem y d filename path accepted in
          let gone : start_path y token now filename path p ≡ start_script y token now filename p =
            ground (arith, r, v, s) in
          subst (Outcome y filename p) gone (
            path-Outcome y token now filename path p (record {
              valid = v;
              scan_dir = d;
              is_client_dir = listed;
              resolved = resolved;
              direct_child = child;
              regular = regular;
            }))
    ]
  ]
]

-- Where there is no binary for an allowed script that does not run yet, a frozen server starts nothing; but
-- the token that it has issued for the script stays valid.
pub token_without_process :
    (y : System) (token : String) (now : ℕ) (filename path : String) (p : Manager)
    (pairing : Pairing)
    → is_busy y filename p ≡ false
    → resolve_script_path y p filename ≡ (some path, not_found)
    → p.auth_state ≡ some pairing
    → y.is_frozen ≡ true
    → y.client_exe filename ≡ none
    → truthy token ≡ true
    → (pairing' : Pairing) × (start_script y token now filename p
        ≡ (record p { auth_state = some pairing' }, no_binary))
      × (is_valid_token token pairing' ≡ true)
unfolding start_script start_path issue_token command_for issue_auto_approve_token
token_without_process y token now filename path p pairing idle found auth frozen missing
      some_token =
    (
      issue_auto_approve_token token (some filename) now pairing,
      ground (arith, idle, found, auth, frozen, missing),
      ground (
        arith,
        some_token,
        get-set pairing.auto_approve_tokens token
            (record { issued_at = now; script = some filename }) token,
        eq_iff token token,
      ),
    )
