-- ===== src/ProcessManager.antt =====
-- `ClientProcessManager` of elab_server/process_manager.py: which client scripts are there, which of them
-- may be started, and the processes that run. The file system, `subprocess` and the regular expression
-- of file names are parameters.
pub mod Starting
pub mod Listing
use elab_core.Prelude.{
  ℕ, String, Bool, true, false, not, Option, none, some, List, [], ◌∷◌, ◌++◌, ◌==◌, ◌&&◌, ◌||◌,
  is_some, opt_eq, any, if◌then◌else◌,
}
use elab_core.Prelude.Dict.{Dict, get, set, pop}
use elab_core.Pairing.{Pairing, issue_auto_approve_token}

-- How an attempt to stop a process ends: it is gone, or `OSError`, or the process outlives SIGKILL, so
-- that `wait` raises `TimeoutExpired`.
pub data StopOutcome : Type 0 where
  gone os_error timeout : StopOutcome

-- What the file system and the processes answer. `common` is `commonpath`, none if it raises; `opens` is
-- none if the file cannot be opened without following a link, and else whether it is a regular file.
pub record System : Type 0 where
  pub is_valid_name : String → Bool
  pub realpath : String → String
  pub join : String → String → String
  pub dirname : String → String
  pub common : String → String → Option String
  pub opens : String → Option Bool
  pub exists : String → Bool
  -- the names of the "*.py" files of a directory
  pub glob : String → List String
  -- does the name start with "__" or contain "asset"?
  pub is_skipped : String → Bool
  pub is_frozen : Bool
  pub client_exe : String → Option String
  pub python : String
  -- the id of the new process, none if `Popen` raises OSError
  pub popen : (command : List String) → Option ℕ
  pub has_exited : ℕ → Bool
  pub stops : ℕ → StopOutcome

-- a process that was started, with the token of its environment
pub record Spawned : Type 0 where
  pub command : List String
  pub cwd : String
  pub token : Option String

pub record Manager : Type 0 where
  pub clients_dir : String
  pub extra_dirs : List String
  -- the script's file name to the process id
  pub running : Dict ℕ
  pub spawned : List Spawned
  -- the pairing store, if the manager has been given one
  pub auth_state : Option Pairing

pub data Started : Type 0 where
  started : (pid : ℕ) → Started
  already_running invalid_name not_found no_binary os_failure : Started

pub data Stopped : Type 0 where
  stopped not_running failed raised : Stopped

unfoldable pub all_dirs : Manager → List String
all_dirs p = p.clients_dir ∷ p.extra_dirs

-- One pass of `_cleanup_zombies`: a process that has exited is taken out.
pub cleanup_zombies : System → Dict ℕ → Dict ℕ
cleanup_zombies y [] = []
cleanup_zombies y ((filename, pid) ∷ ps) =
    let rest = cleanup_zombies y ps in if y.has_exited pid then rest else (filename, pid) ∷ rest

-- the resolved path, if it is a regular file that lies directly in the directory
unfoldable pub accept_in : System → String → String → Option String
accept_in y scan_dir filename =
    let root = y.realpath scan_dir in
    let candidate = y.realpath (y.join root filename) in
    if not (opt_eq (y.common root candidate) (some root)) || not (y.dirname candidate == root)
    then none
    else elim (y.opens candidate) [
      | none ↦ none
      | some regular ↦ if regular then some candidate else none
    ]

unfoldable pub search_dirs : System → List String → String → Option String
search_dirs y [] filename = none
search_dirs y (d ∷ ds) filename = elim (accept_in y d filename) [
  | none ↦ search_dirs y ds filename
  | some path ↦ some path
]

-- `_resolve_script_path`: the path, or why there is none
unfoldable pub resolve_script_path : System → Manager → String → Option String × Started
resolve_script_path y p filename =
    if not (y.is_valid_name filename)
    then (none, invalid_name)
    else (search_dirs y (all_dirs p) filename, not_found)

pub issue_token : (token filename : String) → (now : ℕ) → Manager → Manager × Option String
issue_token token filename now p = elim p.auth_state [
  | none ↦ (p, none)
  | some pairing ↦ (
    record p { auth_state = some (issue_auto_approve_token token (some filename) now pairing) },
    some token,
  )
]

-- the command and the directory to run it in; none if there is no binary
pub command_for : System → (filename path : String) → Option (List String × String)
command_for y filename path =
    if y.is_frozen
    then elim (y.client_exe filename) [ none ↦ none | some exe ↦ some (exe ∷ [], y.dirname exe) ]
    else some (y.python ∷ path ∷ [], y.dirname path)

pub spawn :
    System
    → (filename : String) → (token : Option String) → List String × String
    → Manager
    → Manager × Started
spawn y filename token (command, cwd) p = elim (y.popen command) [
  | none ↦ (p, os_failure)
  | some pid ↦ (
    record p {
      running = set p.running filename pid;
      spawned = p.spawned ++ (record { command = command; cwd = cwd; token = token } ∷ []);
    },
    started pid,
  )
]

-- `start_script` after the path is known
pub start_path :
    System → (token : String) → (now : ℕ) → (filename path : String) → Manager → Manager × Started
start_path y token now filename path p =
    let (p', given) = issue_token token filename now p in
    elim (command_for y filename path) [
      | none ↦ (p', no_binary)
      | some command ↦ spawn y filename given command p'
    ]

unfoldable pub is_busy : System → String → Manager → Bool
is_busy y filename p = elim (get p.running filename) [
  | none ↦ false
  | some pid ↦ not (y.has_exited pid)
]

-- `token` is the fresh one-shot token
pub start_script :
    System → (token : String) → (now : ℕ) → (filename : String) → Manager → Manager × Started
start_script y token now filename p =
    if is_busy y filename p
    then (p, already_running)
    else let (path, reason) = resolve_script_path y p filename in
      elim path [ none ↦ (p, reason) | some path ↦ start_path y token now filename path p ]

pub after_stop : StopOutcome → String → Manager → Manager × Stopped
after_stop gone filename p = (record p { running = pop p.running filename }, stopped)
after_stop os_error filename p = (record p { running = pop p.running filename }, failed)
after_stop timeout filename p = (p, raised)

pub stop_script : System → String → Manager → Manager × Stopped
stop_script y filename p = elim (get p.running filename) [
  | none ↦ (p, not_running)
  | some pid ↦ after_stop (y.stops pid) filename p
]

pub stop_all : System → List (String × ℕ) → Manager → Manager
stop_all y [] p = p
stop_all y ((filename, pid) ∷ ps) p = stop_all y ps (stop_script y filename p).0

-- `shutdown`, which catches what `stop_script` raises
pub shutdown : System → Manager → Manager
shutdown y p = stop_all y p.running p

pub record Script : Type 0 where
  pub filename : String
  pub is_running : Bool

abbrev pub names : List Script → List String
names [] = []
names (s ∷ ss) = s.filename ∷ names ss

pub scan_files : System → Dict ℕ → List String → List Script → List Script
scan_files y running [] found = found
scan_files y running (f ∷ fs) found =
    if y.is_skipped f
      || any (λ s. s.filename == f) found
      || y.is_frozen && not (is_some (y.client_exe f))
    then scan_files y running fs found
    else scan_files y running fs
        (found ++ (record { filename = f; is_running = is_some (get running f) } ∷ []))

pub scan_dirs : System → Dict ℕ → List String → List Script → List Script
scan_dirs y running [] found = found
scan_dirs y running (d ∷ ds) found =
    scan_dirs y running ds (if y.exists d then scan_files y running (y.glob d) found else found)

pub scan_scripts : System → Manager → List Script
scan_scripts y p = scan_dirs y p.running (all_dirs p) []
