-- ===== src/Tests/Processes.antt =====
-- Runs of the process manager.
use elab_core.Prelude.{ℕ, ◌≡◌, ◌⊎◌, refl, true, false, none, some, [], ◌∷◌}
use elab_core.Prelude.Dict.{get}
use elab_core.Pairing
use elab_core.Pairing.{Pairing}
use elab_core.Pairing.Tokens.{is_valid_token}
use elab_core.ProcessManager.{
  System, Manager, started, not_found, no_binary, gone, start_script, is_busy, resolve_script_path,
  search_dirs, accept_in, all_dirs,
}
use elab_core.ProcessManager.Starting.{Runs, start_script_lem, token_without_process}

abbrev system : System
system = record {
  is_valid_name = λ f. true;
  realpath = λ path. path;
  join = λ d f. f;
  dirname = λ path. "clients";
  common = λ a b. some a;
  opens = λ path. some true;
  exists = λ d. true;
  glob = λ d. "meter.py" ∷ [];
  is_skipped = λ f. false;
  is_frozen = true;
  client_exe = λ f. none;
  python = "python";
  popen = λ command. some 7;
  has_exited = λ pid. false;
  stops = λ pid. gone;
}

abbrev manager : Manager
manager = record {
  clients_dir = "clients";
  extra_dirs = "premium" ∷ [];
  running = ("other.py", 3) ∷ [];
  spawned = [];
  auth_state = some Pairing.empty;
}

start_script_lem_example :
    let (p', result) =
      start_script (record system { is_frozen = false }) "t" 1 "meter.py" manager in
    ((pid : ℕ) × (result ≡ started pid)
      × Runs (record system { is_frozen = false }) "meter.py" manager p' pid)
    ⊎ ((p'.running ≡ manager.running) × (p'.spawned ≡ []))
start_script_lem_example =
    start_script_lem (record system { is_frozen = false }) "t" 1 "meter.py" manager

idle : is_busy system "meter.py" manager ≡ false
unfolding is_busy get
idle = refl

resolved : resolve_script_path system manager "meter.py" ≡ (some "meter.py", not_found)
unfolding resolve_script_path search_dirs accept_in all_dirs
resolved = refl

token_without_process_example :
    (pairing' : Pairing) × (start_script system "t" 1 "meter.py" manager
      ≡ (record manager { auth_state = some pairing' }, no_binary))
    × (is_valid_token "t" pairing' ≡ true)
token_without_process_example =
    token_without_process system "t" 1 "meter.py" "meter.py" manager Pairing.empty idle resolved
      refl refl refl refl
