-- ===== src/Tests.antt =====
-- Concrete manifests, registries and states, on which the modules below run the code.
pub mod Registries
pub mod Stores
pub mod Handlers
pub mod Dispatches
pub mod Streams
pub mod Channels
pub mod Recordings
pub mod Replays
pub mod Bridges
pub mod Processes
pub mod Routes
pub mod DataStreams
use elab_core.Prelude.{ℕ, String, Bool, true, false, Option, none, some, List, [], ◌∷◌}
use elab_core.Manifest.{Task, Device, Manifest, Ui}
use elab_core.Registry
use elab_core.Registry.{Registry, add_provider}
use elab_core.Registry.Invariant.{IsConsistent, empty-IsConsistent, add_provider-IsConsistent}

abbrev pub task : String → Option String → Task
task id group = record {
  id = id;
  name = id;
  group = group;
  alias = none;
  color = none;
  decimals = none;
  actions = [];
  config = [];
  decoder = none;
  ui = none;
}

abbrev pub provider : String → List Task → Manifest
provider id tasks = record {
  id = id;
  name = id;
  device = none;
  persist_config = false;
  is_ui_instance = false;
  actions = [];
  tasks = tasks;
  auto_approve_token = none;
  client_ip = none;
  sid = none;
  connected_at = none;
}

abbrev pub meter : Manifest
meter = provider "meter" (task "volts" none ∷ task "amps" none ∷ [])

abbrev pub thermo : Manifest
thermo = provider "thermo" (task "temp" none ∷ [])

-- `thermo`, as its session may send it in an update
abbrev pub greedy : Manifest
greedy = provider "thermo" (task "volts" none ∷ [])

abbrev pub any_schema : Manifest → Bool
any_schema m = true

abbrev pub with_meter : Registry
with_meter = (add_provider any_schema "s1" 1 meter Registry.empty).0

abbrev pub with_both : Registry
with_both = (add_provider any_schema "s2" 2 thermo with_meter).0

pub with_meter-IsConsistent : IsConsistent with_meter
with_meter-IsConsistent = add_provider-IsConsistent any_schema "s1" 1 meter empty-IsConsistent

pub with_both-IsConsistent : IsConsistent with_both
with_both-IsConsistent = add_provider-IsConsistent any_schema "s2" 2 thermo with_meter-IsConsistent
