-- ===== src/Tests/Handlers.antt =====
-- Runs of the handlers and of the plugin check.
use elab_core.Prelude.{
  String, ◌≡◌, ◌≢◌, refl, true, false, not, Option, none, some, [], ◌∷◌, ◌++◌, ◌==◌, ◌&&◌, ◌||◌,
  any, truthy, if◌then◌else◌,
}
use elab_core.Prelude.TextSet.{has}
use elab_core.Manifest.{
  Json, object, field, no_fields, text, null, Task, Manifest, has_provider, has_task, names,
  resolve_device_id, resolve_device_anchor,
}
use elab_core.ConfigStore
use elab_core.Registry
use elab_core.Registry.{registered, manifests, find_provider_sid, find_task, add_provider}
use elab_core.Registry.Invariant.{IsConsistent, empty-IsConsistent}
use elab_core.Links.Laws.{feeds}
use elab_core.Pairing
use elab_core.Pairing.{is_ui_internal}
use elab_core.State.{State, remove_provider, first_with_task, group_text}
use elab_core.State.Removal.{remove_provider-everywhere, farewells}
use elab_core.PluginUrls.{
  Web, Url, invalid, digits, sanitize_plugin_urls, sanitize_tasks, sanitize_task, sanitize_url,
  strip_url, keep_task, cons_both, put_tasks, is_plugin_url_allowed, parsed_allowed, origin_allowed,
  in_allowlist,
}
use elab_core.PluginUrls.Laws.{sanitize_plugin_urls-ok, all_ok}
use elab_core.Registration.Request.{Env, authenticate}
use elab_core.Registration.Activate.{register_sanitized, handle_register_provider}
use elab_core.Registration.Gate.{Decided, authenticate-Decided}
use elab_core.Registration.Keeps.{handle_register_provider-IsConsistent}
use elab_core.Tests.{task, provider, meter, any_schema, with_both, with_both-IsConsistent}

abbrev parse : String → Option Url
parse url =
    if url == "http://evil:x/p.js"
    then some (record { scheme = "http"; hostname = "evil"; port = invalid })
    else some (record { scheme = "http"; hostname = "good"; port = digits "80" })

abbrev web : Web
web = record { urlparse = parse; lower = λ s. s; allowlist = "http://good:*" ∷ [] }

-- the texts at the head of an object
abbrev first_text : Json → String
first_text (object (field k (text t) fs)) = t
first_text _ = ""

abbrev pub env : Env
env = record {
  now = 5;
  fresh_secret = "k";
  hashing = record {
    value = λ m. object (field "id" (text m.id) (field "sid" null no_fields));
    dumps = first_text;
    sha256 = λ s. s;
  };
  schema_ok = any_schema;
  is_auth_required = true;
  web = web;
}

abbrev pub idle : State
idle = record {
  registry = Registry.empty;
  links = [];
  pairing = Pairing.empty;
  config_store = some ConfigStore.empty;
  clients = [];
  recording = false;
  current_session_id = none;
  active_tasks_by_slot = [];
  sent = [];
  recorder_calls = [];
  time_offsets = [];
}

abbrev pub busy : State
busy = record idle { registry = with_both; active_tasks_by_slot = ("slot", "volts") ∷ [] }

-- what the handler returns, where it returns
abbrev result : Option State → State → State
result none s = s
result (some t) s = t

abbrev after : State
after = result (handle_register_provider env "s1" "10.0.0.9" meter idle) idle

returns : handle_register_provider env "s1" "10.0.0.9" meter idle ≡ some after
unfolding handle_register_provider register_sanitized sanitize_plugin_urls sanitize_tasks
    sanitize_task cons_both put_tasks
returns = refl

handle_register_provider-IsConsistent_example : IsConsistent after.registry
handle_register_provider-IsConsistent_example =
    handle_register_provider-IsConsistent env "s1" "10.0.0.9" meter idle after empty-IsConsistent
      returns

authenticate-Decided_example :
    Decided "h"
      (resolve_device_id meter)
      (resolve_device_anchor meter == "ephemeral")
      (authenticate env "s1" meter "h" none true none idle)
authenticate-Decided_example = authenticate-Decided env "s1" meter "h" none none idle refl

remove_provider-everywhere_example :
    let s' = remove_provider "s1" busy in
    let gone = λ (k : String).
      has_provider k (registered busy.registry "s1")
      || has_task k (registered busy.registry "s1") in
    IsConsistent s'.registry
    × ((k : String) → find_provider_sid s'.registry k ≢ some "s1")
    × ((q a : String) → feeds s'.links q a ≡ (not (gone q) && not (gone a) && feeds busy.links q a))
    × ((k : String) → is_ui_internal k s'.pairing ≡ (not (gone k) && is_ui_internal k busy.pairing))
    × (s'.sent ≡ busy.sent ++ farewells (registered busy.registry "s1"))
remove_provider-everywhere_example = remove_provider-everywhere "s1" busy with_both-IsConsistent

abbrev grouped : Manifest
grouped = provider "dmm" (task "volts" (some "dc") ∷ task "ohms" (some "res") ∷ [])

abbrev pub measuring : State
measuring = record busy {
  registry = record {
    providers = ("s1", grouped ∷ []) ∷ [];
    decoders = [];
    provider_index = [];
    task_index = [];
  };
}

owner_found : first_with_task "ohms" (manifests measuring.registry.providers) ≡ some grouped
unfolding first_with_task manifests
owner_found = refl

task_found : find_task "ohms" grouped.tasks ≡ some (task "ohms" (some "res"))
unfolding find_task
task_found = refl

has_groups : any (λ (t : Task). truthy (group_text t.group)) grouped.tasks ≡ true
unfolding group_text
has_groups = refl

abbrev plugin : Manifest
plugin = provider "plot" (
    record (task "view" none) {
      ui = some (record { mode = "plugin"; url = some "http://good:80/p.js"; integrity = none });
    }
    ∷ [])

good_url : is_plugin_url_allowed web "http://good:80/p.js" "10.0.0.9" ≡ some true
unfolding is_plugin_url_allowed parsed_allowed origin_allowed in_allowlist has
good_url = refl

all_good : all_ok web "10.0.0.9" plugin.tasks ≡ true
unfolding is_plugin_url_allowed parsed_allowed origin_allowed in_allowlist has
all_good = refl

kept : sanitize_plugin_urls web "10.0.0.9" plugin ≡ some plugin
unfolding sanitize_plugin_urls sanitize_tasks sanitize_task sanitize_url strip_url keep_task
    cons_both put_tasks is_plugin_url_allowed parsed_allowed origin_allowed in_allowlist has
kept = refl

sanitize_plugin_urls-ok_example :
    (all_ok web "10.0.0.9" plugin.tasks ≡ true)
    × ((k : String) → names k plugin.tasks ≡ names k plugin.tasks)
    × (plugin.id ≡ plugin.id)
sanitize_plugin_urls-ok_example = sanitize_plugin_urls-ok web "10.0.0.9" plugin plugin kept
