-- ===== src/Tests/Bridges.antt =====
-- Runs of a client's authentication and of the bridge.
use elab_core.Prelude.{
  String, ◌≡◌, ◌≢◌, ◌⊎◌, refl, true, false, none, some, List, [], ◌∷◌, is_some, arith, eq_iff,
}
use elab_core.Prelude.Dict.{get, set}
use elab_core.Manifest.{Manifest, resolve_device_id}
use elab_core.Stream.{Payload, accepts}
use elab_core.Prelude.TextSet.{has, add}
use elab_core.Registry.{
  find_provider_sid, add_provider, find_id_conflicts, owner_of, is_foreign, store_manifest,
  index_manifest, index_tasks, unregister_all, same_id, manifests,
}
use elab_core.Pairing.{get_secret_for_source, register_approved_secret}
use elab_core.ProviderAuth.{Machine, ProviderAuth, on_approved, on_revoked, init, has_secret, sign}
use elab_core.ProviderAuth.Signing.{signer, signed_packet_passes}
use elab_core.ProviderAuth.Files.{secret_survives}
use elab_core.Bridge.{Bridge, Env, handle_register, stop}
use elab_core.Bridge.Handlers.{
  DataAvailable, History, register, data_available, handle_data_available, on_registration_approved,
}
use elab_core.Bridge.Leaks.{IsTight}
use elab_core.Bridge.Stop.{Action, message, pass, approved, run, no_leak}
use elab_core.Bridge.Approvals.{Signed, handle_data_available_lem, approval_is_lost}
use elab_core.Tests.{meter}
use elab_core.Tests.Streams.{live, keys, not_internal, owned}

abbrev machine : Machine
machine = record {
  sanitize = λ id. id;
  digest = λ id. "";
  dumps = λ device_id secret. secret;
  loads = λ text. some text;
  len = λ text. 64;
  can_read = true;
  can_write = true;
  can_delete = true;
}

abbrev client : ProviderAuth
client = record { device_id = "meter"; persist = true; secret_hex = none; approved = false }

abbrev sample : Payload
sample = record { source_id = "volts"; auth = none; body = "3.3" }

routed : find_provider_sid live.registry "volts" ≡ some "s1"
unfolding find_provider_sid add_provider find_id_conflicts owner_of is_foreign store_manifest
    index_manifest index_tasks unregister_all same_id get set has add manifests
routed = refl

held : get_secret_for_source "volts" live.registry live.pairing ≡ some "k"
unfolding get_secret_for_source resolve_device_id register_approved_secret get set
held = ground (arith, owned)

signed_packet_passes_example :
    (x' : Payload) × (sign (signer keys) (on_approved machine (some "k") client []).0 990 sample
      ≡ some x')
    × (x'.source_id ≡ "volts")
    × (x'.body ≡ "3.3")
    × (accepts keys "s1" x' live ≡ true)
signed_packet_passes_example =
    signed_packet_passes machine keys client [] "k" "s1" 990 sample live refl not_internal routed
      held (omega arith)

secret_survives_example :
    let (a₁, files₁) = on_approved machine (some "k") client [] in
    let (a₂, files₂) = on_revoked machine a₁ files₁ in
    (init machine files₁ "meter" true ≡ a₁)
    × (has_secret (init machine files₂ "meter" true) ≡ false)
secret_survives_example =
    secret_survives machine client [] "k" refl refl refl refl refl (omega arith)

abbrev env : Env
env = record {
  now = 0;
  machine = machine;
  hex = λ i. "x";
  refuses = λ name. false;
  blank = "0" ∷ "0" ∷ [];
}

abbrev new : Bridge
new = record {
  nodes = [];
  node_auths = [];
  is_connected = true;
  sent = [];
  published = [];
  shm = [];
  files = [];
  auto_approve_token = none;
}

abbrev no_history : History
no_history = record { is_file = λ id. false; query = λ id source. none }

abbrev samples : DataAvailable
samples = record { task_id = "volts"; count = 1; source_node = none; body = λ vs. "3.3" }

abbrev day : List Action
day =
    message (signer keys) env no_history 990 (register (some meter))
    ∷ approved env "meter" "k"
    ∷ message (signer keys) env no_history 990 (data_available samples)
    ∷ message (signer keys) env no_history 990 (register (some meter))
    ∷ pass 20000
    ∷ []

no_leak_example :
    IsTight (run day new) × ((name : String) → is_some (get (stop (run day new)).shm name) ≡ false)
no_leak_example = no_leak day new refl refl refl

abbrev paired : Bridge
paired =
    run
      (message (signer keys) env no_history 990 (register (some meter))
        ∷ approved env "meter" "k"
        ∷ [])
      new

handle_data_available_lem_example :
    let b' = (handle_data_available (signer keys) env 990 samples paired).0 in
    (b'.sent ≡ paired.sent) ⊎ Signed (signer keys) 990 samples paired b'
handle_data_available_lem_example = handle_data_available_lem (signer keys) env 990 samples paired

abbrev board : Manifest
board = record meter {
  device = some (record { id = "board"; anchor = "serial"; name = none; persist_capable = none });
}

board_id : resolve_device_id board ≢ board.id
unfolding resolve_device_id
board_id h = let same : "board" ≡ "meter" = h in ground (arith, same, eq_iff "board" "meter")

unknown : get new.node_auths (resolve_device_id board) ≡ none
unfolding get
unknown = refl

approval_is_lost_example :
    let b' = (handle_register env (some board) new).0 in
    on_registration_approved env (resolve_device_id board) "k" b' ≡ b'
approval_is_lost_example = approval_is_lost env board "k" new board_id unknown
