-- ===== src/Tests/Streams.antt =====
-- Runs of the data path's entrance and of a revocation.
use elab_core.Prelude.{
  String, ◌≡◌, ◌≢◌, ◌≤◌, ◌<◌, refl, true, false, Option, none, some, [], ◌∷◌, ◌==◌, opt_eq, length,
  if◌then◌else◌, ◌↔◌, arith,
}
use elab_core.Prelude.Dict.{get, set}
use elab_core.Prelude.TextSet.{has}
use elab_core.Manifest.{Manifest, resolve_device_id, resolve_device_anchor}
use elab_core.ConfigStore
use elab_core.ConfigStore.{
  ConfigStore, Credential, approved, get_credential, upsert_pending_credential, pending_row,
  is_approved,
}
use elab_core.Prelude.TextSet.{add}
use elab_core.Registry.{
  manifests, find_owner, add_provider, find_id_conflicts, owner_of, is_foreign, store_manifest,
  index_manifest, index_tasks, unregister_all, same_id, find_provider_sid, has_sid,
}
use elab_core.Pairing.{
  get_ephemeral_credential, register_approved_secret, get_secret_for_sid, is_ui_internal,
}
use elab_core.State.{State}
use elab_core.Registration.Request.{
  Paired, cleared, credential_of, stored_credential, of_row, Env, authenticate, parked,
}
use elab_core.Registration.Operator.{
  can_approve, handle_approve_pending_device, handle_revoke_device,
}
use elab_core.Registration.Revocation.{handle_revoke_device_lem}
use elab_core.Registration.Approval.{approved_device_enters}
use elab_core.Registration.Disconnect.{handle_disconnect}
use elab_core.Registration.Farewell.{held, handle_disconnect_lem}
use elab_core.Registry.Invariant.{IsConsistent}
use elab_core.Stream.{epoch, Payload, Keys, accepts}
use elab_core.Stream.Gate.{IsAuthentic, accepts_lem, revoked_is_silent}
use elab_core.Offsets.{Offset, Offsets, get_offset, drift}
use elab_core.Offsets.Clock.{get_offset_lem}
use elab_core.Tests.{with_both-IsConsistent, with_both, meter}
use elab_core.Tests.Handlers.{env, idle}

-- the device of the provider `meter`, which has no device block
abbrev known : ConfigStore
known = upsert_pending_credential "meter" "k" "h" none 1 ConfigStore.empty

abbrev row : Credential
row = pending_row "k" "h" none 1 none

abbrev pub live : State
live = record idle {
  registry = with_both;
  config_store = some known;
  pairing = register_approved_secret "s1" "meter" "k" idle.pairing;
}

abbrev pub keys : Keys
keys = record {
  is_auth_required = true;
  server_time = 1000;
  max_skew = 60;
  hmac = λ secret message. secret;
  format_time = λ t. "";
}

abbrev pub packet : Payload
packet = record {
  source_id = "volts";
  auth = some (record { sig = some "k"; ts = some (epoch 990) });
  body = "3.3";
}

row_known : get_credential known "meter" ≡ some row
unfolding get_credential upsert_pending_credential get set
row_known = refl

pub not_internal : is_ui_internal packet.source_id live.pairing ≡ false
unfolding is_ui_internal has register_approved_secret
not_internal = refl

abbrev pub owner : Manifest
owner = record meter { sid = some "s1"; connected_at = some 1 }

pub owned : find_owner packet.source_id (manifests live.registry.providers) ≡ some owner
unfolding find_owner manifests add_provider find_id_conflicts owner_of is_foreign store_manifest
    index_manifest index_tasks unregister_all same_id get set has add
owned = refl

accepts_lem_example : (accepts keys "s1" packet live ≡ true) ↔ IsAuthentic keys "s1" packet live
accepts_lem_example = accepts_lem keys "s1" packet live refl not_internal

revoked_is_silent_example : accepts keys "s1" packet (handle_revoke_device "meter" live) ≡ false
unfolding resolve_device_id
revoked_is_silent_example =
    revoked_is_silent keys "s1" "meter" packet live known row owner refl not_internal refl row_known
      owned refl

handle_revoke_device_lem_example :
    let s' = handle_revoke_device "meter" live in
    ((env : Env) (sid : String) (m : Manifest) (hash : String) (ip token : Option String)
      → resolve_device_id m ≡ "meter"
      → (resolve_device_anchor m == "ephemeral") ≡ false
      → (authenticate env sid m hash ip true token s').1 ≡ parked)
    × ((sid : String)
        → get_secret_for_sid sid s'.pairing ≡ (
            if opt_eq (get live.pairing.sid_to_device sid) (some "meter")
            then none
            else get_secret_for_sid sid live.pairing))
handle_revoke_device_lem_example = handle_revoke_device_lem "meter" live refl row_known

abbrev offsets : Offsets
offsets = ("volts", record { plus = 5000; minus = 10 }) ∷ []

size : length offsets ≤ 500
size = omega arith

room : 0 < 500
room = omega arith

get_offset_lem_example :
    let (d', o) = get_offset 500 "amps" 20 9000 offsets in
    (length d' ≤ 500)
    × (get d' "amps" ≡ some o)
    × (drift o 20 9000 ≤ 2000)
    × ((old : Offset) → get offsets "amps" ≡ some old → drift old 20 9000 ≤ 2000 → o ≡ old)
get_offset_lem_example = get_offset_lem 500 "amps" 20 9000 offsets room size

-- the device of `meter` waits for the operator
abbrev waiting : State
waiting = record idle { config_store = some known }

can_be_approved : can_approve false "meter" "h" waiting ≡ true
unfolding can_approve credential_of stored_credential of_row get_credential
    upsert_pending_credential get set
can_be_approved = refl

abbrev anchored : Manifest
anchored = record meter {
  device = some (record { id = ""; anchor = "serial"; name = none; persist_capable = none });
}

no_ephemeral : (resolve_device_anchor anchored == "ephemeral") ≡ false
unfolding resolve_device_anchor
no_ephemeral = refl

approved_device_enters_example :
    let s' = handle_approve_pending_device env "ui" (resolve_device_id anchored) "h" waiting in
    (c : Paired) × (authenticate env "s1" anchored "h" none true none s'
      ≡ (s', cleared (some c) none))
    × (c.manifest_hash ≡ "h")
unfolding get_ephemeral_credential get resolve_device_id
approved_device_enters_example =
    approved_device_enters env "ui" "s1" anchored "h" none none waiting no_ephemeral can_be_approved

handle_disconnect_lem_example :
    let s' = handle_disconnect "s1" live in
    IsConsistent s'.registry
    × ((k : String) → find_provider_sid s'.registry k ≢ some "s1")
    × (get s'.pairing.pending_providers "s1" ≡ none)
    × (get s'.clients "s1" ≡ none)
    × ((k : String) → held "s1" k live ≡ true → get s'.time_offsets k ≡ none)
    × (has_sid live.registry "s1" ≡ true → get_secret_for_sid "s1" s'.pairing ≡ none)
handle_disconnect_lem_example = handle_disconnect_lem "s1" live with_both-IsConsistent
