-- ===== src/Tests/Stores.antt =====
-- Runs of the configuration store, the pairing store, the actuator links and the plugin check.
use elab_core.Prelude.{◌≡◌, refl, true, none, some, List, [], ◌∷◌, any}
use elab_core.Prelude.Dict.{get, set}
use elab_core.ConfigStore
use elab_core.ConfigStore.{
  ConfigStore, Credential, Status, pending, approved, get_credential, upsert_pending_credential,
  approve_credential, pending_row, revoke_credential, delete_credential, Field, color, write_field,
  get_task_config, set_task_field, delete_device_config, get_device_config, is_approved,
}
use elab_core.ConfigStore.Credentials.{
  Call, upsert, approve, call, calls, approval_needed, is_approval, IsApproved,
}
use elab_core.Links.{Links, add_actuator_link}
use elab_core.Pairing
use elab_core.Pairing.{
  Pairing, issue_auto_approve_token, consume_auto_approve_token, mark_ui_internal, forget_sources,
  is_ui_internal, register_approved_secret, forget_secret, get_ephemeral_credential,
  get_secret_for_sid,
}

-- a device that appears, is approved and comes back with the same manifest
abbrev story : List Call
story = upsert "dev" "k1" "h1" none 1 ∷ approve "dev" "h1" 2 ∷ upsert "dev" "k2" "h1" none 3 ∷ []

abbrev told : ConfigStore
told = calls story ConfigStore.empty

told_row :
    get_credential told "dev"
    ≡ some (record {
      secret_hex = "k1";
      manifest_hash = "h1";
      status = approved;
      created_at = 1;
      approved_at = some 2;
      last_seen_at = some 3;
      last_client_ip = none;
    })
unfolding get set calls call get_credential upsert_pending_credential approve_credential pending_row
    is_approved
told_row = refl

told-IsApproved : IsApproved told "dev" "h1" "k1"
told-IsApproved = record {
  row = _;
  found = told_row;
  status = refl;
  hash_eq = refl;
  secret_eq = refl;
}

unknown_at_first : get_credential ConfigStore.empty "dev" ≡ none
unfolding get_credential get
unknown_at_first = refl

approval_needed_example : any (is_approval "dev" "h1") story ≡ true
approval_needed_example =
    approval_needed story ConfigStore.empty "dev" unknown_at_first told-IsApproved

abbrev again : Call
again = upsert "other" "k3" "h3" none 4

abbrev painted : ConfigStore
painted = set_task_field (color (some "red")) "volts" (some "dev") ConfigStore.empty

abbrev wired : Links
wired = add_actuator_link "volts" "relay" []

abbrev issued : Pairing
issued = issue_auto_approve_token "tok" none 5 Pairing.empty

abbrev trusting : Pairing
trusting = mark_ui_internal "volts" Pairing.empty

abbrev paired : Pairing
paired = register_approved_secret "s1" "dev" "k1" Pairing.empty
