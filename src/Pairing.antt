-- ===== src/Pairing.antt =====
-- `PairingStore` of elab_server/state_stores/pairing_store.py: devices that wait for approval, the
-- secrets of approved ones, session-only credentials, one-shot tokens and the sources of the
-- user interface. Times are milliseconds that the caller reads from the clock.
pub mod Tokens
pub mod Secrets
use elab_core.Prelude.{
  ℕ, String, Bool, true, false, not, Option, none, some, List, [], ◌∷◌, map, ◌==◌, ◌&&◌, ◌||◌,
  truthy, opt_eq, or_else, is_some, if◌then◌else◌,
}
use elab_core.Prelude.Dict.{Dict, get, set, pop}
use elab_core.Prelude.TextSet.{TextSet, has, add, discard}
use elab_core.Manifest.{Task, Manifest, resolve_device_id}
use elab_core.ConfigStore.{Status, pending, approved}
use elab_core.Registry.{Registry, manifests, find_owner}

pub record PendingProvider : Type 0 where
  pub device_id : String
  pub manifest : Manifest
  pub manifest_hash : String
  pub client_ip : Option String
  pub first_seen_at : ℕ

pub record Ephemeral : Type 0 where
  pub secret_hex : String
  pub manifest_hash : String
  pub status : Status

pub record Token : Type 0 where
  pub issued_at : ℕ
  pub script : Option String

pub record Pairing : Type 0 where
  pub pending_providers : Dict PendingProvider
  pub approved_secrets : Dict String
  pub ephemeral_credentials : Dict Ephemeral
  pub ephemeral_devices : TextSet
  pub sid_to_device : Dict String
  pub auto_approve_tokens : Dict Token
  pub ui_internal_sources : TextSet

abbrev pub empty : Pairing
empty = record {
  pending_providers = [];
  approved_secrets = [];
  ephemeral_credentials = [];
  ephemeral_devices = [];
  sid_to_device = [];
  auto_approve_tokens = [];
  ui_internal_sources = [];
}

pub add_pending_provider :
    String → String → Manifest → String → Option String → ℕ → Pairing → Pairing
add_pending_provider sid device_id manifest hash ip now p = record p {
  pending_providers = set p.pending_providers sid (record {
    device_id = device_id;
    manifest = manifest;
    manifest_hash = hash;
    client_ip = ip;
    first_seen_at = now;
  });
}

unfoldable pub remove_pending_provider : String → Pairing → Pairing × Option PendingProvider
remove_pending_provider sid p =
    (record p { pending_providers = pop p.pending_providers sid }, get p.pending_providers sid)

pub first_pending : String → Dict PendingProvider → Option String
first_pending device_id [] = none
first_pending device_id ((sid, entry) ∷ rest) =
    if entry.device_id == device_id then some sid else first_pending device_id rest

pub find_pending_sid_by_device : String → Pairing → Option String
find_pending_sid_by_device device_id p = first_pending device_id p.pending_providers

unfoldable pub register_approved_secret : String → String → String → Pairing → Pairing
register_approved_secret sid device_id secret p = record p {
  approved_secrets = set p.approved_secrets device_id secret;
  sid_to_device = set p.sid_to_device sid device_id;
}

unfoldable pub get_ephemeral_credential : String → Pairing → Option Ephemeral
get_ephemeral_credential device_id p = get p.ephemeral_credentials device_id

unfoldable pub store_ephemeral : String → Ephemeral → Pairing → Pairing
store_ephemeral device_id entry p = record p {
  ephemeral_credentials = set p.ephemeral_credentials device_id entry;
  ephemeral_devices = add p.ephemeral_devices device_id;
}

-- A credential for the same manifest is kept as it is, approved or not.
unfoldable pub set_ephemeral_credential : String → String → String → Pairing → Pairing × Ephemeral
set_ephemeral_credential device_id secret hash p =
    let fresh : Ephemeral = record {
      secret_hex = secret;
      manifest_hash = hash;
      status = pending;
    } in
    elim (get p.ephemeral_credentials device_id) [
      | none ↦ (store_ephemeral device_id fresh p, fresh)
      | some entry ↦
          if entry.manifest_hash == hash
          then (p, entry)
          else (store_ephemeral device_id fresh p, fresh)
    ]

-- The entry is changed in place; it is in the set of ephemeral devices already.
unfoldable pub approve_ephemeral_credential : String → String → Pairing → Pairing × Bool
approve_ephemeral_credential device_id hash p = elim (get p.ephemeral_credentials device_id) [
  | none ↦ (p, false)
  | some entry ↦
      if entry.manifest_hash == hash
      then (
        record p {
          ephemeral_credentials =
              set p.ephemeral_credentials device_id (record entry { status = approved });
        },
        true,
      )
      else (p, false)
]

unfoldable pub get_secret_for_sid : String → Pairing → Option String
get_secret_for_sid sid p = elim (get p.sid_to_device sid) [
  | none ↦ none
  | some device_id ↦ get p.approved_secrets device_id
]

-- The secret of the device that owns the first manifest, in the order of registration, that has
-- this id or a task with it.
unfoldable pub get_secret_for_source : String → Registry → Pairing → Option String
get_secret_for_source source_id r p = elim (find_owner source_id (manifests r.providers)) [
  | none ↦ none
  | some m ↦ get p.approved_secrets (resolve_device_id m)
]

-- the loop of `forget_secret` over the sessions
pub unmap_device : String → List String → Dict String → Dict String
unmap_device device_id [] d = d
unmap_device device_id (sid ∷ sids) d =
    unmap_device device_id sids (if opt_eq (get d sid) (some device_id) then pop d sid else d)

abbrev sessions : Dict String → List String
sessions = map (λ e. e.0)

unfoldable pub forget_secret : String → Pairing → Pairing
forget_secret device_id p = record p {
  approved_secrets = pop p.approved_secrets device_id;
  sid_to_device = unmap_device device_id (sessions p.sid_to_device) p.sid_to_device;
  ephemeral_credentials = pop p.ephemeral_credentials device_id;
  ephemeral_devices = discard p.ephemeral_devices device_id;
}

unfoldable pub forget_ephemeral : Option String → Pairing → Pairing
forget_ephemeral none p = p
forget_ephemeral (some device_id) p =
    if has p.ephemeral_devices device_id
    then record p {
      approved_secrets = pop p.approved_secrets device_id;
      ephemeral_credentials = pop p.ephemeral_credentials device_id;
      ephemeral_devices = discard p.ephemeral_devices device_id;
    }
    else p

unfoldable pub drop_session_auth : String → Pairing → Pairing × Option String
drop_session_auth sid p =
    let device_id = get p.sid_to_device sid in
    (forget_ephemeral device_id (record p { sid_to_device = pop p.sid_to_device sid }), device_id)

unfoldable pub issue_auto_approve_token : String → Option String → ℕ → Pairing → Pairing
issue_auto_approve_token token script now p = record p {
  auto_approve_tokens =
      set p.auto_approve_tokens token (record { issued_at = now; script = script });
}

-- `none` is a token that is no text.
unfoldable pub consume_auto_approve_token : Option String → Pairing → Pairing × Bool
consume_auto_approve_token none p = (p, false)
consume_auto_approve_token (some token) p =
    if truthy token
    then (
      record p { auto_approve_tokens = pop p.auto_approve_tokens token },
      is_some (get p.auto_approve_tokens token),
    )
    else (p, false)

unfoldable pub mark_ui_internal : String → Pairing → Pairing
mark_ui_internal source_id p =
    if truthy source_id
    then record p { ui_internal_sources = add p.ui_internal_sources source_id }
    else p

unfoldable pub is_ui_internal : String → Pairing → Bool
is_ui_internal source_id p = has p.ui_internal_sources source_id

pub discard_tasks : List Task → TextSet → TextSet
discard_tasks [] s = s
discard_tasks (t ∷ ts) s = discard_tasks ts (if truthy t.id then discard s t.id else s)

pub discard_sources : List Manifest → TextSet → TextSet
discard_sources [] s = s
discard_sources (m ∷ ms) s =
    discard_sources ms (discard_tasks m.tasks (if truthy m.id then discard s m.id else s))

unfoldable pub forget_sources : List Manifest → Pairing → Pairing
forget_sources ms p = record p { ui_internal_sources = discard_sources ms p.ui_internal_sources }
