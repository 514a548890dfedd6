-- ===== src/ConfigStore.antt =====
-- `ConfigStore` of elab_server/config_store.py. Each SQLite table is a dictionary from its primary
-- key to the row. Each method is one transaction under the store's lock; errors of the database
-- itself are left out.
pub mod Upsert
pub mod Credentials
pub mod Tasks
use elab_core.Prelude.{
  ℕ, String, ◌+◌, Bool, true, false, Option, none, some, List, [], ◌∷◌, ◌==◌, ◌&&◌, opt_eq, or_else,
  is_some, if◌then◌else◌,
}
use elab_core.Prelude.Dict.{Dict, get, set, pop}
use elab_core.Manifest.{Task}

-- The overrides of a task; `decimals` is only moved, never computed with.
pub record TaskConfig : Type 0 where
  pub alias : Option String
  pub color : Option String
  pub decimals : Option ℕ

abbrev pub no_config : TaskConfig
no_config = record { alias = none; color = none; decimals = none }

-- a row of `task_config`
pub record TaskRow : Type 0 where
  pub config : TaskConfig
  pub device_id : Option String

pub data Status : Type 0 where
  pending approved revoked : Status

-- a row of `provider_credentials`
pub record Credential : Type 0 where
  pub secret_hex : String
  pub manifest_hash : String
  pub status : Status
  pub created_at : ℕ
  pub approved_at : Option ℕ
  pub last_seen_at : Option ℕ
  pub last_client_ip : Option String

pub record ConfigStore : Type 0 where
  pub task_config : Dict TaskRow
  pub device_config : Dict (Option String)
  pub provider_credentials : Dict Credential
  pub server_metrics : Dict ℕ

abbrev pub empty : ConfigStore
empty = record {
  task_config = [];
  device_config = [];
  provider_credentials = [];
  server_metrics = [];
}

pub config_of : Option TaskRow → TaskConfig
config_of none = no_config
config_of (some row) = row.config

pub get_task_config : ConfigStore → String → TaskConfig
unfolding config_of
get_task_config c task_id = config_of (get c.task_config task_id)

pub name_of : Option (Option String) → Option String
name_of none = none
name_of (some name) = name

pub get_device_config : ConfigStore → String → Option String
unfolding name_of
get_device_config c device_id = name_of (get c.device_config device_id)

pub set_device_name : String → Option String → ConfigStore → ConfigStore
set_device_name device_id name c = record c { device_config = set c.device_config device_id name }

-- `_set_task_field`: the column that is written, with its value
pub data Field : Type 0 where
  alias : Option String → Field
  color : Option String → Field
  decimals : Option ℕ → Field

abbrev pub write_field : Field → TaskConfig → TaskConfig
write_field (alias v) c = record c { alias = v }
write_field (color v) c = record c { color = v }
write_field (decimals v) c = record c { decimals = v }

-- `COALESCE(excluded.device_id, task_config.device_id)`
pub upsert_row : Field → Option String → Option TaskRow → TaskRow
upsert_row f device_id none = record { config = write_field f no_config; device_id = device_id }
upsert_row f device_id (some row) = record {
  config = write_field f row.config;
  device_id = or_else device_id row.device_id;
}

pub set_task_field : Field → String → Option String → ConfigStore → ConfigStore
unfolding upsert_row
set_task_field f task_id device_id c = record c {
  task_config = set c.task_config task_id (upsert_row f device_id (get c.task_config task_id));
}

-- `DELETE FROM task_config WHERE device_id = ?`: what stays, and the number of rows that went
pub drop_rows_of : String → Dict TaskRow → Dict TaskRow × ℕ
drop_rows_of device_id [] = ([], 0)
drop_rows_of device_id ((k, row) ∷ d) =
    let (rest, n) = drop_rows_of device_id d in
    if opt_eq row.device_id (some device_id) then (rest, n + 1) else ((k, row) ∷ rest, n)

pub count_row : Bool → ℕ
count_row present = if present then 1 else 0

pub delete_device_config : String → ConfigStore → ConfigStore × ℕ
unfolding count_row
delete_device_config device_id c =
    let (rows, n) = drop_rows_of device_id c.task_config in
    (
      record c { device_config = pop c.device_config device_id; task_config = rows },
      count_row (is_some (get c.device_config device_id)) + n,
    )

pub or_zero : Option ℕ → ℕ
or_zero none = 0
or_zero (some n) = n

pub get_metric : ConfigStore → String → ℕ
unfolding or_zero
get_metric c key = or_zero (get c.server_metrics key)

pub increment_metric : String → ℕ → ConfigStore → ConfigStore × ℕ
increment_metric key amount c =
    let total = get_metric c key + amount in
    (record c { server_metrics = set c.server_metrics key total }, total)

unfoldable pub get_credential : ConfigStore → String → Option Credential
get_credential c device_id = get c.provider_credentials device_id

unfoldable pub is_approved : Status → Bool
is_approved approved = true
is_approved _ = false

-- the row that `upsert_pending_credential` leaves
unfoldable pub pending_row : String → String → Option String → ℕ → Option Credential → Credential
pending_row secret hash ip now none = record {
  secret_hex = secret;
  manifest_hash = hash;
  status = pending;
  created_at = now;
  approved_at = none;
  last_seen_at = some now;
  last_client_ip = ip;
}
pending_row secret hash ip now (some row) =
    if is_approved row.status && row.manifest_hash == hash
    then record row { last_seen_at = some now; last_client_ip = ip }
    else record row {
      secret_hex = secret;
      manifest_hash = hash;
      status = pending;
      approved_at = none;
      last_seen_at = some now;
      last_client_ip = ip;
    }

-- The credential that it returns is read back from the table.
unfoldable pub upsert_pending_credential :
    String → String → String → Option String → ℕ → ConfigStore → ConfigStore
unfolding pending_row is_approved
upsert_pending_credential device_id secret hash ip now c = record c {
  provider_credentials =
      set c.provider_credentials device_id
        (pending_row secret hash ip now (get c.provider_credentials device_id));
}

unfoldable pub approve_credential : String → String → ℕ → ConfigStore → ConfigStore × Bool
approve_credential device_id hash now c = elim (get c.provider_credentials device_id) [
  | none ↦ (c, false)
  | some row ↦
      if row.manifest_hash == hash
      then (
        record c {
          provider_credentials =
              set c.provider_credentials device_id
                (record row { status = approved; approved_at = some now });
        },
        true,
      )
      else (c, false)
]

unfoldable pub revoke_credential : String → ConfigStore → ConfigStore × Bool
revoke_credential device_id c = elim (get c.provider_credentials device_id) [
  | none ↦ (c, false)
  | some row ↦ (
    record c {
      provider_credentials = set c.provider_credentials device_id (record row { status = revoked });
    },
    true,
  )
]

pub delete_credential : String → ConfigStore → ConfigStore × Bool
delete_credential device_id c = (
  record c { provider_credentials = pop c.provider_credentials device_id },
  is_some (get c.provider_credentials device_id),
)
