-- ===== src/ConfigStore/Tasks.antt =====
-- The overrides of tasks and devices.
use elab_core.Prelude.{
  String, ◌+◌, ◌≡◌, refl, Bool, true, false, Option, none, some, [], ◌∷◌, ◌==◌, opt_eq,
  if◌then◌else◌, arith, eq_iff, length, is_some,
}
use elab_core.Prelude.Dict.{Dict, get, get-set, get-pop}
use elab_core.ConfigStore.{
  ConfigStore, TaskRow, Field, write_field, upsert_row, get_task_config, set_task_field, count_row,
  drop_rows_of, delete_device_config, get_device_config,
}

-- Writing one column of one task's overrides changes that column of that task and nothing else
-- that `get_task_config` returns.
pub get_task_config-set_task_field :
    (f : Field) (task_id : String) (device_id : Option String) (c : ConfigStore) (q : String)
    → get_task_config (set_task_field f task_id device_id c) q
      ≡ (if task_id == q then write_field f (get_task_config c q) else get_task_config c q)
unfolding get_task_config set_task_field
get_task_config-set_task_field f task_id device_id c q = ground (
  arith,
  get-set c.task_config task_id (upsert_row f device_id (get c.task_config task_id)) q,
  eq_iff task_id q,
)

-- Does a row of the table belong to the device?
abbrev pub belongs : String → TaskRow → Bool
belongs d row = opt_eq row.device_id (some d)

-- Are there rows of the device in the table?
abbrev pub has_rows : String → Dict TaskRow → Bool
has_rows d [] = false
has_rows d ((_, row) ∷ rows) = if belongs d row then true else has_rows d rows

no_rows_left : (d : String) (rows : Dict TaskRow) → has_rows d (drop_rows_of d rows).0 ≡ false
unfolding drop_rows_of
no_rows_left d [] = refl
no_rows_left d ((k, row) ∷ rows) = ground (arith, no_rows_left d rows)

rows_counted :
    (d : String) (rows : Dict TaskRow)
    → length (drop_rows_of d rows).0 + (drop_rows_of d rows).1 ≡ length rows
unfolding drop_rows_of
rows_counted d [] = omega arith
rows_counted d ((k, row) ∷ rows) = ground (arith, rows_counted d rows)

-- Deleting a device's configuration leaves no override that belongs to the device and no name
-- for it, keeps the names of all other devices, and the number that it returns is that of the
-- rows that went, of both tables.
pub delete_device_config_lem :
    (d : String) (c : ConfigStore)
    → let (c', n) = delete_device_config d c in
      (has_rows d c'.task_config ≡ false)
      × (get_device_config c' d ≡ none)
      × ((q : String) → (d == q) ≡ false → get_device_config c' q ≡ get_device_config c q)
      × (length c'.task_config + n
          ≡ length c.task_config + (if is_some (get c.device_config d) then 1 else 0))
unfolding delete_device_config get_device_config
delete_device_config_lem d c = (
  ground (arith, no_rows_left d c.task_config),
  ground (arith, get-pop c.device_config d d, eq_iff d d),
  λ q h. ground (arith, get-pop c.device_config d q, h),
  unfold count_row in ground (arith, rows_counted d c.task_config),
)
