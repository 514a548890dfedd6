-- ===== src/Offsets.antt =====
-- The cache of clock offsets of elab_server/socket_handlers/_helpers.py: `_get_offset` and
-- `_drop_time_offsets_for`. A time is a natural number of milliseconds.
pub mod Clock
use elab_core.Prelude.{
  ℕ, String, ◌+◌, ◌-◌, Bool, true, false, not, Option, none, some, List, [], ◌∷◌, ◌==◌, ◌&&◌,
  is_some, length, leb, ltb, if◌then◌else◌, distance,
}
use elab_core.Prelude.Dict.{Dict, get, set, pop}

-- The difference of two clock readings, the server's and the client's.
pub record Offset : Type 0 where
  pub plus : ℕ
  pub minus : ℕ

abbrev pub Offsets : Type 0
Offsets = Dict Offset

-- `abs((client_ts_ms + offset) - now_ms)`
abbrev pub drift : Offset → ℕ → ℕ → ℕ
drift o client_ts now = distance (client_ts + o.plus) (now + o.minus)

pub pop_oldest : Offsets → Offsets
pop_oldest [] = []
pop_oldest ((k, o) ∷ d) = pop ((k, o) ∷ d) k

-- a new offset is stored, in place of the oldest one if the cache is full
pub renew_offset : ℕ → String → Offset → Offsets → Offsets
renew_offset limit source_id o d =
    if not (is_some (get d source_id)) && leb limit (length d)
    then set (pop_oldest d) source_id o
    else set d source_id o

-- `limit` is `_MAX_TIME_OFFSETS`
pub get_offset : ℕ → String → ℕ → ℕ → Offsets → Offsets × Offset
get_offset limit source_id client_ts now d =
    let fresh : Offset = record { plus = now; minus = client_ts } in
    elim (get d source_id) [
      | none ↦ (renew_offset limit source_id fresh d, fresh)
      | some o ↦
          if ltb 2000 (drift o client_ts now)
          then (renew_offset limit source_id fresh d, fresh)
          else (set (pop d source_id) source_id o, o)
    ]

pub drop_time_offsets_for : List String → Offsets → Offsets
drop_time_offsets_for [] d = d
drop_time_offsets_for (k ∷ ks) d = drop_time_offsets_for ks (pop d k)
