-- ===== src/Offsets/Clock.antt =====
-- The cache of clock offsets: its size, and how far a corrected time is from the server's.
use elab_core.Prelude.{
  ℕ, String, ◌≤◌, ◌<◌, ◌≡◌, refl, none, some, List, [], ◌∷◌, length, ltb, if◌then◌else◌, arith,
  eq_iff, Option-cases, Bool-cases, inl, inr,
}
use elab_core.Prelude.Dict.{get, pop, get-set, get-pop, length-set, length-pop}
use elab_core.Prelude.TextSet.{has}
use elab_core.Offsets.{
  Offset, Offsets, drift, pop_oldest, renew_offset, get_offset, drop_time_offsets_for,
}

length-pop_oldest : (d : Offsets) → 0 < length d → length (pop_oldest d) < length d
unfolding pop_oldest get
length-pop_oldest [] h = absurd (omega (arith, h))
length-pop_oldest ((k, o) ∷ d) h = ground (arith, length-pop ((k, o) ∷ d) k, eq_iff k k)

length-renew_offset :
    (limit : ℕ) (source_id : String) (o : Offset) (d : Offsets)
    → 0 < limit
    → length d ≤ limit
    → length (renew_offset limit source_id o d) ≤ limit
unfolding renew_offset
length-renew_offset limit source_id o d pos h = ground (
  arith,
  pos,
  h,
  length-pop_oldest d,
  length-set (pop_oldest d) source_id o,
  length-set d source_id o,
)

get-renew_offset :
    (limit : ℕ) (source_id : String) (o : Offset) (d : Offsets)
    → get (renew_offset limit source_id o d) source_id ≡ some o
unfolding renew_offset
get-renew_offset limit source_id o d = ground (
  arith,
  get-set (pop_oldest d) source_id o source_id,
  get-set d source_id o source_id,
  eq_iff source_id source_id,
)

fresh_is_exact :
    (client_ts now : ℕ) → drift (record { plus = now; minus = client_ts }) client_ts now ≤ 2000
fresh_is_exact client_ts now = omega arith

-- Whatever the cache holds: the offset that `get_offset` returns brings the client's time within
-- two seconds of the server's, it is the one in the cache afterwards, it is the old one if that
-- was close enough, and a cache within the limit stays within it.
pub get_offset_lem :
    (limit : ℕ) (source_id : String) (client_ts now : ℕ) (d : Offsets)
    → 0 < limit
    → length d ≤ limit
    → let (d', o) = get_offset limit source_id client_ts now d in
      (length d' ≤ limit)
      × (get d' source_id ≡ some o)
      × (drift o client_ts now ≤ 2000)
      × ((old : Offset) → get d source_id ≡ some old → drift old client_ts now ≤ 2000 → o ≡ old)
unfolding get_offset
get_offset_lem limit source_id client_ts now d pos h =
    let fresh : Offset = record { plus = now; minus = client_ts } in
    let size = length-renew_offset limit source_id fresh d pos h in
    let found = get-renew_offset limit source_id fresh d in
    elim (Option-cases (get d source_id)) [
      | inl e ↦ (
        ground (arith, e, size),
        ground (arith, e, found),
        ground (arith, e, fresh_is_exact client_ts now),
        λ old p. ground (arith, e, p),
      )
      | inr (o, e) ↦ elim (Bool-cases (ltb 2000 (drift o client_ts now))) [
        | inl far ↦ (
          ground (arith, e, far, size),
          ground (arith, e, far, found),
          ground (arith, e, far, fresh_is_exact client_ts now),
          λ old p. ground (arith, e, far, p),
        )
        | inr near ↦ (
          ground
              (arith, e, near, h, length-set (pop d source_id) source_id o, length-pop d source_id),
          ground (
            arith,
            e,
            near,
            get-set (pop d source_id) source_id o source_id,
            eq_iff source_id source_id,
          ),
          ground (arith, e, near),
          λ old p. ground (arith, e, near, p),
        )
      ]
    ]

-- Dropping the offsets of a disconnected session's sources drops exactly those.
pub get-drop_time_offsets_for :
    (ks : List String) (d : Offsets) (q : String)
    → get (drop_time_offsets_for ks d) q ≡ (if has ks q then none else get d q)
unfolding drop_time_offsets_for has
get-drop_time_offsets_for [] d q = refl
get-drop_time_offsets_for (k ∷ ks) d q =
    ground (arith, get-drop_time_offsets_for ks (pop d k) q, get-pop d k q)
