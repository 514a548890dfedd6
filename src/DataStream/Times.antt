-- ===== src/DataStream/Times.antt =====
-- The times of a packet on the server's clock.
use elab_core.Prelude.{ℕ, ◌≤◌, ◌<◌, ◌≡◌, true, false, some, [], opt_eq, arith, distance, length}
use elab_core.Offsets.{Offset, Offsets, drift, get_offset}
use elab_core.Offsets.Clock.{get_offset_lem}
use elab_core.DataStream.{
  Packet, Env, shifted, epoch_limit, all_numbers, normalize_timestamp, shift_array, normalize_array,
  normalize_times,
}

near_lem : (o : Offset) (t now : ℕ) → drift o t now ≤ 2000 → distance (shifted o t) now ≤ 2000
near_lem o t now h = ground (arith, h)

-- A packet of one sample with a time of the device's own, which is no epoch time, comes out with a time
-- that is no more than two seconds from the server's clock, and the cache of offsets stays within its
-- limit.
pub normalize_times_near :
    (e : Env) (x : Packet) (t : ℕ) (d : Offsets)
    → 0 < e.max_offsets
    → length d ≤ e.max_offsets
    → opt_eq x.distribution (some "linear") ≡ false
    → x.timestamps ≡ []
    → x.timestamp ≡ some t
    → t < epoch_limit
    → let (x', (server, d')) = normalize_times e x d in
      (t' : ℕ) × (x'.timestamp ≡ some t')
      × (distance t' e.now_ms ≤ 2000)
      × (server ≡ true)
      × (length d' ≤ e.max_offsets)
unfolding normalize_times normalize_array all_numbers shift_array normalize_timestamp
normalize_times_near e x t d room small discrete single there own =
    let (d', o) = get_offset e.max_offsets x.signed.source_id t e.now_ms d in
    let (size, kept, near, same) =
      get_offset_lem e.max_offsets x.signed.source_id t e.now_ms d room small in
    (
      shifted o t,
      ground (arith, discrete, single, there, own),
      near_lem o t e.now_ms near,
      ground (arith, discrete, single, there, own),
      ground (arith, discrete, single, there, own, size),
    )
