-- ===== src/SharedMemory.antt =====
-- `SharedMemoryChannel` of elab_api/shared_memory_channel.py: a ring of samples in a shared memory
-- block, behind a header with the number of samples written, the time and the size of the last chunk.
pub mod Window
pub mod Refine
pub mod Reads
use elab_core.Prelude.{
  ℕ, ◌+◌, ◌-◌, ◌*◌, ◌/◌, ◌%◌, min, Bool, List, [], ◌∷◌, ◌++◌, ◌||◌, length, leb, take, drop,
  if◌then◌else◌,
}

-- `_array` has `capacity` samples
pub record Channel {ℓ} (A : Type ℓ) : Type ℓ where
  pub capacity : ℕ
  pub array : List A
  pub write_index : ℕ
  pub timestamp_ns : ℕ
  pub chunk_size : ℕ

-- How a call of `write` ends. After a `struct.error` the contents of the header are not stated.
pub data Written {ℓ} (A : Type ℓ) : Type ℓ where
  returned : Channel A → Written A
  zero_division_error : Channel A → Written A
  value_error : Channel A → Written A
  struct_error : List A → Written A

-- `_HEADER_SIZE`, the size of "<QQI"
abbrev header_size : ℕ
header_size = 20

abbrev pub buf_size : ℕ → ℕ → ℕ
buf_size capacity itemsize = header_size + capacity * itemsize

-- the capacity that a process reads off the size of the block which it attaches to
pub attached_capacity : ℕ → ℕ → ℕ
attached_capacity size itemsize = (size - header_size) / itemsize

-- Does a field of "<QQI" overflow?
abbrev pub overflows : ℕ → ℕ → ℕ → Bool
overflows new_idx ts n =
    leb 18446744073709551616 new_idx || leb 18446744073709551616 ts || leb 4294967296 n

module _ {ℓ} {A : Type ℓ} where
  -- a new channel; `initial` is what the block holds at first
  unfoldable pub create : List A → Channel A
  create initial = record {
    capacity = length initial;
    array = initial;
    write_index = 0;
    timestamp_ns = 0;
    chunk_size = 0;
  }

  -- `_array[start : start + len(data)] = data`
  abbrev pub assign : ℕ → List A → List A → List A
  assign start chunk xs = take start xs ++ (chunk ++ drop (start + length chunk) xs)

  unfoldable pub publish : ℕ → ℕ → List A → Channel A → Written A
  publish ts n array c =
      if overflows (c.write_index + n) ts n
      then struct_error array
      else returned (record c {
        array = array;
        write_index = c.write_index + n;
        timestamp_ns = ts;
        chunk_size = n;
      })

  -- the slice `_array[: n - first] = data[first:]` is shorter than its value if that is longer
  -- than the whole array
  unfoldable pub write_around : ℕ → ℕ → List A → Channel A → Written A
  write_around ts idx chunk c =
      let first = c.capacity - idx in
      let array = assign idx (take first chunk) c.array in
      if leb (length chunk - first) c.capacity
      then publish ts (length chunk) (assign 0 (drop first chunk) array) c
      else value_error (record c { array = array })

  unfoldable pub write_at : ℕ → ℕ → List A → Channel A → Written A
  write_at ts idx chunk c =
      if leb (idx + length chunk) c.capacity
      then publish ts (length chunk) (assign idx chunk c.array) c
      else write_around ts idx chunk c

  -- `ts` is the clock at the end of the write
  unfoldable pub write : ℕ → List A → Channel A → Written A
  write ts [] c = returned c
  write ts (x ∷ xs) c =
      if leb c.capacity 0
      then zero_division_error c
      else write_at ts (c.write_index % c.capacity) (x ∷ xs) c

  -- `start` is `end - count`, which the code lets be negative
  pub read_between : ℕ → ℕ → Channel A → List A
  read_between end count c =
      if leb count end
      then take count (drop (end - count) c.array)
      else drop (end + c.capacity - count) c.array ++ take end c.array

  pub read_latest : ℕ → Channel A → List A
  read_latest count c =
      if leb c.write_index 0
      then []
      else read_between (c.write_index % c.capacity) (min (min count c.write_index) c.capacity) c
