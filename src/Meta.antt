-- ===== src/Meta.antt =====
-- The counts of files per device and local flag: back/lib/db/meta.go, with `Counts` of
-- back/lib/db/structs.go. A method runs under the tracker's mutex, so it is one function of the
-- state. An int is 64 bits wide. Callers pass a flag of at most one bit; the panic on others and the
-- failure events are left out.
mod Bucket
pub mod Buckets
pub mod Keys
pub mod Tracker
pub mod Removal
pub mod Reach
mod Tests
unfoldable pub use Bucket.*
use Prim.Native.Nat.{bit_and, bit_or}
use vaporcito.Base.{
  ℕ, zero, suc, ◌+◌, ◌*◌, ◌^◌, List, [], ◌∷◌, ◌++◌, Bool, true, false, ◌&&◌, ◌||◌, not, Option,
  none, some, length, ltb, ◌==◌, if◌then◌else◌,
}
use vaporcito.Base.Int.{ℤ, pos, ltb_ℤ, ◌+ℤ◌, ◌-ℤ◌, ◌==ℤ◌, wrap_int64}
use vaporcito.Base.Bytes.{Bytes, bytes_equal}
use vaporcito.DeviceId.{local_device_id, global_device_id}
use vaporcito.FileInfo.{FileInfo, is_invalid, is_directory, is_symlink, file_size, clear_bits}

-- An entry of the index map: the key, and where its counts stand. Later entries shadow earlier ones.
pub record Index : Type 0 where
  pub dev : Bytes
  pub flag : ℕ
  pub place : ℕ

pub record MetadataTracker : Type 0 where
  pub counts : List Counts
  pub created : ℤ
  pub indexes : List Index
  pub dirty : Bool

-- The last bit of a uint32.
abbrev pub need_flag : ℕ
need_flag = 2 ^ 31

abbrev pub new_metadata_tracker : MetadataTracker
new_metadata_tracker = record { counts = []; created = pos 0; indexes = []; dirty = false }

abbrev pub is_key : Index → Bytes → ℕ → Bool
is_key i dev flag = bytes_equal i.dev dev && (i.flag == flag)

unfoldable pub find_index : List Index → Bytes → ℕ → Option ℕ
find_index [] dev flag = none
find_index (i ∷ is) dev flag =
    let rest = find_index is dev flag in if is_key i dev flag then some i.place else rest

abbrev pub counts_at : List Counts → ℕ → Counts
counts_at [] i = no_counts [] 0
counts_at (c ∷ cs) zero = c
counts_at (c ∷ cs) (suc i) = counts_at cs i

abbrev pub set_counts : List Counts → ℕ → Counts → List Counts
set_counts [] i w = []
set_counts (c ∷ cs) zero w = w ∷ cs
set_counts (c ∷ cs) (suc i) w = c ∷ set_counts cs i w

abbrev pub needed_of : List Counts → Option ℕ → Bytes → Counts
needed_of cs none dev = no_counts dev need_flag
needed_of cs (some i) dev = record (counts_at cs i) {
  deleted = pos 0;
  device_id = dev;
  local_flags = need_flag;
}

unfoldable pub all_needed_counts : MetadataTracker → Bytes → Counts
all_needed_counts m dev = needed_of m.counts (find_index m.indexes global_device_id 0) dev

-- Counts that go to the end under a new key.
abbrev pub append_counts : MetadataTracker → Bytes → ℕ → Counts → MetadataTracker
append_counts m dev flag c = record m {
  counts = m.counts ++ c ∷ [];
  indexes = record { dev = dev; flag = flag; place = length m.counts } ∷ m.indexes;
}

abbrev pub with_need : MetadataTracker → Bytes → Option ℕ → MetadataTracker
with_need m dev (some i) = m
with_need m dev none = append_counts m dev need_flag (all_needed_counts m dev)

abbrev pub ptr_at : MetadataTracker → Bytes → ℕ → Option ℕ → MetadataTracker × ℕ
ptr_at m dev flag (some i) = (m, i)
ptr_at m dev flag none =
    let added = append_counts m dev flag (no_counts dev flag) in
    (with_need added dev (find_index added.indexes dev need_flag), length m.counts)

-- The pointer is the place of the counts.
unfoldable pub counts_ptr : MetadataTracker → Bytes → ℕ → MetadataTracker × ℕ
counts_ptr m dev flag = ptr_at m dev flag (find_index m.indexes dev flag)

unfoldable pub add_file_locked : MetadataTracker → Bytes → ℕ → FileInfo → MetadataTracker
add_file_locked m dev flag f =
    let p = counts_ptr m dev flag in
    record p.0 {
      counts =
          set_counts p.0.counts p.1 (add_kind (kind f) (file_size f) (counts_at p.0.counts p.1));
    }

-- An impossible count is corrected, and the creation time is then zero.
unfoldable pub remove_file_locked : MetadataTracker → Bytes → ℕ → FileInfo → MetadataTracker
remove_file_locked m dev flag f =
    let p = counts_ptr m dev flag in
    let c = remove_kind (kind f) (file_size f) (counts_at p.0.counts p.1) in
    record p.0 {
      counts = set_counts p.0.counts p.1 (corrected c);
      created = if is_impossible c then pos 0 else p.0.created;
    }

unfoldable pub update_seq_locked : MetadataTracker → Bytes → FileInfo → MetadataTracker
update_seq_locked m dev f =
    let p = counts_ptr m dev 0 in
    let c = counts_at p.0.counts p.1 in
    if bytes_equal dev global_device_id
    then m
    else if ltb_ℤ c.sequence f.sequence
    then record p.0 { counts = set_counts p.0.counts p.1 (record c { sequence = f.sequence }) }
    else p.0

-- The loop of `eachFlagBit` from a bit on: `rounds` bits of a uint32 are left.
unfoldable pub flag_bits : ℕ → ℕ → ℕ → List ℕ
flag_bits zero bit flags = []
flag_bits (suc rounds) bit flags =
    let found = bit ∷ flag_bits rounds (bit * 2) (clear_bits flags bit) in
    let on = flag_bits rounds (bit * 2) flags in
    if flags == 0 then [] else if bit_and flags bit == 0 then on else found

unfoldable pub each_flag_bit :
    MetadataTracker → List ℕ → (MetadataTracker → ℕ → MetadataTracker) → MetadataTracker
each_flag_bit m [] fn = m
each_flag_bit m (flag ∷ flags) fn = each_flag_bit (fn m flag) flags fn

unfoldable pub update_file_locked :
    MetadataTracker → Bytes → FileInfo → (MetadataTracker → ℕ → MetadataTracker) → MetadataTracker
update_file_locked m0 dev f fn =
    let m = record m0 { dirty = true } in
    if is_invalid f && ((f.local_flags == 0) || bytes_equal dev global_device_id)
    then m
    else if f.local_flags == 0
    then fn m 0
    else each_flag_bit m (flag_bits 32 1 f.local_flags) fn

unfoldable pub add_file : MetadataTracker → Bytes → FileInfo → MetadataTracker
add_file m dev f =
    update_file_locked (update_seq_locked m dev f) dev f (λ m flag. add_file_locked m dev flag f)

unfoldable pub remove_file : MetadataTracker → Bytes → FileInfo → MetadataTracker
remove_file m dev f = update_file_locked m dev f (λ m flag. remove_file_locked m dev flag f)

unfoldable pub add_needed : MetadataTracker → Bytes → FileInfo → MetadataTracker
add_needed m dev f = add_file_locked (record m { dirty = true }) dev need_flag f

unfoldable pub remove_needed : MetadataTracker → Bytes → FileInfo → MetadataTracker
remove_needed m dev f = remove_file_locked (record m { dirty = true }) dev need_flag f

abbrev pub emptied : MetadataTracker → Bytes → Option ℕ → MetadataTracker
emptied m dev none = append_counts m dev need_flag (no_counts dev need_flag)
emptied m dev (some i) = record m { counts = set_counts m.counts i (no_counts dev need_flag) }

unfoldable pub empty_needed : MetadataTracker → Bytes → MetadataTracker
empty_needed m dev = emptied (record m { dirty = true }) dev (find_index m.indexes dev need_flag)

unfoldable pub sequence_of : MetadataTracker → Bytes → MetadataTracker × ℤ
sequence_of m dev = let p = counts_ptr m dev 0 in (p.0, (counts_at p.0.counts p.1).sequence)

unfoldable pub next_local_seq : MetadataTracker → MetadataTracker × ℤ
next_local_seq m =
    let p = counts_ptr m local_device_id 0 in
    let c = counts_at p.0.counts p.1 in
    let next = add_int64 c.sequence (pos 1) in
    (record p.0 { counts = set_counts p.0.counts p.1 (record c { sequence = next }) }, next)

-- `before` holds the counts that the loop has passed, already reset.
unfoldable pub reset_all_loop : MetadataTracker → List Counts → List Counts → Bytes → List Counts
reset_all_loop m before [] dev = before
reset_all_loop m before (c ∷ cs) dev =
    let now = record m { counts = before ++ c ∷ cs } in
    let new =
      (if not (bytes_equal c.device_id dev)
        then c
        else if not (c.local_flags == need_flag)
        then no_counts c.device_id c.local_flags
        else all_needed_counts now dev) in
    reset_all_loop m (before ++ new ∷ []) cs dev

unfoldable pub reset_all : MetadataTracker → Bytes → MetadataTracker
reset_all m dev = record m { counts = reset_all_loop m [] m.counts dev; dirty = true }

unfoldable pub reset_counts_loop : List Counts → Bytes → List Counts
reset_counts_loop [] dev = []
reset_counts_loop (c ∷ cs) dev =
    (if bytes_equal c.device_id dev
      then record (no_counts c.device_id c.local_flags) { sequence = c.sequence }
      else c)
    ∷ reset_counts_loop cs dev

unfoldable pub reset_counts : MetadataTracker → Bytes → MetadataTracker
reset_counts m dev = record m { counts = reset_counts_loop m.counts dev; dirty = true }

abbrev pub counts_or_needed : MetadataTracker → Bytes → ℕ → Option ℕ → Counts
counts_or_needed m dev flag (some i) = counts_at m.counts i
counts_or_needed m dev flag none =
    if flag == need_flag then all_needed_counts m dev else no_counts [] 0

unfoldable pub counts : MetadataTracker → Bytes → ℕ → Counts
counts m dev flag = counts_or_needed m dev flag (find_index m.indexes dev flag)

-- The loop of `devices`; every id has its 32 bytes.
unfoldable pub devices : List Counts → List Bytes
devices [] = []
devices (c ∷ cs) =
    let rest = devices cs in
    if ltb_ℤ (pos 0) c.sequence
    then (if bytes_equal c.device_id global_device_id || bytes_equal c.device_id local_device_id
        then rest
        else c.device_id ∷ rest)
    else rest

-- `now` is the clock in nanoseconds.
unfoldable pub set_created : MetadataTracker → ℤ → MetadataTracker
set_created m now = record m { created = now; dirty = true }
