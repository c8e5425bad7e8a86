-- ===== src/Puller.antt =====
-- The state that is kept for each file that is being synced: back/lib/model/sharedpullerstate.go.
-- A method runs under the state's mutex. The clock is an argument, counters are integers, and what
-- concerns the temporary file itself is left out: whether a writer is open stands for it.
pub mod Progress
pub mod History
mod Tests
use vaporcito.Base.{
  ℕ, ◌+◌, ◌*◌, ◌/◌, List, [], ◌∷◌, ◌++◌, Bool, true, false, ◌&&◌, ◌||◌, not, Option, none, some,
  length, ltb, ◌==◌, if◌then◌else◌,
}
use vaporcito.Base.Int.{ℤ, pos, negsuc, sub_ℕ, pos_part, neg_part, ◌+ℤ◌, ◌-ℤ◌, ◌*ℤ◌, ltb_ℤ, ◌==ℤ◌}
use vaporcito.FileInfo.{FileInfo, BlockInfo, block_size}

-- An error, by a number.
abbrev pub Error : Type 0
Error = ℕ

pub record SharedPullerState : Type 0 where
  pub file : FileInfo
  pub reused : ℤ
  pub created : ℤ
  pub err : Option Error
  pub writer : Bool
  pub copy_total : ℤ
  pub pull_total : ℤ
  pub copy_origin : ℤ
  pub copy_origin_shifted : ℤ
  pub copy_needed : ℤ
  pub pull_needed : ℤ
  pub updated : ℤ
  pub closed : Bool
  pub available : List ℤ
  pub available_updated : ℤ

unfoldable pub new_shared_puller_state : FileInfo → List BlockInfo → List ℤ → ℤ → SharedPullerState
new_shared_puller_state file blocks reused now = record {
  file = file;
  reused = pos (length reused);
  created = now;
  err = none;
  writer = false;
  copy_total = pos (length blocks);
  pull_total = pos 0;
  copy_origin = pos 0;
  copy_origin_shifted = pos 0;
  copy_needed = pos (length blocks);
  pull_needed = pos 0;
  updated = now;
  closed = false;
  available = reused;
  available_updated = now;
}

-- An integer division rounds towards zero.
abbrev pub quot_ℤ : ℤ → ℤ → ℤ
quot_ℤ (pos a) (pos b) = pos (a / b)
quot_ℤ (pos a) (negsuc b) = sub_ℕ 0 (a / (b + 1))
quot_ℤ (negsuc a) (pos b) = sub_ℕ 0 ((a + 1) / b)
quot_ℤ (negsuc a) (negsuc b) = pos ((a + 1) / (b + 1))

unfoldable pub fail_locked : SharedPullerState → Option Error → SharedPullerState
fail_locked s none = s
fail_locked s (some e) = elim s.err [ some old ↦ s | none ↦ record s { err = some e } ]

-- The index of a block in its file.
abbrev pub index_of : SharedPullerState → BlockInfo → ℤ
index_of s block = quot_ℤ block.offset (block_size s.file)

unfoldable pub copy_done : SharedPullerState → BlockInfo → ℤ → SharedPullerState
copy_done s block now = record s {
  copy_needed = s.copy_needed -ℤ pos 1;
  updated = now;
  available = s.available ++ index_of s block ∷ [];
  available_updated = now;
}

unfoldable pub copied_from_origin : SharedPullerState → ℤ → SharedPullerState
copied_from_origin s now = record s { copy_origin = s.copy_origin +ℤ pos 1; updated = now }

unfoldable pub skipped_sparse_block : SharedPullerState → ℤ → SharedPullerState
skipped_sparse_block s now = record s { copy_origin = s.copy_origin +ℤ pos 1; updated = now }

unfoldable pub copied_from_origin_shifted : SharedPullerState → ℤ → SharedPullerState
copied_from_origin_shifted s now = record s {
  copy_origin = s.copy_origin +ℤ pos 1;
  copy_origin_shifted = s.copy_origin_shifted +ℤ pos 1;
  updated = now;
}

unfoldable pub pull_started : SharedPullerState → ℤ → SharedPullerState
pull_started s now = record s {
  copy_total = s.copy_total -ℤ pos 1;
  copy_needed = s.copy_needed -ℤ pos 1;
  pull_total = s.pull_total +ℤ pos 1;
  pull_needed = s.pull_needed +ℤ pos 1;
  updated = now;
}

unfoldable pub pull_done : SharedPullerState → BlockInfo → ℤ → SharedPullerState
pull_done s block now = record s {
  pull_needed = s.pull_needed -ℤ pos 1;
  updated = now;
  available = s.available ++ index_of s block ∷ [];
  available_updated = now;
}

pub record PullerProgress : Type 0 where
  pub total : ℤ
  pub reused : ℤ
  pub copied_from_origin : ℤ
  pub copied_from_elsewhere : ℤ
  pub pulled : ℤ
  pub pulling : ℤ
  pub bytes_total : ℤ
  pub bytes_done : ℤ

-- The remainder of a division that rounds towards zero.
abbrev pub rem_ℤ : ℤ → ℤ → ℤ
rem_ℤ a b = a -ℤ quot_ℤ a b *ℤ b

unfoldable pub blocks_to_size : ℤ → ℤ → ℤ → ℤ → ℤ
blocks_to_size blocks blocks_in_file block_size file_size =
    if blocks_in_file ==ℤ pos 0
    then pos 0
    else blocks *ℤ block_size
      -ℤ quot_ℤ ((block_size -ℤ rem_ℤ file_size block_size) *ℤ blocks) blocks_in_file

unfoldable pub progress : SharedPullerState → PullerProgress
progress s =
    let total = s.reused +ℤ s.copy_total +ℤ s.pull_total in
    let done = total -ℤ s.copy_needed -ℤ s.pull_needed in
    let file = pos (length s.file.blocks) in
    record {
      total = total;
      reused = s.reused;
      copied_from_origin = s.copy_origin;
      copied_from_elsewhere = s.copy_total -ℤ s.copy_needed -ℤ s.copy_origin;
      pulled = s.pull_total -ℤ s.pull_needed;
      pulling = s.pull_needed;
      bytes_total = blocks_to_size total file (block_size s.file) s.file.size;
      bytes_done = blocks_to_size done file (block_size s.file) s.file.size;
    }

-- What writing the trailer of an encrypted file does: no writer could be opened, the write failed,
-- or so many bytes were written.
pub data Finalizing : Type 0 where
  no_writer : Error → Finalizing
  unwritten : Error → Finalizing
  written : ℤ → Finalizing

unfoldable pub finalize_encrypted :
    SharedPullerState → Finalizing → SharedPullerState × Option Error
finalize_encrypted s (no_writer e) = (s, some e)
finalize_encrypted s (unwritten e) = (record s { writer = true }, some e)
finalize_encrypted s (written n) = (
  record s {
    writer = true;
    file = record s.file { size = s.file.size +ℤ n; encryption_trailer_size = n };
  },
  none,
)

-- The first error stays.
unfoldable pub sync_close : SharedPullerState → Option Error → SharedPullerState
unfolding fail_locked
sync_close s e = if s.writer then record (fail_locked s e) { writer = false } else s

abbrev pub keep_error : SharedPullerState × Option Error → SharedPullerState
keep_error (s, e) = fail_locked s e

abbrev pub is_some {ℓ} : {A : Type ℓ} → Option A → Bool
is_some none = false
is_some (some a) = true

-- The part of `finalClose` behind its guards.
unfoldable pub close_now : SharedPullerState → Finalizing → Option Error → SharedPullerState
close_now s trailer close_error =
    let finalized =
      (if ltb 0 (length s.file.encrypted) then keep_error (finalize_encrypted s trailer) else s) in
    record (sync_close finalized close_error) { closed = true }

abbrev pub not_done : SharedPullerState → Bool
not_done s = not (s.pull_needed +ℤ s.copy_needed ==ℤ pos 0) && not (is_some s.err)

-- The state, whether the file is to be finished, and the error.
unfoldable pub final_close :
    SharedPullerState → Finalizing → Option Error → SharedPullerState × Bool × Option Error
final_close s trailer close_error =
    if s.closed
    then (s, false, none)
    else if not_done s
    then (s, false, none)
    else (close_now s trailer close_error, true, (close_now s trailer close_error).err)
