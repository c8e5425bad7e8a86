-- ===== src/FileInfo/Tests.antt =====
-- File metadata at concrete inputs.
use vaporcito.Base.{◌^◌, ◌≡◌, refl, [], ◌∷◌, true, false, not, arith}
use vaporcito.Base.Int.{pos, ◌+ℤ◌, ◌*ℤ◌}
use vaporcito.Base.Bytes.{codes, bytes_equal}
use vaporcito.Platform.{nil}
use vaporcito.Vector.{compare, judge, concurrent}
use vaporcito.FileInfo.{
  BlockInfo, FileInfo, FileInfoComparison, file, wins_conflict, is_invalid, mod_time,
  mod_time_equal, is_equivalent, must_rescan, inode_changed, masked, header_differs,
  ownership_differs, xattrs_differ, perms_differ, perms_equal, content_equal, blocks_equal,
}
use vaporcito.FileInfo.Conflict.{wins_conflict_total}
use vaporcito.FileInfo.Equivalence.{is_equivalent_comm}
use vaporcito.FileInfo.Times.{mod_time_equal_overflows}

abbrev first_block : BlockInfo
first_block = record { hash = 1 ∷ 2 ∷ []; offset = pos 0; size = pos 5; weak_hash = 3 }

-- The same hash elsewhere in the file.
abbrev moved_block : BlockInfo
moved_block = record { hash = 1 ∷ 2 ∷ []; offset = pos 5; size = pos 5; weak_hash = 4 }

abbrev notes : FileInfo
notes = record {
  name = codes "notes.txt";
  size = pos 5;
  modified_s = pos 1600;
  modified_by = 2;
  version = record { counters = record { id = 2; value = 4 } ∷ [] };
  sequence = pos 9;
  blocks = first_block ∷ [];
  symlink_target = [];
  blocks_hash = [];
  encrypted = [];
  type = file;
  permissions = 0o644;
  modified_ns = pos 0;
  raw_block_size = pos 0;
  platform = record {
    unix = nil;
    windows = nil;
    linux = nil;
    darwin = nil;
    free_bsd = nil;
    net_bsd = nil;
  };
  local_flags = 0;
  version_hash = [];
  inode_change_ns = pos 0;
  encryption_trailer_size = pos 0;
  deleted = false;
  raw_invalid = false;
  no_permissions = false;
}

-- Changed at another device at the same time, and equal on disk.
abbrev twin : FileInfo
twin = record notes {
  version = record { counters = record { id = 5; value = 1 } ∷ [] };
  blocks = moved_block ∷ [];
}

abbrev strict : FileInfoComparison
strict = record {
  mod_time_window = pos 0;
  ignore_perms = false;
  ignore_blocks = false;
  ignore_flags = 0;
  ignore_ownership = false;
  ignore_xattrs = false;
}

notes_win : wins_conflict notes twin ≡ true
unfolding wins_conflict is_invalid mod_time ◌+ℤ◌ ◌*ℤ◌ compare judge
notes_win = refl

notes_like_twin : is_equivalent false notes twin strict ≡ true
unfolding is_equivalent must_rescan inode_changed masked header_differs is_invalid ownership_differs
    xattrs_differ perms_differ perms_equal content_equal mod_time_equal mod_time ◌+ℤ◌ ◌*ℤ◌
    blocks_equal bytes_equal
notes_like_twin = refl

wins_conflict_total_example : wins_conflict notes twin ≡ not (wins_conflict twin notes)
unfolding concurrent judge
wins_conflict_total_example = wins_conflict_total notes twin refl

is_equivalent_comm_example :
    is_equivalent false notes twin strict ≡ is_equivalent false twin notes strict
unfolding mod_time ◌+ℤ◌ ◌*ℤ◌
is_equivalent_comm_example = is_equivalent_comm false notes twin strict (omega arith)

mod_time_equal_overflows_example : mod_time_equal (pos 0) (pos (2 ^ 63)) (pos 0) ≡ true
mod_time_equal_overflows_example =
    mod_time_equal_overflows (pos 0) (pos (2 ^ 63)) (pos 0) (omega arith) refl
