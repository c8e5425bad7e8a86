-- ===== src/Meta/Tests.antt =====
-- Runs of the counts on concrete files.
use vaporcito.Base.{some, ◌≡◌, refl, arith}
use vaporcito.Base.Int.{pos, ◌+ℤ◌}
use vaporcito.Base.Bytes.{bytes_equal, codes}
use vaporcito.FileInfo.Sample.{empty_file}
use vaporcito.DeviceId.{local_device_id, global_device_id}
use vaporcito.FileInfo.{FileInfo, file_size, is_invalid, is_directory, is_symlink}
use vaporcito.Meta.{
  MetadataTracker, new_metadata_tracker, counts_ptr, add_file, add_int64, kind, add_kind,
  find_index, add_file_locked, remove_file_locked, update_seq_locked, update_file_locked,
}
use vaporcito.Meta.Buckets.{Roomy}
use vaporcito.Meta.Keys.{Keyed}
use vaporcito.Meta.Tracker.{pointed, remove_file_locked-add_file_locked}
use vaporcito.Meta.Reach.{Reach, stays, steps, adds, Reach-Keyed}

abbrev report : FileInfo
report = record empty_file { name = codes "report.pdf"; size = pos 700; sequence = pos 9 }

-- The report is known locally and is the global version.
abbrev known : MetadataTracker
known = add_file (add_file new_metadata_tracker local_device_id report) global_device_id report

reached : Reach new_metadata_tracker known
reached =
    steps (steps (stays new_metadata_tracker) (adds _ local_device_id report))
      (adds _ global_device_id report)

Reach-Keyed_example : Keyed known
Reach-Keyed_example = Reach-Keyed reached

counted_once : (pointed known local_device_id 0).files ≡ pos 1
unfolding counts_ptr add_file update_file_locked update_seq_locked add_file_locked find_index
    add_kind add_int64 kind bytes_equal is_invalid is_directory is_symlink ◌+ℤ◌
counted_once = refl

known-Roomy : Roomy (pointed known local_device_id 0)
unfolding counts_ptr add_file update_file_locked update_seq_locked add_file_locked find_index
    add_kind add_int64 kind bytes_equal is_invalid is_directory is_symlink file_size ◌+ℤ◌
known-Roomy = record {
  files = (refl, omega arith);
  directories = (refl, omega arith);
  symlinks = (refl, omega arith);
  deleted = (refl, omega arith);
  bytes = (omega arith, omega arith);
}

remove_file_locked-add_file_locked_example :
    remove_file_locked (add_file_locked known local_device_id 0 report) local_device_id 0 report
    ≡ (counts_ptr known local_device_id 0).0
unfolding file_size is_directory is_symlink
remove_file_locked-add_file_locked_example =
    remove_file_locked-add_file_locked known local_device_id 0 report (Reach-Keyed reached)
      known-Roomy (omega arith, omega arith)

global_there : find_index known.indexes global_device_id 0 ≡ some 2
unfolding counts_ptr add_file update_file_locked update_seq_locked add_file_locked find_index
    bytes_equal is_invalid
global_there = refl
