-- ===== src/Meta/Removal.antt =====
-- What a removal does to the numbers of a bucket and to the creation time of the tracker.
use vaporcito.Base.{Bool, true, false}
use vaporcito.Base.Int.{ℤ}
use vaporcito.Base.Bytes.{Bytes}
use vaporcito.FileInfo.{FileInfo}
use vaporcito.Meta.{Counts, Kind, deleted_file, a_directory, a_symlink, a_file}

-- How many files of the kind a bucket counts.
abbrev pub number : Kind → Counts → ℤ
number deleted_file c = c.deleted
number a_directory c = c.directories
number a_symlink c = c.symlinks
number a_file c = c.files

abbrev pub same_kind : Kind → Kind → Bool
same_kind deleted_file deleted_file = true
same_kind a_directory a_directory = true
same_kind a_symlink a_symlink = true
same_kind a_file a_file = true
same_kind _ _ = false
