-- ===== src/Meta/Bucket.antt =====
-- `Counts` of back/lib/db/structs.go, and what back/lib/db/meta.go does to the counts of one bucket
-- when a file is added or removed. An int is 64 bits wide.
use Prim.Native.Nat.{bit_or}
use vaporcito.Base.{ℕ, Bool, ◌&&◌, ◌||◌, not, if◌then◌else◌}
use vaporcito.Base.Int.{ℤ, pos, ltb_ℤ, ◌+ℤ◌, ◌-ℤ◌, ◌==ℤ◌, wrap_int64}
use vaporcito.Base.Bytes.{Bytes}
use vaporcito.DeviceId.{empty_device_id}
use vaporcito.FileInfo.{FileInfo, is_directory, is_symlink}

pub record Counts : Type 0 where
  pub files : ℤ
  pub directories : ℤ
  pub symlinks : ℤ
  pub deleted : ℤ
  pub bytes : ℤ
  pub sequence : ℤ
  pub device_id : Bytes
  pub local_flags : ℕ

-- `Counts{DeviceID: dev, LocalFlags: flag}`
abbrev pub no_counts : Bytes → ℕ → Counts
no_counts dev flag = record {
  files = pos 0;
  directories = pos 0;
  symlinks = pos 0;
  deleted = pos 0;
  bytes = pos 0;
  sequence = pos 0;
  device_id = dev;
  local_flags = flag;
}

unfoldable pub add_int64 : ℤ → ℤ → ℤ
add_int64 a b = wrap_int64 (a +ℤ b)

unfoldable pub counts_add : Counts → Counts → Counts
counts_add c other = record {
  files = add_int64 c.files other.files;
  directories = add_int64 c.directories other.directories;
  symlinks = add_int64 c.symlinks other.symlinks;
  deleted = add_int64 c.deleted other.deleted;
  bytes = add_int64 c.bytes other.bytes;
  sequence = add_int64 c.sequence other.sequence;
  device_id = empty_device_id;
  local_flags = bit_or c.local_flags other.local_flags;
}

unfoldable pub total_items : Counts → ℤ
total_items c = add_int64 (add_int64 (add_int64 c.files c.directories) c.symlinks) c.deleted

unfoldable pub counts_equal : Counts → Counts → Bool
counts_equal c o =
    (c.files ==ℤ o.files)
    && (c.directories ==ℤ o.directories)
    && (c.symlinks ==ℤ o.symlinks)
    && (c.deleted ==ℤ o.deleted)
    && (c.bytes ==ℤ o.bytes)

-- The case of the switch that a file falls under.
pub data Kind : Type 0 where
  deleted_file a_directory a_symlink a_file : Kind

unfoldable pub kind : FileInfo → Kind
kind f =
    if f.deleted
    then deleted_file
    else if is_directory f && not (is_symlink f)
    then a_directory
    else if is_symlink f
    then a_symlink
    else a_file

-- What `addFileLocked` does to the counts, given the file's size.
unfoldable pub add_kind : Kind → ℤ → Counts → Counts
add_kind deleted_file size c = record c {
  deleted = add_int64 c.deleted (pos 1);
  bytes = add_int64 c.bytes size;
}
add_kind a_directory size c = record c {
  directories = add_int64 c.directories (pos 1);
  bytes = add_int64 c.bytes size;
}
add_kind a_symlink size c = record c {
  symlinks = add_int64 c.symlinks (pos 1);
  bytes = add_int64 c.bytes size;
}
add_kind a_file size c = record c {
  files = add_int64 c.files (pos 1);
  bytes = add_int64 c.bytes size;
}

unfoldable pub sub_int64 : ℤ → ℤ → ℤ
sub_int64 a b = wrap_int64 (a -ℤ b)

-- What `removeFileLocked` does to the counts, before it corrects them.
unfoldable pub remove_kind : Kind → ℤ → Counts → Counts
remove_kind deleted_file size c = record c {
  deleted = sub_int64 c.deleted (pos 1);
  bytes = sub_int64 c.bytes size;
}
remove_kind a_directory size c = record c {
  directories = sub_int64 c.directories (pos 1);
  bytes = sub_int64 c.bytes size;
}
remove_kind a_symlink size c = record c {
  symlinks = sub_int64 c.symlinks (pos 1);
  bytes = sub_int64 c.bytes size;
}
remove_kind a_file size c = record c {
  files = sub_int64 c.files (pos 1);
  bytes = sub_int64 c.bytes size;
}

abbrev pub is_negative : ℤ → Bool
is_negative n = ltb_ℤ n (pos 0)

abbrev pub is_impossible : Counts → Bool
is_impossible c =
    is_negative c.deleted
    || is_negative c.files
    || is_negative c.directories
    || is_negative c.symlinks

abbrev pub at_least_zero : ℤ → ℤ
at_least_zero n = if is_negative n then pos 0 else n

unfoldable pub corrected : Counts → Counts
corrected c = record c {
  deleted = at_least_zero c.deleted;
  files = at_least_zero c.files;
  directories = at_least_zero c.directories;
  symlinks = at_least_zero c.symlinks;
}
