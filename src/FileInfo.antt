-- ===== src/FileInfo.antt =====
-- File metadata: `FileInfo` of back/lib/protocol/bep.pb.go and its methods of
-- back/lib/protocol/bep_extensions.go, with the flags of back/lib/protocol/protocol.go.
-- A time is the number of nanoseconds since 1970. `local_flags` is a uint32.
pub mod Conflict
pub mod Equivalence
pub mod Flags
pub mod Times
pub mod Sample
mod Tests
use Prim.Native.Nat.{bit_and, bit_or, bit_xor}
use vaporcito.Base.{
  ℕ, ◌+◌, ◌*◌, ◌^◌, ◌-◌, List, [], ◌∷◌, Bool, true, false, ◌&&◌, ◌||◌, not, length, ltb, ◌==◌,
  if◌then◌else◌,
}
use vaporcito.Base.Int.{ℤ, pos, negsuc, ◌+ℤ◌, ◌-ℤ◌, ◌*ℤ◌, ltb_ℤ, ◌==ℤ◌}
use vaporcito.Base.Bytes.{Bytes, bytes_equal}
use vaporcito.Vector.{Vector, Ordering, concurrent_greater, compare, update_with_now}
use vaporcito.Platform.{
  PlatformData, same_platform, same_flag, unix_ownership_equal, windows_ownership_equal,
  xattrs_equal,
}

pub data FileInfoType : Type 0 where
  file directory symlink_file symlink_directory symlink : FileInfoType

pub record BlockInfo : Type 0 where
  pub hash : Bytes
  pub offset : ℤ
  pub size : ℤ
  pub weak_hash : ℕ

pub record FileInfo : Type 0 where
  pub name : Bytes
  pub size : ℤ
  pub modified_s : ℤ
  pub modified_by : ℕ
  pub version : Vector
  pub sequence : ℤ
  pub blocks : List BlockInfo
  pub symlink_target : Bytes
  pub blocks_hash : Bytes
  pub encrypted : Bytes
  pub type : FileInfoType
  pub permissions : ℕ
  pub modified_ns : ℤ
  pub raw_block_size : ℤ
  pub platform : PlatformData
  pub local_flags : ℕ
  pub version_hash : Bytes
  pub inode_change_ns : ℤ
  pub encryption_trailer_size : ℤ
  pub deleted : Bool
  pub raw_invalid : Bool
  pub no_permissions : Bool

abbrev pub flag_local_unsupported : ℕ
flag_local_unsupported = 2 ^ 0

abbrev pub flag_local_ignored : ℕ
flag_local_ignored = 2 ^ 1

abbrev pub flag_local_must_rescan : ℕ
flag_local_must_rescan = 2 ^ 2

abbrev pub flag_local_receive_only : ℕ
flag_local_receive_only = 2 ^ 3

abbrev pub local_invalid_flags : ℕ
local_invalid_flags =
    bit_or flag_local_unsupported
      (bit_or flag_local_ignored (bit_or flag_local_must_rescan flag_local_receive_only))

abbrev pub local_conflict_flags : ℕ
local_conflict_flags =
    bit_or flag_local_unsupported (bit_or flag_local_ignored flag_local_receive_only)

-- flags & mask != 0
abbrev pub has_flag : ℕ → ℕ → Bool
has_flag flags mask = not (bit_and flags mask == 0)

unfoldable pub is_invalid : FileInfo → Bool
is_invalid f = f.raw_invalid || has_flag f.local_flags local_invalid_flags

unfoldable pub is_unsupported : FileInfo → Bool
is_unsupported f = has_flag f.local_flags flag_local_unsupported

unfoldable pub is_ignored : FileInfo → Bool
is_ignored f = has_flag f.local_flags flag_local_ignored

unfoldable pub must_rescan : FileInfo → Bool
must_rescan f = has_flag f.local_flags flag_local_must_rescan

unfoldable pub is_receive_only_changed : FileInfo → Bool
is_receive_only_changed f = has_flag f.local_flags flag_local_receive_only

unfoldable pub should_conflict : FileInfo → Bool
should_conflict f = has_flag f.local_flags local_conflict_flags

abbrev pub same_type : FileInfoType → FileInfoType → Bool
same_type file file = true
same_type directory directory = true
same_type symlink_file symlink_file = true
same_type symlink_directory symlink_directory = true
same_type symlink symlink = true
same_type _ _ = false

unfoldable pub is_directory : FileInfo → Bool
is_directory f = same_type f.type directory

unfoldable pub is_symlink : FileInfo → Bool
is_symlink f = elim f.type [
  | symlink ↦ true
  | symlink_directory ↦ true
  | symlink_file ↦ true
  | _ ↦ false
]

abbrev pub synthetic_directory_size : ℤ
synthetic_directory_size = pos 128

unfoldable pub file_size : FileInfo → ℤ
unfolding is_directory is_symlink
file_size f =
    if f.deleted
    then pos 0
    else if is_directory f || is_symlink f
    then synthetic_directory_size
    else f.size

-- 128 << KiB
abbrev pub min_block_size : ℤ
min_block_size = pos (128 * 2 ^ 10)

unfoldable pub block_size : FileInfo → ℤ
block_size f = if ltb_ℤ f.raw_block_size min_block_size then min_block_size else f.raw_block_size

unfoldable pub mod_time : FileInfo → ℤ
mod_time f = f.modified_s *ℤ pos (10 ^ 9) +ℤ f.modified_ns

abbrev pub is_concurrent_greater : Ordering → Bool
is_concurrent_greater concurrent_greater = true
is_concurrent_greater _ = false

unfoldable pub wins_conflict : FileInfo → FileInfo → Bool
wins_conflict f other =
    if not (same_flag (is_invalid f) (is_invalid other))
    then not (is_invalid f)
    else if not f.deleted && other.deleted
    then true
    else if f.deleted && not other.deleted
    then false
    else if ltb_ℤ (mod_time other) (mod_time f)
    then true
    else if ltb_ℤ (mod_time f) (mod_time other)
    then false
    else is_concurrent_greater (compare f.version other.version)

pub record FileInfoComparison : Type 0 where
  pub mod_time_window : ℤ
  pub ignore_perms : Bool
  pub ignore_blocks : Bool
  pub ignore_flags : ℕ
  pub ignore_ownership : Bool
  pub ignore_xattrs : Bool

-- `Time.Sub` gives the nearest int64.
abbrev pub saturate : ℤ → ℤ
saturate d =
    if ltb_ℤ (pos (2 ^ 63 - 1)) d
    then pos (2 ^ 63 - 1)
    else if ltb_ℤ d (negsuc (2 ^ 63 - 1))
    then negsuc (2 ^ 63 - 1)
    else d

-- `d * -1` of an int64: the smallest one has no negative and stays.
abbrev pub negated : ℤ → ℤ
negated d = if d ==ℤ negsuc (2 ^ 63 - 1) then d else pos 0 -ℤ d

pub magnitude : ℤ → ℤ
magnitude diff = if ltb_ℤ diff (pos 0) then negated diff else diff

unfoldable pub mod_time_equal : ℤ → ℤ → ℤ → Bool
unfolding magnitude
mod_time_equal a b window = if a ==ℤ b then true else ltb_ℤ (magnitude (saturate (a -ℤ b))) window

-- `build.IsWindows` is an argument.
unfoldable pub perms_equal : Bool → ℕ → ℕ → Bool
perms_equal is_windows a b =
    if is_windows then bit_and a 0o600 == bit_and b 0o600 else bit_and a 0o777 == bit_and b 0o777

-- The loop over the first list; the second is as long.
pub blocks_loop : List BlockInfo → List BlockInfo → Bool
blocks_loop [] b = true
blocks_loop (x ∷ a) [] = false
blocks_loop (x ∷ a) (y ∷ b) = if not (bytes_equal x.hash y.hash) then false else blocks_loop a b

unfoldable pub blocks_lists_equal : List BlockInfo → List BlockInfo → Bool
unfolding blocks_loop
blocks_lists_equal a b = if not (length b == length a) then false else blocks_loop a b

unfoldable pub blocks_equal : FileInfo → FileInfo → Bool
unfolding blocks_lists_equal
blocks_equal f other =
    if ltb 0 (length f.blocks_hash)
      && ltb 0 (length other.blocks_hash)
      && bytes_equal f.blocks_hash other.blocks_hash
    then true
    else blocks_lists_equal f.blocks other.blocks

-- x &^ m
abbrev pub clear_bits : ℕ → ℕ → ℕ
clear_bits x m = bit_xor x (bit_and x m)

-- The checks of `isEquivalent`, in their order, each with the files as it sees them.
pub inode_changed : FileInfo → FileInfo → FileInfoComparison → Bool
inode_changed f other comp =
    not (comp.ignore_ownership && comp.ignore_xattrs)
    && not (f.inode_change_ns ==ℤ pos 0)
    && not (other.inode_change_ns ==ℤ pos 0)
    && not (f.inode_change_ns ==ℤ other.inode_change_ns)

pub masked : FileInfo → FileInfoComparison → FileInfo
masked f comp = record f { local_flags = clear_bits f.local_flags comp.ignore_flags }

pub header_differs : FileInfo → FileInfo → Bool
header_differs f other =
    not (bytes_equal f.name other.name)
    || not (same_type f.type other.type)
    || not (same_flag f.deleted other.deleted)
    || not (same_flag (is_invalid f) (is_invalid other))

pub ownership_differs : FileInfo → FileInfo → FileInfoComparison → Bool
ownership_differs f other comp =
    if not comp.ignore_ownership && not (same_platform f.platform other.platform)
    then (if not (unix_ownership_equal f.platform.unix other.platform.unix)
        then true
        else not (windows_ownership_equal f.platform.windows other.platform.windows))
    else false

pub xattrs_differ : FileInfo → FileInfo → FileInfoComparison → Bool
xattrs_differ f other comp =
    if not comp.ignore_xattrs && not (same_platform f.platform other.platform)
    then (if not (xattrs_equal f.platform.linux other.platform.linux)
        then true
        else if not (xattrs_equal f.platform.darwin other.platform.darwin)
        then true
        else if not (xattrs_equal f.platform.free_bsd other.platform.free_bsd)
        then true
        else not (xattrs_equal f.platform.net_bsd other.platform.net_bsd))
    else false

pub perms_differ : Bool → FileInfo → FileInfo → FileInfoComparison → Bool
perms_differ is_windows f other comp =
    not comp.ignore_perms
    && not f.no_permissions
    && not other.no_permissions
    && not (perms_equal is_windows f.permissions other.permissions)

-- The final switch, on the type of the first file.
pub content_equal : FileInfo → FileInfo → FileInfoComparison → Bool
content_equal f other comp = elim f.type [
  | file ↦
      (f.size ==ℤ other.size)
      && mod_time_equal (mod_time f) (mod_time other) comp.mod_time_window
      && (comp.ignore_blocks || blocks_equal f other)
  | symlink ↦ bytes_equal f.symlink_target other.symlink_target
  | directory ↦ true
  | _ ↦ false
]

pub is_equivalent : Bool → FileInfo → FileInfo → FileInfoComparison → Bool
is_equivalent is_windows f0 other0 comp =
    if must_rescan f0 || must_rescan other0
    then false
    else if inode_changed f0 other0 comp
    then false
    else (let f = masked f0 comp in
        let other = masked other0 comp in
        if header_differs f other
        then false
        else if ownership_differs f other comp
        then false
        else if xattrs_differ f other comp
        then false
        else if perms_differ is_windows f other comp
        then false
        else content_equal f other comp)

unfoldable pub set_no_content : FileInfo → FileInfo
set_no_content f = record f { blocks = []; blocks_hash = []; size = pos 0 }

unfoldable pub set_local_flags : FileInfo → ℕ → FileInfo
unfolding set_no_content
set_local_flags f flags = set_no_content (record f { raw_invalid = false; local_flags = flags })

unfoldable pub set_must_rescan : FileInfo → FileInfo
unfolding set_local_flags
set_must_rescan f = set_local_flags f flag_local_must_rescan

unfoldable pub set_ignored : FileInfo → FileInfo
unfolding set_local_flags
set_ignored f = set_local_flags f flag_local_ignored

unfoldable pub set_unsupported : FileInfo → FileInfo
unfolding set_local_flags
set_unsupported f = set_local_flags f flag_local_unsupported

-- `now` is the clock in seconds.
unfoldable pub set_deleted : FileInfo → ℕ → ℕ → FileInfo
unfolding set_no_content
set_deleted f by now = set_no_content (record f {
  modified_by = by;
  deleted = true;
  version = update_with_now f.version by now;
  modified_s = pos now;
})
