-- ===== src/FileInfo/Equivalence.antt =====
-- `isEquivalent` of two files: it does not depend on their order, and what it lets pass.
use vaporcito.Base.{
  Option, none, some, ◌≡◌, refl, sym, ◌↔◌, List, [], ◌∷◌, map, Bool, true, false, arith, length,
  tests_agree,
}
use vaporcito.Base.Int.{ℤ, pos, ==ℤ_comm, ==ℤ_sound}
use vaporcito.Base.Bytes.{bytes_equal_comm, bytes_equal_sound, bytes_equal_refl, Bytes}
use vaporcito.Platform.Laws.{
  xattrs_equal_comm, unix_ownership_equal_comm, windows_ownership_equal_comm, same_platform_comm,
}
use vaporcito.FileInfo.{
  BlockInfo, FileInfo, FileInfoType, file, symlink, FileInfoComparison, must_rescan, same_type,
  mod_time, perms_equal, blocks_loop, blocks_lists_equal, blocks_equal, inode_changed, masked,
  header_differs, ownership_differs, xattrs_differ, perms_differ, content_equal, is_equivalent,
}
use vaporcito.FileInfo.Times.{Near, mod_time_equal_comm}

abbrev pub hashes : List BlockInfo → List Bytes
hashes = map (λ b. b.hash)

blocks_loop_sound :
    (a b : List BlockInfo) → length b ≡ length a → blocks_loop a b ≡ true → hashes a ≡ hashes b
unfolding blocks_loop
blocks_loop_sound [] [] e h = refl
blocks_loop_sound [] (y ∷ b) e h = absurd (omega arith)
blocks_loop_sound (x ∷ a) [] e h = ground arith
blocks_loop_sound (x ∷ a) (y ∷ b) e h =
    ground (arith, bytes_equal_sound x.hash y.hash, blocks_loop_sound a b (omega arith))

blocks_complete :
    (a b : List BlockInfo) → hashes a ≡ hashes b → (length b ≡ length a) × (blocks_loop a b ≡ true)
unfolding blocks_loop
blocks_complete [] [] h = (refl, refl)
blocks_complete [] (y ∷ b) h = cc
blocks_complete (x ∷ a) [] h = cc
blocks_complete (x ∷ a) (y ∷ b) h = ground (arith, blocks_complete a b, bytes_equal_refl x.hash)

-- Two lists of blocks count as equal exactly when they have the same hashes in the same order;
-- offsets, sizes and weak hashes do not matter.
pub blocks_lists_equal_iff :
    (a b : List BlockInfo) → (blocks_lists_equal a b ≡ true) ↔ (hashes a ≡ hashes b)
unfolding blocks_lists_equal
blocks_lists_equal_iff a b = (
  λ h. blocks_loop_sound a b (ground arith) (ground arith),
  λ h. ground (arith, blocks_complete a b h),
)

blocks_lists_equal_comm : (a b : List BlockInfo) → blocks_lists_equal a b ≡ blocks_lists_equal b a
blocks_lists_equal_comm a b =
    let p = blocks_lists_equal_iff a b in
    let q = blocks_lists_equal_iff b a in
    tests_agree (blocks_lists_equal a b) (blocks_lists_equal b a) (λ h. q.1 (sym (p.0 h)))
      (λ h. p.1 (sym (q.0 h)))

module _ (f other : FileInfo) where
  blocks_equal_comm : blocks_equal f other ≡ blocks_equal other f
  unfolding blocks_equal
  blocks_equal_comm = ground (
    arith,
    bytes_equal_comm f.blocks_hash other.blocks_hash,
    blocks_lists_equal_comm f.blocks other.blocks,
  )

  header_differs_comm : header_differs f other ≡ header_differs other f
  unfolding header_differs
  header_differs_comm = ground (arith, bytes_equal_comm f.name other.name)

  content_equal_comm :
      (comp : FileInfoComparison)
      → Near (mod_time f) (mod_time other)
      → header_differs f other ≡ false
      → content_equal f other comp ≡ content_equal other f comp
  unfolding content_equal header_differs
  content_equal_comm comp near h = ground (
    arith,
    bytes_equal_comm f.symlink_target other.symlink_target,
    mod_time_equal_comm (mod_time f) (mod_time other) comp.mod_time_window near,
    blocks_equal_comm,
    ==ℤ_comm f.size other.size,
  )

  module _ (comp : FileInfoComparison) where
    inode_changed_comm : inode_changed f other comp ≡ inode_changed other f comp
    unfolding inode_changed
    inode_changed_comm = ground (arith, ==ℤ_comm f.inode_change_ns other.inode_change_ns)

    ownership_differs_comm : ownership_differs f other comp ≡ ownership_differs other f comp
    unfolding ownership_differs
    ownership_differs_comm = rw (
      same_platform_comm f.platform other.platform,
      unix_ownership_equal_comm f.platform.unix other.platform.unix,
      windows_ownership_equal_comm f.platform.windows other.platform.windows,
    )

    xattrs_differ_comm : xattrs_differ f other comp ≡ xattrs_differ other f comp
    unfolding xattrs_differ
    xattrs_differ_comm = rw (
      same_platform_comm f.platform other.platform,
      xattrs_equal_comm f.platform.linux other.platform.linux,
      xattrs_equal_comm f.platform.darwin other.platform.darwin,
      xattrs_equal_comm f.platform.free_bsd other.platform.free_bsd,
      xattrs_equal_comm f.platform.net_bsd other.platform.net_bsd,
    )

    perms_differ_comm :
        (is_windows : Bool)
        → perms_differ is_windows f other comp ≡ perms_differ is_windows other f comp
    unfolding perms_differ perms_equal
    perms_differ_comm is_windows = ground arith

-- Equivalence does not depend on the order of the two files, as long as their modification times
-- are less than 2^63 nanoseconds apart.
pub is_equivalent_comm :
    (is_windows : Bool) (f other : FileInfo) (comp : FileInfoComparison)
    → Near (mod_time f) (mod_time other)
    → is_equivalent is_windows f other comp ≡ is_equivalent is_windows other f comp
unfolding is_equivalent
is_equivalent_comm is_windows f other comp near =
    let a = masked f comp in
    let b = masked other comp in
    let near' : Near (mod_time a) (mod_time b) = unfold masked mod_time in near in
    ground (
      arith,
      inode_changed_comm f other comp,
      header_differs_comm a b,
      content_equal_comm a b comp near',
      ownership_differs_comm a b comp,
      xattrs_differ_comm a b comp,
      perms_differ_comm a b comp is_windows,
    )

same_type_sound : (s t : FileInfoType) → same_type s t ≡ true → s ≡ t
same_type_sound s t h = ground arith

-- The size of a regular file, and zero for all else.
abbrev pub regular_size : FileInfoType → ℤ → ℤ
regular_size file size = size
regular_size _ size = pos 0

-- The target of a symbolic link, and none for all else.
abbrev pub link_target : FileInfoType → Bytes → Option Bytes
link_target symlink target = some target
link_target _ target = none

regular_size_same :
    (is_windows : Bool) (f other : FileInfo) (comp : FileInfoComparison)
    → is_equivalent is_windows f other comp ≡ true
    → regular_size f.type f.size ≡ regular_size f.type other.size
unfolding is_equivalent content_equal masked
regular_size_same is_windows f other comp h = ground (arith, ==ℤ_sound f.size other.size)

link_target_same :
    (is_windows : Bool) (f other : FileInfo) (comp : FileInfoComparison)
    → is_equivalent is_windows f other comp ≡ true
    → link_target f.type f.symlink_target ≡ link_target f.type other.symlink_target
unfolding is_equivalent content_equal masked
link_target_same is_windows f other comp h =
    ground (arith, bytes_equal_sound f.symlink_target other.symlink_target)

-- Files that count as equivalent, under any comparison, agree in name, type and deletion, neither
-- must be rescanned, regular files have the same size and symbolic links the same target.
pub is_equivalent_sound :
    (is_windows : Bool) (f other : FileInfo) (comp : FileInfoComparison)
    → is_equivalent is_windows f other comp ≡ true
    → (f.name ≡ other.name)
      × (f.type ≡ other.type)
      × (f.deleted ≡ other.deleted)
      × (must_rescan f ≡ false)
      × (must_rescan other ≡ false)
      × (regular_size f.type f.size ≡ regular_size other.type other.size)
      × (link_target f.type f.symlink_target ≡ link_target other.type other.symlink_target)
unfolding is_equivalent header_differs content_equal masked
is_equivalent_sound is_windows f other comp h =
    let same : f.type ≡ other.type = ground (arith, same_type_sound f.type other.type) in
    (
      ground (arith, bytes_equal_sound f.name other.name),
      same,
      ground arith,
      ground arith,
      ground arith,
      rw (← same) (regular_size_same is_windows f other comp h),
      rw (← same) (link_target_same is_windows f other comp h),
    )
