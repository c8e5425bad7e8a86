-- ===== src/Meta/Tracker.antt =====
-- Adding and removing files in the tracker: what is restored, what is left alone and what holds of
-- its index map.
use vaporcito.Base.{ℕ, false, ◌&&◌, some, ◌==◌, ◌≡◌, ◌≢◌, refl, sym, subst, arith, ◌∙◌}
use vaporcito.Base.Bytes.{Bytes, bytes_equal, bytes_equal_refl}
use vaporcito.FileInfo.{FileInfo, file_size}
use vaporcito.Meta.{
  Counts, MetadataTracker, find_index, counts_at, set_counts, counts_ptr, kind, add_kind, counts,
  add_file_locked, remove_file_locked,
}
use vaporcito.Meta.Buckets.{
  Roomy, IsInt64, remove_kind-add_kind, corrected_kept, counts_at-set_counts,
  counts_at-set_counts_other, set_counts_twice, set_counts_same,
}
use vaporcito.Meta.Keys.{Keyed, counts_ptr-Keyed, counts_ptr_found, counts_ptr_at, counts_ptr-Keeps}

-- The counts that `countsPtr` points to.
abbrev pub pointed : MetadataTracker → Bytes → ℕ → Counts
pointed m dev flag = counts_at (counts_ptr m dev flag).0.counts (counts_ptr m dev flag).1

-- Removing a file right after it was added to a bucket restores the tracker as `countsPtr` leaves
-- it, provided that every key points to its own counts, the bucket has no negative count and none
-- at the end of its range, and the file's size is an int64.
pub remove_file_locked-add_file_locked :
    (m : MetadataTracker) (dev : Bytes) (flag : ℕ) (f : FileInfo)
    → Keyed m
    → Roomy (pointed m dev flag)
    → IsInt64 (file_size f)
    → remove_file_locked (add_file_locked m dev flag f) dev flag f ≡ (counts_ptr m dev flag).0
unfolding remove_file_locked add_file_locked Keyed
remove_file_locked-add_file_locked m dev flag f keyed roomy size =
    let p = counts_ptr m dev flag in
    let found = counts_ptr_found m dev flag in
    let c = pointed m dev flag in
    let here = (counts_ptr-Keyed m dev flag keyed dev flag p.1 found).0 in
    let back = remove_kind-add_kind (kind f) (file_size f) c roomy size in
    let kept = corrected_kept c roomy in
    rw
      (
        counts_ptr_at (add_file_locked m dev flag f) dev flag p.1 found,
        counts_at-set_counts p.0.counts p.1 (add_kind (kind f) (file_size f) c) here,
        back,
        kept.0,
        kept.1,
        set_counts_twice p.0.counts p.1 (add_kind (kind f) (file_size f) c) c,
        set_counts_same p.0.counts p.1,
      )
      refl

-- Keys of different devices or flags have different places.
places_differ :
    (m : MetadataTracker) (dev d : Bytes) (flag g i j : ℕ)
    → Keyed m
    → (bytes_equal dev d && (flag == g)) ≡ false
    → find_index m.indexes dev flag ≡ some i
    → find_index m.indexes d g ≡ some j
    → i ≢ j
unfolding Keyed
places_differ m dev d flag g i j keyed differ at_i at_j e =
    let a = (keyed dev flag i at_i).1 in
    let b = (keyed d g j at_j).1 in
    let dev_same : dev ≡ d = sym a.device_id ∙ rw e b.device_id in
    let flag_same : flag ≡ g = sym a.local_flags ∙ rw e b.local_flags in
    let self = bytes_equal_refl d in
    let clash : (bytes_equal d d && (flag == g)) ≡ false =
      subst (λ x. (bytes_equal x d && (flag == g)) ≡ false) dev_same differ in
    ground (arith, self, flag_same, clash)

-- New counts at the place of a key leave the counts of every other key that is there.
other_key_kept :
    (m : MetadataTracker) (dev d : Bytes) (flag g : ℕ) (c : Counts) (j : ℕ)
    → Keyed m
    → (bytes_equal dev d && (flag == g)) ≡ false
    → find_index m.indexes d g ≡ some j
    → counts_at (set_counts (counts_ptr m dev flag).0.counts (counts_ptr m dev flag).1 c) j
      ≡ counts_at m.counts j
other_key_kept m dev d flag g c j keyed differ there =
    let p = counts_ptr m dev flag in
    let keeps = counts_ptr-Keeps m dev flag d g j there in
    let apart =
      places_differ p.0 dev d flag g p.1 j (counts_ptr-Keyed m dev flag keyed) differ
        (counts_ptr_found m dev flag) keeps.index in
    counts_at-set_counts_other p.0.counts p.1 j c apart
    ∙ keeps.at (unfold Keyed in (keyed d g j there).0)

-- Adding a file to a bucket, or removing one, leaves the counts of every other device and flag that
-- the tracker has, provided that every key points to its own counts.
pub counts-other_bucket :
    (m : MetadataTracker) (dev d : Bytes) (flag g : ℕ) (f : FileInfo) (j : ℕ)
    → Keyed m
    → (bytes_equal dev d && (flag == g)) ≡ false
    → find_index m.indexes d g ≡ some j
    → (counts (add_file_locked m dev flag f) d g ≡ counts m d g)
      × (counts (remove_file_locked m dev flag f) d g ≡ counts m d g)
unfolding counts add_file_locked remove_file_locked
counts-other_bucket m dev d flag g f j keyed differ there =
    let keeps = counts_ptr-Keeps m dev flag d g j there in
    rw (there, keeps.index)
      (
        other_key_kept m dev d flag g _ j keyed differ there,
        other_key_kept m dev d flag g _ j keyed differ there,
      )
