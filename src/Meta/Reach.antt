-- ===== src/Meta/Reach.antt =====
-- The operations of the tracker as steps, and what holds of every tracker that they reach.
use vaporcito.Base.{
  ℕ, zero, suc, ◌<◌, List, [], ◌∷◌, ◌++◌, map, Bool, true, not, ◌&&◌, ◌||◌, Option, none, some,
  length, ◌==◌, ◌≡◌, refl, sym, ap, arith, Bool-cases, Option-cases, inl, inr, ◌∙◌, if◌then◌else◌,
  append_assoc, append-nil,
}
use mathlib.Core.List.{map-append}
use vaporcito.Base.Int.{ℤ, ltb_ℤ}
use vaporcito.Base.Bytes.{Bytes, bytes_equal, bytes_equal_sound}
use vaporcito.DeviceId.{local_device_id, global_device_id}
use vaporcito.FileInfo.{FileInfo, file_size, is_invalid}
use vaporcito.Meta.{
  Counts, MetadataTracker, need_flag, no_counts, find_index, counts_at, counts_ptr, Kind,
  deleted_file, a_directory, a_symlink, a_file, kind, add_kind, remove_kind, corrected,
  add_file_locked, remove_file_locked, update_seq_locked, flag_bits, each_flag_bit,
  update_file_locked, add_file, remove_file, add_needed, remove_needed, empty_needed,
  next_local_seq, sequence_of, reset_all_loop, reset_all, reset_counts_loop, reset_counts,
  set_created, new_metadata_tracker, all_needed_counts, needed_of,
}
use vaporcito.Meta.Keys.{Keyed, BelongsTo, counts_ptr-Keyed, append_counts-Keyed, set_counts-Keyed}

-- `add` and `remove` of a bucket keep its device and its flag.
add_kind_owner :
    (k : Kind) (size : ℤ) (c : Counts)
    → ((add_kind k size c).device_id ≡ c.device_id)
      × ((add_kind k size c).local_flags ≡ c.local_flags)
unfolding add_kind
add_kind_owner deleted_file size c = (refl, refl)
add_kind_owner a_directory size c = (refl, refl)
add_kind_owner a_symlink size c = (refl, refl)
add_kind_owner a_file size c = (refl, refl)

remove_kind_owner :
    (k : Kind) (size : ℤ) (c : Counts)
    → ((corrected (remove_kind k size c)).device_id ≡ c.device_id)
      × ((corrected (remove_kind k size c)).local_flags ≡ c.local_flags)
unfolding remove_kind corrected
remove_kind_owner deleted_file size c = (refl, refl)
remove_kind_owner a_directory size c = (refl, refl)
remove_kind_owner a_symlink size c = (refl, refl)
remove_kind_owner a_file size c = (refl, refl)

add_file_locked-Keyed :
    (m : MetadataTracker) (dev : Bytes) (flag : ℕ) (f : FileInfo)
    → Keyed m
    → Keyed (add_file_locked m dev flag f)
unfolding add_file_locked
add_file_locked-Keyed m dev flag f keyed =
    let p = counts_ptr m dev flag in
    let own = add_kind_owner (kind f) (file_size f) (counts_at p.0.counts p.1) in
    set_counts-Keyed p.0 p.1 _ (counts_ptr-Keyed m dev flag keyed) own.0 own.1

-- The invariant reads the counts and the indexes alone.
same_fields :
    (m : MetadataTracker) (t : ℤ) (b : Bool) → Keyed m → Keyed (record m { created = t; dirty = b })
unfolding Keyed
same_fields m t b keyed = keyed

remove_file_locked-Keyed :
    (m : MetadataTracker) (dev : Bytes) (flag : ℕ) (f : FileInfo)
    → Keyed m
    → Keyed (remove_file_locked m dev flag f)
unfolding remove_file_locked
remove_file_locked-Keyed m dev flag f keyed =
    let p = counts_ptr m dev flag in
    let own = remove_kind_owner (kind f) (file_size f) (counts_at p.0.counts p.1) in
    same_fields _ _ p.0.dirty
      (set_counts-Keyed p.0 p.1 _ (counts_ptr-Keyed m dev flag keyed) own.0 own.1)

update_seq_locked-Keyed :
    (m : MetadataTracker) (dev : Bytes) (f : FileInfo) → Keyed m → Keyed (update_seq_locked m dev f)
unfolding update_seq_locked
update_seq_locked-Keyed m dev f keyed =
    let p = counts_ptr m dev 0 in
    let c = counts_at p.0.counts p.1 in
    elim (Bool-cases (bytes_equal dev global_device_id)) [
      | inl h ↦ rw h keyed
      | inr h ↦ elim (Bool-cases (ltb_ℤ c.sequence f.sequence)) [
        | inl k ↦ rw (h, k) (set_counts-Keyed p.0 p.1 _ (counts_ptr-Keyed m dev 0 keyed) refl refl)
        | inr k ↦ rw (h, k) (counts_ptr-Keyed m dev 0 keyed)
      ]
    ]

module _ (fn : MetadataTracker → ℕ → MetadataTracker)
    (keeps : (m : MetadataTracker) (flag : ℕ) → Keyed m → Keyed (fn m flag)) where
  each_flag_bit-Keyed :
      (m : MetadataTracker) (flags : List ℕ) → Keyed m → Keyed (each_flag_bit m flags fn)
  unfolding each_flag_bit
  each_flag_bit-Keyed m [] keyed = keyed
  each_flag_bit-Keyed m (flag ∷ flags) keyed =
      each_flag_bit-Keyed (fn m flag) flags (keeps m flag keyed)

  update_file_locked-Keyed :
      (m : MetadataTracker) (dev : Bytes) (f : FileInfo)
      → Keyed m
      → Keyed (update_file_locked m dev f fn)
  unfolding update_file_locked
  update_file_locked-Keyed m dev f keyed =
      let dirty = same_fields m m.created true keyed in
      let skipped = is_invalid f && ((f.local_flags == 0) || bytes_equal dev global_device_id) in
      elim (Bool-cases skipped) [
        | inl h ↦ rw h dirty
        | inr h ↦ elim (Bool-cases (f.local_flags == 0)) [
          | inl k ↦ rw (h, k) (keeps _ 0 dirty)
          | inr k ↦ rw (h, k) (each_flag_bit-Keyed _ (flag_bits 32 1 f.local_flags) dirty)
        ]
      ]

empty_needed-Keyed : (m : MetadataTracker) (dev : Bytes) → Keyed m → Keyed (empty_needed m dev)
unfolding empty_needed Keyed
empty_needed-Keyed m dev keyed = elim (Option-cases (find_index m.indexes dev need_flag)) [
  | inl h ↦ rw h (
      append_counts-Keyed (record m { dirty = true }) dev need_flag (no_counts dev need_flag) keyed
        (record { device_id = refl; local_flags = refl }))
  | inr (i, h) ↦
      let own = (keyed dev need_flag i h).1 in
      rw h (
        set_counts-Keyed (record m { dirty = true }) i (no_counts dev need_flag) keyed
          (sym own.device_id) (sym own.local_flags))
]

next_local_seq-Keyed : (m : MetadataTracker) → Keyed m → Keyed (next_local_seq m).0
unfolding next_local_seq
next_local_seq-Keyed m keyed =
    let p = counts_ptr m local_device_id 0 in
    set_counts-Keyed p.0 p.1 _ (counts_ptr-Keyed m local_device_id 0 keyed) refl refl

-- Whose counts they are, in order.
abbrev owner : Counts → Bytes × ℕ
owner c = (c.device_id, c.local_flags)

reset_counts_loop_owners :
    (cs : List Counts) (dev : Bytes) → map owner (reset_counts_loop cs dev) ≡ map owner cs
unfolding reset_counts_loop
reset_counts_loop_owners [] dev = refl
reset_counts_loop_owners (c ∷ cs) dev = elim (Bool-cases (bytes_equal c.device_id dev)) [
  | inl h ↦ rw h (ap (◌∷◌ (owner c)) (reset_counts_loop_owners cs dev))
  | inr h ↦ rw h (ap (◌∷◌ (owner c)) (reset_counts_loop_owners cs dev))
]

abbrev reset_one : MetadataTracker → Counts → Bytes → Counts
reset_one now c dev =
    if not (bytes_equal c.device_id dev)
    then c
    else if not (c.local_flags == need_flag)
    then no_counts c.device_id c.local_flags
    else all_needed_counts now dev

needed_owner :
    (cs : List Counts) (o : Option ℕ) (dev : Bytes) → owner (needed_of cs o dev) ≡ (dev, need_flag)
needed_owner cs none dev = refl
needed_owner cs (some i) dev = refl

owner-reset_one :
    (now : MetadataTracker) (c : Counts) (dev : Bytes) → owner (reset_one now c dev) ≡ owner c
unfolding all_needed_counts
owner-reset_one now c dev = elim (Bool-cases (bytes_equal c.device_id dev)) [
  | inr h ↦ rw h refl
  | inl h ↦ elim (Bool-cases (c.local_flags == need_flag)) [
    | inr k ↦ rw (h, k) refl
    | inl k ↦
        let dev_same : c.device_id ≡ dev = bytes_equal_sound c.device_id dev h in
        let flag_same : c.local_flags ≡ need_flag = ground arith in
        rw (h, k, needed_owner now.counts (find_index now.indexes global_device_id 0) dev)
          (rw (dev_same, flag_same) refl)
  ]
]

reset_all_loop_owners :
    (m : MetadataTracker) (before cs : List Counts) (dev : Bytes)
    → map owner (reset_all_loop m before cs dev) ≡ map owner before ++ map owner cs
unfolding reset_all_loop
reset_all_loop_owners m before [] dev = sym (append-nil (map owner before))
reset_all_loop_owners m before (c ∷ cs) dev =
    let new = reset_one (record m { counts = before ++ c ∷ cs }) c dev in
    reset_all_loop_owners m (before ++ new ∷ []) cs dev
    ∙ (rw
        (
          map-append owner before (new ∷ []),
          append_assoc (map owner before) (owner new ∷ []) (map owner cs),
          owner-reset_one (record m { counts = before ++ c ∷ cs }) c dev,
        )
        refl)

same_owners :
    (cs ds : List Counts) (i : ℕ) (dev : Bytes) (flag : ℕ)
    → map owner cs ≡ map owner ds
    → (i < length ds) × BelongsTo dev flag (counts_at ds i)
    → (i < length cs) × BelongsTo dev flag (counts_at cs i)
same_owners [] [] i dev flag e h = h
same_owners [] (d ∷ ds) i dev flag e h = ground arith
same_owners (c ∷ cs) [] i dev flag e h = ground arith
same_owners (c ∷ cs) (d ∷ ds) zero dev flag e h = (
  omega arith,
  record {
    device_id = ground (arith, h.1.device_id);
    local_flags = ground (arith, h.1.local_flags);
  },
)
same_owners (c ∷ cs) (d ∷ ds) (suc i) dev flag e h =
    let rest = same_owners cs ds i dev flag (ground arith) (omega (arith, h.0), h.1) in
    (omega (arith, rest.0), rest.1)

replaced-Keyed :
    (m : MetadataTracker) (cs : List Counts)
    → map owner cs ≡ map owner m.counts
    → Keyed m
    → Keyed (record m { counts = cs; dirty = true })
unfolding Keyed
replaced-Keyed m cs e keyed d g i found = same_owners cs m.counts i d g e (keyed d g i found)

-- One operation on the tracker.
pub data Step : MetadataTracker → MetadataTracker → Type 0 where
  adds : (m : MetadataTracker) (dev : Bytes) (f : FileInfo) → Step m (add_file m dev f)
  removes : (m : MetadataTracker) (dev : Bytes) (f : FileInfo) → Step m (remove_file m dev f)
  adds_needed : (m : MetadataTracker) (dev : Bytes) (f : FileInfo) → Step m (add_needed m dev f)
  removes_needed :
      (m : MetadataTracker) (dev : Bytes) (f : FileInfo) → Step m (remove_needed m dev f)
  empties_needed : (m : MetadataTracker) (dev : Bytes) → Step m (empty_needed m dev)
  reads_seq : (m : MetadataTracker) (dev : Bytes) → Step m (sequence_of m dev).0
  takes_seq : (m : MetadataTracker) → Step m (next_local_seq m).0
  resets_all : (m : MetadataTracker) (dev : Bytes) → Step m (reset_all m dev)
  resets_counts : (m : MetadataTracker) (dev : Bytes) → Step m (reset_counts m dev)
  sets_created : (m : MetadataTracker) (now : ℤ) → Step m (set_created m now)

pub data Reach : MetadataTracker → MetadataTracker → Type 0 where
  stays : (m : MetadataTracker) → Reach m m
  steps : {m n k : MetadataTracker} → Reach m n → Step n k → Reach m k

Step-Keyed : {m n : MetadataTracker} → Step m n → Keyed m → Keyed n
unfolding add_file remove_file add_needed remove_needed reset_all reset_counts set_created
    sequence_of
Step-Keyed (adds m dev f) keyed =
    update_file_locked-Keyed (λ m flag. add_file_locked m dev flag f)
      (λ m flag. add_file_locked-Keyed m dev flag f) _ dev f (update_seq_locked-Keyed m dev f keyed)
Step-Keyed (removes m dev f) keyed =
    update_file_locked-Keyed (λ m flag. remove_file_locked m dev flag f)
      (λ m flag. remove_file_locked-Keyed m dev flag f) m dev f keyed
Step-Keyed (adds_needed m dev f) keyed =
    add_file_locked-Keyed _ dev need_flag f (same_fields m m.created true keyed)
Step-Keyed (removes_needed m dev f) keyed =
    remove_file_locked-Keyed _ dev need_flag f (same_fields m m.created true keyed)
Step-Keyed (empties_needed m dev) keyed = empty_needed-Keyed m dev keyed
Step-Keyed (reads_seq m dev) keyed = counts_ptr-Keyed m dev 0 keyed
Step-Keyed (takes_seq m) keyed = next_local_seq-Keyed m keyed
Step-Keyed (resets_all m dev) keyed =
    replaced-Keyed m _ (reset_all_loop_owners m [] m.counts dev) keyed
Step-Keyed (resets_counts m dev) keyed =
    replaced-Keyed m _ (reset_counts_loop_owners m.counts dev) keyed
Step-Keyed (sets_created m now) keyed = same_fields m now true keyed

new-Keyed : Keyed new_metadata_tracker
unfolding Keyed find_index
new-Keyed d g i found = ground arith

-- From a new tracker, whatever the operations, every key of the index map points to counts that are
-- there and that belong to the key's device and flag.
pub Reach-Keyed : {m : MetadataTracker} → Reach new_metadata_tracker m → Keyed m
Reach-Keyed (stays m) = new-Keyed
Reach-Keyed (steps path step) = Step-Keyed step (Reach-Keyed path)
