-- ===== src/Meta/Keys.antt =====
-- The index map of the tracker and the counts that it points to.
use vaporcito.Base.{
  ℕ, zero, suc, ◌+◌, ◌<◌, List, [], ◌∷◌, ◌++◌, true, false, Option, none, some, length,
  length-append, ◌==◌, ◌≡◌, refl, sym, arith, Bool-cases, Option-cases, inl, inr, ◌∙◌,
}
use vaporcito.Base.Bytes.{Bytes, bytes_equal_sound, bytes_equal_refl}
use vaporcito.Meta.{
  Counts, Index, MetadataTracker, need_flag, no_counts, is_key, find_index, counts_at, needed_of,
  all_needed_counts, append_counts, with_need, ptr_at, counts_ptr, set_counts,
}
use vaporcito.Meta.Buckets.{length-set_counts, counts_at-set_counts, counts_at-set_counts_other}

-- Counts that belong to a device and a flag.
pub record BelongsTo (dev : Bytes) (flag : ℕ) (c : Counts) : Type 0 where
  pub device_id : c.device_id ≡ dev
  pub local_flags : c.local_flags ≡ flag

-- Every key of the index map points to counts that belong to it.
unfoldable pub Keyed : MetadataTracker → Type 0
Keyed m =
    (dev : Bytes) (flag i : ℕ)
    → find_index m.indexes dev flag ≡ some i
    → (i < length m.counts) × BelongsTo dev flag (counts_at m.counts i)

counts_at_end : (cs : List Counts) (c : Counts) → counts_at (cs ++ c ∷ []) (length cs) ≡ c
counts_at_end [] c = refl
counts_at_end (x ∷ cs) c = counts_at_end cs c

counts_at_before :
    (cs : List Counts) (c : Counts) (i : ℕ)
    → i < length cs
    → counts_at (cs ++ c ∷ []) i ≡ counts_at cs i
counts_at_before [] c i h = absurd (omega arith)
counts_at_before (x ∷ cs) c zero h = refl
counts_at_before (x ∷ cs) c (suc i) h = counts_at_before cs c i (omega arith)

is_key_sound :
    (i : Index) (dev : Bytes) (flag : ℕ)
    → is_key i dev flag ≡ true
    → (i.dev ≡ dev) × (i.flag ≡ flag)
is_key_sound i dev flag h = (bytes_equal_sound i.dev dev (ground arith), ground arith)

is_key_self :
    (dev : Bytes) (flag place : ℕ)
    → is_key (record { dev = dev; flag = flag; place = place }) dev flag ≡ true
is_key_self dev flag place = rw (bytes_equal_refl dev) (ground arith)

pub find_index_hit :
    (i : Index) (is : List Index) (dev : Bytes) (flag : ℕ)
    → is_key i dev flag ≡ true
    → find_index (i ∷ is) dev flag ≡ some i.place
unfolding find_index
find_index_hit i is dev flag h = rw h refl

pub find_index_miss :
    (i : Index) (is : List Index) (dev : Bytes) (flag : ℕ)
    → is_key i dev flag ≡ false
    → find_index (i ∷ is) dev flag ≡ find_index is dev flag
unfolding find_index
find_index_miss i is dev flag h = rw h refl

same_place : (a b : ℕ) → some a ≡ some b → a ≡ b
same_place a b e = ground arith

pub append_counts-Keyed :
    (m : MetadataTracker) (dev : Bytes) (flag : ℕ) (c : Counts)
    → Keyed m
    → BelongsTo dev flag c
    → Keyed (append_counts m dev flag c)
unfolding Keyed
append_counts-Keyed m dev flag c keyed own d g i e =
    let new : Index = record { dev = dev; flag = flag; place = length m.counts } in
    let more : length (m.counts ++ c ∷ []) ≡ length m.counts + 1 =
      length-append m.counts (c ∷ []) in
    elim (Bool-cases (is_key new d g)) [
      | inl h ↦
          let at : length m.counts ≡ i =
            same_place _ _ (sym (find_index_hit new m.indexes d g h) ∙ e) in
          let key = is_key_sound new d g h in
          (omega (arith, more, at), rw (← at, counts_at_end m.counts c, ← key.0, ← key.1) own)
      | inr h ↦
          let old = keyed d g i (sym (find_index_miss new m.indexes d g h) ∙ e) in
          (omega (arith, more, old.0), rw (counts_at_before m.counts c i old.0) old.1)
    ]

needed_BelongsTo :
    (cs : List Counts) (o : Option ℕ) (dev : Bytes) → BelongsTo dev need_flag (needed_of cs o dev)
needed_BelongsTo cs none dev = record { device_id = refl; local_flags = refl }
needed_BelongsTo cs (some i) dev = record { device_id = refl; local_flags = refl }

with_need-Keyed :
    (m : MetadataTracker) (dev : Bytes) (o : Option ℕ) → Keyed m → Keyed (with_need m dev o)
unfolding all_needed_counts
with_need-Keyed m dev (some i) keyed = keyed
with_need-Keyed m dev none keyed =
    append_counts-Keyed m dev need_flag _ keyed (needed_BelongsTo m.counts _ dev)

ptr_at-Keyed :
    (m : MetadataTracker) (dev : Bytes) (flag : ℕ) (o : Option ℕ)
    → Keyed m
    → Keyed (ptr_at m dev flag o).0
ptr_at-Keyed m dev flag (some i) keyed = keyed
ptr_at-Keyed m dev flag none keyed = with_need-Keyed _ dev _ (
    append_counts-Keyed m dev flag (no_counts dev flag) keyed
      (record { device_id = refl; local_flags = refl }))

-- `countsPtr` keeps every key pointing to its own counts.
pub counts_ptr-Keyed :
    (m : MetadataTracker) (dev : Bytes) (flag : ℕ) → Keyed m → Keyed (counts_ptr m dev flag).0
unfolding counts_ptr
counts_ptr-Keyed m dev flag keyed = ptr_at-Keyed m dev flag (find_index m.indexes dev flag) keyed

-- The key is at the place in the second tracker as well, with the same counts.
pub record Keeps (d : Bytes) (g i : ℕ) (m n : MetadataTracker) : Type 0 where
  pub index : find_index n.indexes d g ≡ some i
  pub at : i < length m.counts → counts_at n.counts i ≡ counts_at m.counts i
  pub room : i < length m.counts → i < length n.counts

append_counts-Keeps :
    (m : MetadataTracker) (dev : Bytes) (flag : ℕ) (c : Counts) (d : Bytes) (g i : ℕ)
    → find_index m.indexes dev flag ≡ none
    → find_index m.indexes d g ≡ some i
    → Keeps d g i m (append_counts m dev flag c)
append_counts-Keeps m dev flag c d g i absent there =
    let new : Index = record { dev = dev; flag = flag; place = length m.counts } in
    let more : length (m.counts ++ c ∷ []) ≡ length m.counts + 1 =
      length-append m.counts (c ∷ []) in
    elim (Bool-cases (is_key new d g)) [
      | inl k ↦
          let key = is_key_sound new d g k in
          let clash : none ≡ some i = rw (← absent, key.0, key.1) there in absurd (ground arith)
      | inr k ↦ record {
        index = find_index_miss new m.indexes d g k ∙ there;
        at = counts_at_before m.counts c i;
        room = λ h. omega (arith, more, h);
      }
    ]

with_need-Keeps :
    (m : MetadataTracker) (dev d : Bytes) (g i : ℕ)
    → find_index m.indexes d g ≡ some i
    → Keeps d g i m (with_need m dev (find_index m.indexes dev need_flag))
with_need-Keeps m dev d g i e = elim (Option-cases (find_index m.indexes dev need_flag)) [
  | inr (j, h) ↦ rw h (record { index = e; at = λ l. refl; room = λ l. l })
  | inl h ↦ rw h (append_counts-Keeps m dev need_flag (all_needed_counts m dev) d g i h e)
]

-- `countsPtr` leaves every key that is there at its place, with its counts.
pub counts_ptr-Keeps :
    (m : MetadataTracker) (dev : Bytes) (flag : ℕ) (d : Bytes) (g i : ℕ)
    → find_index m.indexes d g ≡ some i
    → Keeps d g i m (counts_ptr m dev flag).0
unfolding counts_ptr
counts_ptr-Keeps m dev flag d g i e = elim (Option-cases (find_index m.indexes dev flag)) [
  | inr (j, h) ↦ rw h (record { index = e; at = λ l. refl; room = λ l. l })
  | inl h ↦
      let added = append_counts m dev flag (no_counts dev flag) in
      let first = append_counts-Keeps m dev flag (no_counts dev flag) d g i h e in
      let second = with_need-Keeps added dev d g i first.index in
      rw h (record {
        index = second.index;
        at = λ l. second.at (first.room l) ∙ first.at l;
        room = λ l. second.room (first.room l);
      })
]

-- The place that `countsPtr` answers is the one of its key.
pub counts_ptr_found :
    (m : MetadataTracker) (dev : Bytes) (flag : ℕ)
    → find_index (counts_ptr m dev flag).0.indexes dev flag ≡ some (counts_ptr m dev flag).1
unfolding counts_ptr
counts_ptr_found m dev flag = elim (Option-cases (find_index m.indexes dev flag)) [
  | inr (i, h) ↦ rw h h
  | inl h ↦
      let new : Index = record { dev = dev; flag = flag; place = length m.counts } in
      rw h
        (with_need-Keeps (append_counts m dev flag (no_counts dev flag)) dev dev flag
          (length m.counts)
          (find_index_hit new m.indexes dev flag (is_key_self dev flag (length m.counts)))).index
]

-- `countsPtr` of a key that is there changes nothing.
pub counts_ptr_at :
    (m : MetadataTracker) (dev : Bytes) (flag i : ℕ)
    → find_index m.indexes dev flag ≡ some i
    → counts_ptr m dev flag ≡ (m, i)
unfolding counts_ptr
counts_ptr_at m dev flag i h = rw h refl

-- New counts for the same device and flag keep every key pointing to its own counts.
pub set_counts-Keyed :
    (m : MetadataTracker) (i : ℕ) (c : Counts)
    → Keyed m
    → c.device_id ≡ (counts_at m.counts i).device_id
    → c.local_flags ≡ (counts_at m.counts i).local_flags
    → Keyed (record m { counts = set_counts m.counts i c })
unfolding Keyed
set_counts-Keyed m i c keyed dev flags d g j e =
    let old = keyed d g j e in
    let len = length-set_counts m.counts i c in
    (
      omega (arith, old.0, len),
      elim (Bool-cases (i == j)) [
        | inl h ↦
            let same : i ≡ j = ground arith in
            let at = counts_at-set_counts m.counts i c (rw same old.0) in
            rw (← same, at)
              (record {
                device_id = dev ∙ rw same old.1.device_id;
                local_flags = flags ∙ rw same old.1.local_flags;
              })
        | inr h ↦ rw (counts_at-set_counts_other m.counts i j c (ground arith)) old.1
      ],
    )

-- `countsPtr` leaves the creation time.
pub counts_ptr_created :
    (m : MetadataTracker) (dev : Bytes) (flag : ℕ) → (counts_ptr m dev flag).0.created ≡ m.created
unfolding counts_ptr
counts_ptr_created m dev flag = elim (Option-cases (find_index m.indexes dev flag)) [
  | inr (i, h) ↦ rw h refl
  | inl h ↦
      let added = append_counts m dev flag (no_counts dev flag) in
      elim (Option-cases (find_index added.indexes dev need_flag)) [
        | inr (i, k) ↦ rw (h, k) refl
        | inl k ↦ rw (h, k) refl
      ]
]
