-- ===== src/Watch/Fits.antt =====
-- Bounds on the tree of events, and its first time and type: `eventDir` of
-- back/lib/watchaggregator/aggregator.go.
use mathlib.Core.Option.{some-injective}
use vaporcito.Base.{
  ℕ, ◌+◌, ◌≤◌, length, some, false, ◌==◌, ◌≡◌, refl, subst, arith, Bool-cases, inl, inr,
}
use vaporcito.Base.Int.{ℤ}
use vaporcito.Base.Bytes.{Bytes, bytes_equal}
use vaporcito.Watch.Tree.{
  EventType, EventDir, event_dir, Dirs, no_dirs, with_dir, dir_count, child_count, lookup_dir,
  insert_dir, erase_dir, first_of_events, first_mod_time, first_of_dirs, sooner, merge, same_type,
  event_type, type_of_dirs, type_of_events,
}

-- A directory has no more children than its limit and those below no more than theirs, and no
-- directory below is empty.
unfoldable mutual
  pub Fits : ℕ → ℕ → EventDir → Type 0
  Fits limit m (event_dir events dirs) = (length events + dir_count dirs ≤ limit) × DirsFit m dirs

  pub DirsFit : ℕ → Dirs → Type 0
  DirsFit m no_dirs = Unit
  DirsFit m (with_dir name d ds) = (1 ≤ child_count d) × Fits m m d × DirsFit m ds

mutual
  unfolding Fits first_mod_time

  pub first_mod_time-some :
      (now : ℤ) (limit m : ℕ) (d : EventDir)
      → Fits limit m d
      → 1 ≤ child_count d
      → (t : ℤ) × (first_mod_time now d ≡ some t)
  first_mod_time-some now limit m (event_dir events dirs) h k =
      let (t, e) = first_of_dirs-some now now m dirs h.1 in
      let z : (length events + dir_count dirs == 0) ≡ false = ground arith in
      (first_of_events t events, rw (z, e) refl)

  first_of_dirs-some :
      (now t : ℤ) (m : ℕ) (ds : Dirs) → DirsFit m ds → (u : ℤ) × (first_of_dirs now t ds ≡ some u)
  first_of_dirs-some now t m no_dirs h = (t, refl)
  first_of_dirs-some now t m (with_dir name d ds) h =
      let (u, e) = first_mod_time-some now m m d h.1 h.0 in
      let (w, f) = first_of_dirs-some now (sooner u t) m ds h.2 in (w, rw e f)

mutual
  unfolding Fits event_type

  pub event_type-some :
      (limit m : ℕ) (d : EventDir)
      → Fits limit m d
      → 1 ≤ child_count d
      → (t : EventType) × (event_type d ≡ some t)
  event_type-some limit m (event_dir events dirs) h k =
      let (t, e) = type_of_dirs-some EventType.unset m dirs h.1 in
      let z : (length events + dir_count dirs == 0) ≡ false = ground arith in
      (type_of_events t events, rw (z, e) refl)

  type_of_dirs-some :
      (t : EventType) (m : ℕ) (ds : Dirs)
      → DirsFit m ds
      → (u : EventType) × (type_of_dirs t ds ≡ some u)
  type_of_dirs-some t m no_dirs h = (t, refl)
  type_of_dirs-some t m (with_dir name d ds) h =
      let (u, e) = event_type-some m m d h.1 h.0 in
      let (w, f) = type_of_dirs-some (merge t u) m ds h.2 in
      elim (Bool-cases (same_type (merge t u) EventType.mixed)) [
        | inl z ↦ (EventType.mixed, rw (e, z) refl)
        | inr z ↦ (w, rw (e, z) f)
      ]

pub lookup_dir-Fits :
    (m : ℕ) (name : Bytes) (ds : Dirs) (d : EventDir)
    → DirsFit m ds
    → lookup_dir name ds ≡ some d
    → (1 ≤ child_count d) × Fits m m d
unfolding Fits lookup_dir
lookup_dir-Fits m name no_dirs d h e = cc
lookup_dir-Fits m name (with_dir n c ds) d h e = elim (Bool-cases (bytes_equal n name)) [
  | inl k ↦
      subst (λ x. (1 ≤ child_count x) × Fits m m x) (some-injective c d (rw k at e)) (h.0, h.1)
  | inr k ↦ lookup_dir-Fits m name ds d h.2 (rw k at e)
]

pub insert_dir-DirsFit :
    (m : ℕ) (name : Bytes) (d : EventDir) (ds : Dirs)
    → 1 ≤ child_count d
    → Fits m m d
    → DirsFit m ds
    → DirsFit m (insert_dir name d ds)
unfolding Fits insert_dir
insert_dir-DirsFit m name d no_dirs one f h = (one, f, tt)
insert_dir-DirsFit m name d (with_dir n c ds) one f h = elim (Bool-cases (bytes_equal n name)) [
  | inl k ↦ rw k (one, f, h.2)
  | inr k ↦ rw k (h.0, h.1, insert_dir-DirsFit m name d ds one f h.2)
]

pub erase_dir-DirsFit :
    (m : ℕ) (name : Bytes) (ds : Dirs) → DirsFit m ds → DirsFit m (erase_dir name ds)
unfolding Fits erase_dir
erase_dir-DirsFit m name no_dirs h = tt
erase_dir-DirsFit m name (with_dir n c ds) h = elim (Bool-cases (bytes_equal n name)) [
  | inl k ↦ rw k (erase_dir-DirsFit m name ds h.2)
  | inr k ↦ rw k (h.0, h.1, erase_dir-DirsFit m name ds h.2)
]

pub dir_count-insert_dir :
    (name : Bytes) (d : EventDir) (ds : Dirs) → dir_count (insert_dir name d ds) ≤ dir_count ds + 1
unfolding insert_dir
dir_count-insert_dir name d no_dirs = omega arith
dir_count-insert_dir name d (with_dir n c ds) = ground (arith, dir_count-insert_dir name d ds)

dir_count-erase_dir-le : (name : Bytes) (ds : Dirs) → dir_count (erase_dir name ds) ≤ dir_count ds
unfolding erase_dir
dir_count-erase_dir-le name no_dirs = omega arith
dir_count-erase_dir-le name (with_dir n c ds) = ground (arith, dir_count-erase_dir-le name ds)

pub dir_count-erase_dir :
    (name : Bytes) (ds : Dirs) (d : EventDir)
    → lookup_dir name ds ≡ some d
    → dir_count (erase_dir name ds) + 1 ≤ dir_count ds
unfolding erase_dir lookup_dir
dir_count-erase_dir name no_dirs d h = cc
dir_count-erase_dir name (with_dir n c ds) d h =
    ground (arith, dir_count-erase_dir-le name ds, dir_count-erase_dir name ds d)

pub dir_count-insert_dir_pos :
    (name : Bytes) (d : EventDir) (ds : Dirs) → 1 ≤ dir_count (insert_dir name d ds)
unfolding insert_dir
dir_count-insert_dir_pos name d no_dirs = omega arith
dir_count-insert_dir_pos name d (with_dir n c ds) =
    ground (arith, dir_count-insert_dir_pos name d ds)
