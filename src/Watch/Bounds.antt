-- ===== src/Watch/Bounds.antt =====
-- How large the tree of events gets, and that it has no empty directories: `aggregateEvent` of
-- back/lib/watchaggregator/aggregator.go.
use vaporcito.Base.{
  ℕ, suc, ◌+◌, ◌≤◌, [], ◌∷◌, length, Option, none, some, false, ◌==◌, ◌≡◌, refl, arith, Bool-cases,
  inl, inr,
}
use vaporcito.Base.Int.{ℤ}
use vaporcito.Base.Bytes.{Bytes}
use vaporcito.Base.Maps.{Map, lookup, insert}
use vaporcito.Watch.Tree.{
  EventType, AggregatedEvent, EventDir, event_dir, Dirs, dir_count, child_count, lookup_dir, merge,
  EventCounter,
}
use vaporcito.Watch.Track.{
  FilePath, Limits, Incoming, Walk, tracked, too_many, panics, updated_event, already, replacing,
  track_last, dir_or_new, grafted, track_parent, track,
}
use vaporcito.Watch.Fits.{
  Fits, DirsFit, first_mod_time-some, event_type-some, lookup_dir-Fits, insert_dir-DirsFit,
  erase_dir-DirsFit, dir_count-insert_dir, dir_count-erase_dir, dir_count-insert_dir_pos,
}

length-insert-le :
    (name : Bytes) (ev : AggregatedEvent) (events : Map AggregatedEvent)
    → length (insert name ev events) ≤ length events + 1
unfolding insert
length-insert-le name ev [] = omega arith
length-insert-le name ev (x ∷ events) = ground (arith, length-insert-le name ev events)

length-insert_known :
    (name : Bytes) (ev old : AggregatedEvent) (events : Map AggregatedEvent)
    → lookup name events ≡ some old
    → length (insert name ev events) ≡ length events
unfolding insert lookup
length-insert_known name ev old [] h = cc
length-insert_known name ev old (x ∷ events) h =
    ground (arith, length-insert_known name ev old events)

length-insert_pos :
    (name : Bytes) (ev : AggregatedEvent) (events : Map AggregatedEvent)
    → 1 ≤ length (insert name ev events)
unfolding insert
length-insert_pos name ev [] = omega arith
length-insert_pos name ev (x ∷ events) = ground (arith, length-insert_pos name ev events)

room_left : (n limit : ℕ) → (n == limit) ≡ false → n ≤ limit → 1 + n ≤ limit
room_left n limit z h = ground arith

-- A walk that ends with a tree ends with one that fits and is not empty, and no walk panics.
abbrev pub FitsAfter : ℕ → ℕ → Walk → Type 0
FitsAfter limit m (tracked d c reset) = (1 ≤ child_count d) × Fits limit m d
FitsAfter limit m (too_many j) = Unit {0}
FitsAfter limit m panics = ⊥

already-FitsAfter :
    (limit m : ℕ) (name : Bytes) (ev : AggregatedEvent) (e : Incoming)
    (events : Map AggregatedEvent) (dirs : Dirs) (c : EventCounter)
    → lookup name events ≡ some ev
    → Fits limit m (event_dir events dirs)
    → FitsAfter limit m (already name ev e events dirs c)
unfolding Fits
already-FitsAfter limit m name ev e events dirs c known h =
    let n = length-insert_known name (updated_event ev e) ev events known in
    let p = length-insert_pos name (updated_event ev e) events in
    (omega arith, (omega (arith, h.0), h.1))

-- A new event in the place of a directory.
replacing-FitsAfter :
    (limit m : ℕ) (name : Bytes) (e : Incoming) (events : Map AggregatedEvent) (dirs : Dirs)
    (c : EventCounter) (child : EventDir) (first : Option ℤ) (typ : Option EventType)
    → lookup_dir name dirs ≡ some child
    → Fits limit m (event_dir events dirs)
    → (t : ℤ) × (first ≡ some t)
    → (u : EventType) × (typ ≡ some u)
    → FitsAfter limit m (replacing name e events dirs c first typ)
unfolding Fits
replacing-FitsAfter limit m name e events dirs c child none typ known h (t, f) g = absurd (cc)
replacing-FitsAfter limit m name e events dirs c child (some first) none known h f (u, g) =
    absurd (cc)
replacing-FitsAfter limit m name e events dirs c child (some first) (some typ) known h f g =
    let ev : AggregatedEvent = record {
      first_mod = first;
      last_mod = e.ev_time;
      ev_type = merge e.typ typ;
    } in
    let n = length-insert-le name ev events in
    let p = length-insert_pos name ev events in
    let q = dir_count-erase_dir name dirs child known in
    (omega arith, (omega (arith, h.0), erase_dir-DirsFit m name dirs h.1))

track_last-FitsAfter :
    (i limit m : ℕ) (name : Bytes) (e : Incoming) (events : Map AggregatedEvent) (dirs : Dirs)
    (c : EventCounter) (ev : Option AggregatedEvent) (child : Option EventDir)
    → lookup name events ≡ ev
    → lookup_dir name dirs ≡ child
    → Fits limit m (event_dir events dirs)
    → FitsAfter limit m (track_last i limit name e events dirs c ev child)
unfolding Fits
track_last-FitsAfter i limit m name e events dirs c (some ev) child k k' h =
    already-FitsAfter limit m name ev e events dirs c k h
track_last-FitsAfter i limit m name e events dirs c none (some child) k k' h =
    let (one, fits) = lookup_dir-Fits m name dirs child h.1 k' in
    replacing-FitsAfter limit m name e events dirs c child _ _ k' h
      (first_mod_time-some e.now m m child fits one) (event_type-some m m child fits one)
track_last-FitsAfter i limit m name e events dirs c none none k k' h =
    elim (Bool-cases (length events + dir_count dirs == limit)) [
      | inl z ↦ rw z tt
      | inr z ↦ rw z (
          let ev : AggregatedEvent = record {
            first_mod = e.ev_time;
            last_mod = e.ev_time;
            ev_type = e.typ;
          } in
          let n = length-insert-le name ev events in
          let p = length-insert_pos name ev events in
          let room : 1 + (length events + dir_count dirs) ≤ limit = room_left _ _ z h.0 in
          (omega arith, (omega arith, h.1)))
    ]

grafted-FitsAfter :
    (limit m : ℕ) (name : Bytes) (events : Map AggregatedEvent) (dirs : Dirs) (below : Walk)
    → 1 + (length events + dir_count dirs) ≤ limit
    → DirsFit m dirs
    → FitsAfter m m below
    → FitsAfter limit m (grafted name events dirs below)
unfolding Fits
grafted-FitsAfter limit m name events dirs (tracked d c reset) room h f =
    let n = dir_count-insert_dir name d dirs in
    let p = dir_count-insert_dir_pos name d dirs in
    (omega arith, (omega arith, insert_dir-DirsFit m name d dirs f.0 f.1 h))
grafted-FitsAfter limit m name events dirs (too_many j) room h f = tt
grafted-FitsAfter limit m name events dirs panics room h f = f

track_parent-FitsAfter :
    (i limit m : ℕ) (name : Bytes) (e : Incoming) (events : Map AggregatedEvent) (dirs : Dirs)
    (c : EventCounter) (ev : Option AggregatedEvent) (below : Walk)
    → lookup name events ≡ ev
    → Fits limit m (event_dir events dirs)
    → FitsAfter m m below
    → FitsAfter limit m (track_parent i limit name e events dirs c ev below)
unfolding Fits
track_parent-FitsAfter i limit m name e events dirs c (some ev) below k h f =
    already-FitsAfter limit m name ev e events dirs c k h
track_parent-FitsAfter i limit m name e events dirs c none below k h f =
    elim (Bool-cases (length events + dir_count dirs == limit)) [
      | inl z ↦ rw z tt
      | inr z ↦ rw z (grafted-FitsAfter limit m name events dirs below (room_left _ _ z h.0) h.1 f)
    ]

dir_or_new-Fits :
    (m : ℕ) (name : Bytes) (dirs : Dirs) (child : Option EventDir)
    → DirsFit m dirs
    → lookup_dir name dirs ≡ child
    → Fits m m (dir_or_new child)
unfolding Fits
dir_or_new-Fits m name dirs none h k = (omega arith, tt)
dir_or_new-Fits m name dirs (some d) h k = (lookup_dir-Fits m name dirs d h k).1

-- A walk along a path that is not empty keeps the bounds of the tree and does not panic.
pub track-FitsAfter :
    (l : Limits) (e : Incoming) (c : EventCounter) (i limit : ℕ) (path : FilePath) (d : EventDir)
    → 1 ≤ length path
    → Fits limit l.max_files_per_dir d
    → FitsAfter limit l.max_files_per_dir (track l e c i limit path d)
unfolding track Fits
track-FitsAfter l e c i limit [] (event_dir events dirs) p h = absurd (omega arith)
track-FitsAfter l e c i limit (name ∷ []) (event_dir events dirs) p h =
    track_last-FitsAfter i limit l.max_files_per_dir name e events dirs c _ _ refl refl h
track-FitsAfter l e c i limit (name ∷ next ∷ rest) (event_dir events dirs) p h =
    track_parent-FitsAfter i limit l.max_files_per_dir name e events dirs c (lookup name events) _
      refl h
      (track-FitsAfter l e c (suc i) l.max_files_per_dir (next ∷ rest)
        (dir_or_new (lookup_dir name dirs)) (omega arith)
        (dir_or_new-Fits l.max_files_per_dir name dirs (lookup_dir name dirs) h.1 refl))
