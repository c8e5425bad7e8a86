-- ===== src/Watch/Depth.antt =====
-- Why aggregation ends: the directory that `aggregateEvent` of
-- back/lib/watchaggregator/aggregator.go tracks instead of a path lies above it.
use vaporcito.Base.{
  ℕ, suc, ◌+◌, ◌≤◌, [], ◌∷◌, length, Option, none, some, ◌==◌, arith, Bool-cases, inl, inr,
}
use vaporcito.Base.Int.{ℤ}
use vaporcito.Base.Bytes.{Bytes}
use vaporcito.Base.Maps.{Map, lookup}
use vaporcito.Watch.Tree.{
  EventType, AggregatedEvent, EventDir, event_dir, Dirs, dir_count, lookup_dir, EventCounter,
}
use vaporcito.Watch.Track.{
  FilePath, Limits, Incoming, Walk, tracked, too_many, panics, replacing, track_last, dir_or_new,
  grafted, track_parent, track,
}

-- The directory to track instead is at least at the depth of the walk and above the end of the path.
abbrev pub IsAbove : ℕ → ℕ → Walk → Type 0
IsAbove i n (tracked d c reset) = Unit {0}
IsAbove i n (too_many j) = (i ≤ j) × (j + 1 ≤ i + n)
IsAbove i n panics = Unit {0}

replacing-IsAbove :
    (i n : ℕ) (name : Bytes) (e : Incoming) (events : Map AggregatedEvent) (dirs : Dirs)
    (c : EventCounter) (first : Option ℤ) (typ : Option EventType)
    → IsAbove i n (replacing name e events dirs c first typ)
replacing-IsAbove i n name e events dirs c none typ = tt
replacing-IsAbove i n name e events dirs c (some first) none = tt
replacing-IsAbove i n name e events dirs c (some first) (some typ) = tt

track_last-IsAbove :
    (i limit n : ℕ) (name : Bytes) (e : Incoming) (events : Map AggregatedEvent) (dirs : Dirs)
    (c : EventCounter) (ev : Option AggregatedEvent) (child : Option EventDir)
    → IsAbove i (suc n) (track_last i limit name e events dirs c ev child)
track_last-IsAbove i limit n name e events dirs c (some ev) child = tt
track_last-IsAbove i limit n name e events dirs c none (some child) =
    replacing-IsAbove i (suc n) name e events dirs c _ _
track_last-IsAbove i limit n name e events dirs c none none =
    elim (Bool-cases (length events + dir_count dirs == limit)) [
      | inl h ↦ rw h (omega arith, omega arith)
      | inr h ↦ rw h tt
    ]

grafted-IsAbove :
    (i n : ℕ) (name : Bytes) (events : Map AggregatedEvent) (dirs : Dirs) (below : Walk)
    → IsAbove (suc i) n below
    → IsAbove i (suc n) (grafted name events dirs below)
grafted-IsAbove i n name events dirs (tracked d c reset) h = tt
grafted-IsAbove i n name events dirs (too_many j) h = (omega arith, omega arith)
grafted-IsAbove i n name events dirs panics h = tt

track_parent-IsAbove :
    (i limit n : ℕ) (name : Bytes) (e : Incoming) (events : Map AggregatedEvent) (dirs : Dirs)
    (c : EventCounter) (ev : Option AggregatedEvent) (below : Walk)
    → IsAbove (suc i) n below
    → IsAbove i (suc n) (track_parent i limit name e events dirs c ev below)
track_parent-IsAbove i limit n name e events dirs c (some ev) below h = tt
track_parent-IsAbove i limit n name e events dirs c none below h =
    elim (Bool-cases (length events + dir_count dirs == limit)) [
      | inl k ↦ rw k (omega arith, omega arith)
      | inr k ↦ rw k (grafted-IsAbove i n name events dirs below h)
    ]

pub track-IsAbove :
    (l : Limits) (e : Incoming) (c : EventCounter) (i limit : ℕ) (path : FilePath) (d : EventDir)
    → IsAbove i (length path) (track l e c i limit path d)
unfolding track
track-IsAbove l e c i limit [] (event_dir events dirs) = tt
track-IsAbove l e c i limit (name ∷ []) (event_dir events dirs) =
    track_last-IsAbove i limit 0 name e events dirs c _ _
track-IsAbove l e c i limit (name ∷ next ∷ rest) (event_dir events dirs) =
    track_parent-IsAbove i limit (suc (length rest)) name e events dirs c (lookup name events) _ (
      track-IsAbove l e c (suc i) l.max_files_per_dir (next ∷ rest)
        (dir_or_new (lookup_dir name dirs)))
