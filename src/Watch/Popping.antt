-- ===== src/Watch/Popping.antt =====
-- What the timer takes out of the tree: `popOldEventsTo` of back/lib/watchaggregator/aggregator.go.
use vaporcito.Base.{
  ℕ, ◌≤◌, [], ◌∷◌, ◌++◌, length, Bool, true, not, ◌==◌, ◌≡◌, refl, sym, ◌∙◌, arith, if◌then◌else◌,
  Bool-cases, inl, inr,
}
use vaporcito.Base.Int.{ℤ}
use vaporcito.Base.Bytes.{Bytes}
use vaporcito.Base.Maps.{Map}
use vaporcito.Watch.Tree.{
  AggregatedEvent, EventDir, event_dir, Dirs, no_dirs, with_dir, child_count, dir_count,
}
use vaporcito.Watch.Track.{FilePath, Aggregator}
use vaporcito.Watch.Timer.{
  join, is_old, Scheduled, pop_events, unless_empty, pop_dir, pop_dirs, uncount, pop_old_events,
}
use vaporcito.Watch.Fits.{Fits, DirsFit}

-- All events below a directory, with their paths.
unfoldable pub entries : FilePath → Map AggregatedEvent → Scheduled
entries path [] = []
entries path ((name, ev) ∷ events) = (join path name, ev) ∷ entries path events

unfoldable mutual
  pub all_events : FilePath → EventDir → Scheduled
  all_events path (event_dir events dirs) = all_in_dirs path dirs ++ entries path events

  pub all_in_dirs : FilePath → Dirs → Scheduled
  all_in_dirs path no_dirs = []
  all_in_dirs path (with_dir name d ds) = all_events (join path name) d ++ all_in_dirs path ds

-- The scheduled events that pass a test, in their order.
unfoldable pub those : (AggregatedEvent → Bool) → Scheduled → Scheduled
those f [] = []
those f ((path, ev) ∷ to) = let rest = those f to in if f ev then (path, ev) ∷ rest else rest

those-append :
    (f : AggregatedEvent → Bool) (x y : Scheduled) → those f (x ++ y) ≡ those f x ++ those f y
unfolding those
those-append f [] y = refl
those-append f ((path, ev) ∷ x) y = elim (Bool-cases (f ev)) [
  | inl e ↦ rw (e, those-append f x y) refl
  | inr e ↦ rw (e, those-append f x y) refl
]

-- The popped ones and the ones that stay.
abbrev pub Splits : (AggregatedEvent → Bool) → Scheduled → Scheduled → Scheduled → Type 0
Splits old before popped after =
    (popped ≡ those old before) × (after ≡ those (λ ev. not (old ev)) before)

Splits-append :
    (old : AggregatedEvent → Bool) (b b' p p' a a' : Scheduled)
    → Splits old b p a
    → Splits old b' p' a'
    → Splits old (b ++ b') (p ++ p') (a ++ a')
Splits-append old b b' p p' a a' h h' = (
  rw (h.0, h'.0) (sym (those-append old b b')),
  rw (h.1, h'.1) (sym (those-append (λ ev. not (old ev)) b b')),
)

pop_events-Splits :
    (old : AggregatedEvent → Bool) (path : FilePath) (events : Map AggregatedEvent)
    → Splits old
        (entries path events)
        (pop_events old path events).0
        (entries path (pop_events old path events).1)
unfolding pop_events entries those
pop_events-Splits old path [] = (refl, refl)
pop_events-Splits old path ((name, ev) ∷ events) =
    let (p, q) = pop_events-Splits old path events in
    elim (Bool-cases (old ev)) [ inl e ↦ rw e (rw p refl, q) | inr e ↦ rw e (p, rw q refl) ]

empty-all_events :
    (path : FilePath) (d : EventDir) → (child_count d == 0) ≡ true → all_events path d ≡ []
unfolding all_events entries
empty-all_events path (event_dir [] no_dirs) h = refl
empty-all_events path (event_dir [] (with_dir name d ds)) h = absurd (ground arith)
empty-all_events path (event_dir (x ∷ events) dirs) h = absurd (ground arith)

unless_empty-all_in_dirs :
    (path : FilePath) (name : Bytes) (d : EventDir) (ds : Dirs)
    → all_in_dirs path (unless_empty name d ds)
      ≡ all_events (join path name) d ++ all_in_dirs path ds
unfolding all_events
unless_empty-all_in_dirs path name d ds = elim (Bool-cases (child_count d == 0)) [
  | inl e ↦ rw (e, empty-all_events (join path name) d e) refl
  | inr e ↦ rw e refl
]

mutual
  unfolding all_events pop_dir those

  pub pop_dir-Splits :
      (old : AggregatedEvent → Bool) (path : FilePath) (d : EventDir)
      → Splits old
          (all_events path d)
          (pop_dir old path d).0
          (all_events path (pop_dir old path d).1)
  pop_dir-Splits old path (event_dir events dirs) =
      Splits-append old _ _ _ _ _ _ (pop_dirs-Splits old path dirs)
        (pop_events-Splits old path events)

  pop_dirs-Splits :
      (old : AggregatedEvent → Bool) (path : FilePath) (ds : Dirs)
      → Splits old
          (all_in_dirs path ds)
          (pop_dirs old path ds).0
          (all_in_dirs path (pop_dirs old path ds).1)
  pop_dirs-Splits old path no_dirs = (refl, refl)
  pop_dirs-Splits old path (with_dir name d ds) =
      let both =
        Splits-append old _ _ _ _ _ _ (pop_dir-Splits old (join path name) d)
          (pop_dirs-Splits old path ds) in
      (
        both.0,
        unless_empty-all_in_dirs path name (pop_dir old (join path name) d).1
              (pop_dirs old path ds).1
            ∙ both.1,
      )

-- The timer takes exactly the events that are old out of the tree, with their paths, and exactly
-- the others stay, each at its path; the counts go down by the types of those taken.
pub pop_old_events-Splits :
    (a : Aggregator) (curr_time : ℤ) (delay_rem : Bool)
    → Splits
        (is_old a curr_time delay_rem)
        (all_events [] a.root)
        (pop_old_events a curr_time delay_rem).0
        (all_events [] (pop_old_events a curr_time delay_rem).1.root)
      × ((pop_old_events a curr_time delay_rem).1.counts
          ≡ uncount a.counts (those (is_old a curr_time delay_rem) (all_events [] a.root)))
unfolding pop_old_events
pop_old_events-Splits a curr_time delay_rem =
    let s = pop_dir-Splits (is_old a curr_time delay_rem) [] a.root in (s, rw s.0 refl)

pop_events-le :
    (old : AggregatedEvent → Bool) (path : FilePath) (events : Map AggregatedEvent)
    → length (pop_events old path events).1 ≤ length events
unfolding pop_events
pop_events-le old path [] = omega arith
pop_events-le old path ((name, ev) ∷ events) = ground (arith, pop_events-le old path events)

mutual
  unfolding Fits pop_dir

  pub pop_dir-Fits :
      (old : AggregatedEvent → Bool) (path : FilePath) (limit m : ℕ) (d : EventDir)
      → Fits limit m d
      → Fits limit m (pop_dir old path d).1
  pop_dir-Fits old path limit m (event_dir events dirs) h =
      let f = pop_dirs-Fits old path m dirs h.1 in
      let k = pop_events-le old path events in (omega (arith, h.0, f.0), f.1)

  pop_dirs-Fits :
      (old : AggregatedEvent → Bool) (path : FilePath) (m : ℕ) (ds : Dirs)
      → DirsFit m ds
      → (dir_count (pop_dirs old path ds).1 ≤ dir_count ds) × DirsFit m (pop_dirs old path ds).1
  pop_dirs-Fits old path m no_dirs h = (omega arith, tt)
  pop_dirs-Fits old path m (with_dir name d ds) h =
      let f = pop_dir-Fits old (join path name) m m d h.1 in
      let r = pop_dirs-Fits old path m ds h.2 in
      elim (Bool-cases (child_count (pop_dir old (join path name) d).1 == 0)) [
        | inl e ↦ rw e (omega (arith, r.0), r.1)
        | inr e ↦ rw e (omega (arith, r.0), (ground (arith, e), f, r.1))
      ]
