-- ===== src/Watch/Aggregate.antt =====
-- Aggregation as a whole: `aggregateEvent` and `newEvent` of back/lib/watchaggregator/aggregator.go.
use vaporcito.Base.{
  ℕ, zero, suc, ◌+◌, ◌≤◌, List, [], ◌∷◌, length, take, drop, Option, none, some, Bool, true, false,
  ◌||◌, ◌==◌, ◌≡◌, refl, sym, subst, ◌∙◌, arith, Bool-cases, Option-cases, inl, inr,
}
use vaporcito.Base.Int.{ℤ, pos, ◌==ℤ◌}
use vaporcito.Base.Bytes.{bytes_equal}
use vaporcito.Base.Maps.{lookup}
use vaporcito.Base.Slices.{take-drop, length-take}
use vaporcito.Watch.Tree.{EventType, EventDir, event_dir, child_count, events_of, lookup_dir, total}
use vaporcito.Watch.Track.{
  FilePath, Limits, Incoming, Walk, tracked, too_many, panics, Aggregator, reset_notify_timer,
  reset_notify_timer_if_needed, dot, whole_folder, scan_entire_folder, after_walk, aggregate_loop,
  aggregate_event, is_in, is_some, scans_all, new_event,
}
use vaporcito.Watch.Covers.{covers, Extends, Grows, track-Grows, covers-append, or_mono}
use vaporcito.Watch.Depth.{IsAbove, track-IsAbove}
use vaporcito.Watch.Fits.{Fits, first_mod_time-some, event_type-some}
use vaporcito.Watch.Bounds.{FitsAfter, track-FitsAfter}

-- The path, a directory above it or the whole folder is to be scanned.
abbrev pub covered : Aggregator → FilePath → Bool
covered a path = scans_all a || covers path a.root

abbrev pub IsBounded : Limits → Aggregator → Type 0
IsBounded l a = Fits l.max_files l.max_files_per_dir a.root

-- What the handling of an event promises: no panic, the bounds, and that the path of the event and
-- all that was to be scanned before are to be scanned.
pub record Handles (l : Limits) (path : FilePath) (a b : Aggregator) : Type 0 where
  pub bounded : IsBounded l b
  pub covers_path : covered b path ≡ true
  pub keeps : (q : FilePath) → covered a q ≡ true → covered b q ≡ true

abbrev pub Handled : Limits → FilePath → Aggregator → Option Aggregator → Type 0
Handled l path a none = ⊥
Handled l path a (some b) = Handles l path a b

-- The timer has no part in it.
Handled-timer :
    (l : Limits) (path : FilePath) (a b : Aggregator)
    → Handles l path a b
    → Handles l path a (reset_notify_timer_if_needed b)
unfolding reset_notify_timer_if_needed reset_notify_timer
Handled-timer l path a b h = elim (Bool-cases b.needs_reset) [
  | inl e ↦ simp e (record { bounded = h.bounded; covers_path = h.covers_path; keeps = h.keeps })
  | inr e ↦ simp e h
]

or_true : (x : Bool) → x || true ≡ true
or_true true = refl
or_true false = refl

whole_folder-Handled :
    (l : Limits) (e : Incoming) (path : FilePath) (a : Aggregator) (first : Option ℤ)
    (typ : Option EventType)
    → 1 ≤ l.max_files
    → (t : ℤ) × (first ≡ some t)
    → (u : EventType) × (typ ≡ some u)
    → Handled l path a (whole_folder a e first typ)
whole_folder-Handled l e path a none typ one (t, f) g = absurd (cc)
whole_folder-Handled l e path a (some first) none one f (u, g) = absurd (cc)
whole_folder-Handled l e path a (some first) (some typ) one f g = Handled-timer l path a _ (record {
  bounded = unfold Fits in (omega arith, tt);
  covers_path = unfold lookup bytes_equal in refl;
  keeps = λ q h. unfold lookup bytes_equal in refl;
})

scan_entire_folder-Handled :
    (l : Limits) (e : Incoming) (path : FilePath) (a : Aggregator)
    → 1 ≤ l.max_files
    → IsBounded l a
    → Handled l path a (scan_entire_folder a e)
unfolding scan_entire_folder
scan_entire_folder-Handled l e path a one h = elim (Bool-cases (child_count a.root == 0)) [
  | inl z ↦ rw z (whole_folder-Handled l e path a _ _ one (_, refl) (_, refl))
  | inr z ↦ rw z (
      whole_folder-Handled l e path a _ _ one
        (first_mod_time-some e.now l.max_files l.max_files_per_dir a.root h (ground (arith, z)))
        (event_type-some l.max_files l.max_files_per_dir a.root h (ground (arith, z))))
]

or_false : (x : Bool) → x || false ≡ x
or_false true = refl
or_false false = refl

-- The event for the whole folder is at the path of its name.
covers-dot : (d : EventDir) → covers (dot ∷ []) d ≡ is_some (lookup dot (events_of d))
unfolding covers
covers-dot (event_dir events dirs) = elim (Option-cases (lookup_dir dot dirs)) [
  | inl e ↦ rw e (or_false _)
  | inr (d, e) ↦ rw e (or_false _)
]

covered_mono :
    (a b : Aggregator) (q : FilePath)
    → ((p : FilePath) → covers p a.root ≡ true → covers p b.root ≡ true)
    → covered a q ≡ true
    → covered b q ≡ true
covered_mono a b q kept h = elim (Bool-cases (scans_all a)) [
  | inl e ↦ rw (sym (covers-dot b.root) ∙ kept (dot ∷ []) (covers-dot a.root ∙ e)) refl
  | inr e ↦ rw (kept q (rw e at h)) (or_true _)
]

tracked-Handled :
    (l : Limits) (path : FilePath) (a b : Aggregator)
    → Extends path a.root b.root
    → IsBounded l b
    → Handles l path a b
tracked-Handled l path a b x h = record {
  bounded = h;
  covers_path = rw x.covered (or_true _);
  keeps = λ q k. covered_mono a b q x.kept k;
}

after_walk-Handled :
    (l : Limits) (path : FilePath) (a : Aggregator) (w : Walk) (again : ℕ → Option Aggregator)
    → Grows path a.root w
    → IsAbove 0 (length path) w
    → FitsAfter l.max_files l.max_files_per_dir w
    → ((i : ℕ) → i + 1 ≤ length path → Handled l path a (again i))
    → Handled l path a (after_walk a w again)
after_walk-Handled l path a (tracked d c true) again g k f next =
    Handled-timer l path a _ (tracked-Handled l path a _ g f.1)
after_walk-Handled l path a (tracked d c false) again g k f next = tracked-Handled l path a _ g f.1
after_walk-Handled l path a (too_many i) again g k f next = next i (omega (arith, k.1))
after_walk-Handled l path a panics again g k f next = f

-- What is done for a directory above a path is done for the path.
Handled-above :
    (l : Limits) (path : FilePath) (i : ℕ) (a : Aggregator) (r : Option Aggregator)
    → Handled l (take i path) a r
    → Handled l path a r
Handled-above l path i a none h = h
Handled-above l path i a (some b) h = record {
  bounded = h.bounded;
  covers_path =
      or_mono (scans_all b) (covers (take i path) b.root) (covers path b.root)
        (λ k.
          subst (λ p. covers p b.root ≡ true) (take-drop i path)
            (covers-append (take i path) (drop i path) b.root k))
        h.covers_path;
  keeps = h.keeps;
}

aggregate_loop-Handled :
    (n : ℕ) (l : Limits) (e : Incoming) (path : FilePath) (a : Aggregator)
    → length path + 1 ≤ n
    → 1 ≤ l.max_files
    → IsBounded l a
    → Handled l path a (aggregate_loop n l e path a)
unfolding aggregate_loop
aggregate_loop-Handled zero l e path a k one h = absurd (omega arith)
aggregate_loop-Handled (suc n) l e [] a k one h = scan_entire_folder-Handled l e [] a one h
aggregate_loop-Handled (suc n) l e (name ∷ rest) a k one h =
    elim (Bool-cases (total a.counts ==ℤ pos l.max_files)) [
      | inl z ↦ rw z (scan_entire_folder-Handled l e (name ∷ rest) a one h)
      | inr z ↦ rw z (
          after_walk-Handled l (name ∷ rest) a _ _
            (track-Grows l e a.counts 0 l.max_files (name ∷ rest) a.root)
            (track-IsAbove l e a.counts 0 l.max_files (name ∷ rest) a.root)
            (track-FitsAfter l e a.counts 0 l.max_files (name ∷ rest) a.root (omega arith) h)
            λ i m. Handled-above l (name ∷ rest) i a _ (
              aggregate_loop-Handled n l e (take i (name ∷ rest)) a
                (let s = length-take i (name ∷ rest) (omega arith) in omega arith) one h))
    ]

-- If the root may have a child and the tree is within its bounds, then taking in an event ends
-- without a panic, whatever its path: the tree is within the bounds again and has no empty
-- directories, the path of the event is covered (it, a directory above it or the whole folder has an
-- event), and every path that was covered before is still covered.
pub aggregate_event-Handled :
    (l : Limits) (e : Incoming) (path : FilePath) (a : Aggregator)
    → 1 ≤ l.max_files
    → IsBounded l a
    → Handled l path a (aggregate_event l e path a)
unfolding aggregate_event
aggregate_event-Handled l e path a one h =
    aggregate_loop-Handled (suc (length path)) l e path a (omega arith) one h

Handles-same :
    (l : Limits) (path : FilePath) (a : Aggregator)
    → IsBounded l a
    → covered a path ≡ true
    → Handles l path a a
Handles-same l path a h c = record { bounded = h; covers_path = c; keeps = λ q k. k }

-- An event that does not come from a file that is being pulled.
pub new_event-Handled :
    (l : Limits) (e : Incoming) (path : FilePath) (in_progress : List FilePath) (a : Aggregator)
    → 1 ≤ l.max_files
    → is_in path in_progress ≡ false
    → IsBounded l a
    → Handled l path a (new_event l e path in_progress a)
unfolding new_event
new_event-Handled l e path in_progress a one out h = elim (Bool-cases (scans_all a)) [
  | inl z ↦ rw z (Handles-same l path a h (rw z refl))
  | inr z ↦ rw (z, out) (aggregate_event-Handled l e path a one h)
]
