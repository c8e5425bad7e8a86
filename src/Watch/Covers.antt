-- ===== src/Watch/Covers.antt =====
-- No event is lost: what `aggregateEvent` of back/lib/watchaggregator/aggregator.go keeps of paths.
use vaporcito.Base.{
  ℕ, suc, ◌+◌, [], ◌∷◌, ◌++◌, Bool, true, false, ◌||◌, Option, none, some, length, ◌==◌, ◌≡◌, refl,
  sym, subst, ◌∙◌, arith, if◌then◌else◌, Bool-cases, inl, inr,
}
use vaporcito.Base.Int.{ℤ}
use vaporcito.Base.Bytes.{Bytes, bytes_equal, bytes_equal_sound, bytes_equal_iff, bytes_equal_refl}
use vaporcito.Base.Maps.{Map, lookup, insert, lookup-insert}
use vaporcito.Watch.Tree.{
  EventType, AggregatedEvent, EventDir, event_dir, Dirs, no_dirs, with_dir, new_event_dir,
  lookup_dir, insert_dir, erase_dir, EventCounter, dir_count,
}
use vaporcito.Watch.Track.{
  FilePath, Limits, Incoming, Walk, tracked, too_many, panics, updated_event, already, replacing,
  track_last, dir_or_new, grafted, track_parent, track, is_some,
}

abbrev covers_in : Option EventDir → (EventDir → Bool) → Bool
covers_in none f = false
covers_in (some d) f = f d

-- The path or a directory above it has an event.
unfoldable pub covers : FilePath → EventDir → Bool
covers [] d = false
covers (name ∷ rest) (event_dir events dirs) =
    is_some (lookup name events) || covers_in (lookup_dir name dirs) (λ d. covers rest d)

lookup-insert_dir :
    (set name : Bytes) (new : EventDir) (ds : Dirs)
    → lookup_dir name (insert_dir set new ds)
      ≡ (if bytes_equal set name then some new else lookup_dir name ds)
unfolding lookup_dir insert_dir
lookup-insert_dir set name new no_dirs = refl
lookup-insert_dir set name new (with_dir n d ds) = ground (
  arith,
  bytes_equal_iff n name,
  bytes_equal_iff set name,
  bytes_equal_iff n set,
  lookup-insert_dir set name new ds,
)

lookup-erase_dir :
    (gone name : Bytes) (ds : Dirs)
    → lookup_dir name (erase_dir gone ds)
      ≡ (if bytes_equal gone name then none else lookup_dir name ds)
unfolding lookup_dir erase_dir
lookup-erase_dir gone name no_dirs = ground arith
lookup-erase_dir gone name (with_dir n d ds) = ground (
  arith,
  bytes_equal_iff n name,
  bytes_equal_iff gone name,
  bytes_equal_iff n gone,
  lookup-erase_dir gone name ds,
)

-- A tree that covers a path and all that another one covers.
pub record Extends (path : FilePath) (old new : EventDir) : Type 0 where
  pub covered : covers path new ≡ true
  pub kept : (q : FilePath) → covers q old ≡ true → covers q new ≡ true

-- A walk that ends with a tree extends the one it began with.
abbrev pub Grows : FilePath → EventDir → Walk → Type 0
Grows path old (tracked new c reset) = Extends path old new
Grows path old (too_many i) = Unit {0}
Grows path old panics = Unit {0}

-- An event that is put at a name covers all paths from there.
insert-Extends :
    (name : Bytes) (rest : FilePath) (ev : AggregatedEvent) (events : Map AggregatedEvent)
    (dirs dirs' : Dirs)
    → ((other : Bytes)
        → bytes_equal name other ≡ false
        → lookup_dir other dirs' ≡ lookup_dir other dirs)
    → Extends (name ∷ rest) (event_dir events dirs) (event_dir (insert name ev events) dirs')
unfolding covers
insert-Extends name rest ev events dirs dirs' same = record {
  covered = rw (lookup-insert name name ev events, bytes_equal_refl name) refl;
  kept = λ q. kept_at q;
}
  where
    kept_at :
        (q : FilePath)
        → covers q (event_dir events dirs) ≡ true
        → covers q (event_dir (insert name ev events) dirs') ≡ true
    kept_at [] h = h
    kept_at (n ∷ q) h = elim (Bool-cases (bytes_equal name n)) [
      | inl e ↦ rw (lookup-insert name n ev events, e) refl
      | inr e ↦ rw (lookup-insert name n ev events, e, same n e) h
    ]

already-Grows :
    (name : Bytes) (rest : FilePath) (ev : AggregatedEvent) (e : Incoming)
    (events : Map AggregatedEvent) (dirs : Dirs) (c : EventCounter)
    → Grows (name ∷ rest) (event_dir events dirs) (already name ev e events dirs c)
already-Grows name rest ev e events dirs c =
    insert-Extends name rest (updated_event ev e) events dirs dirs (λ other h. refl)

replacing-Grows :
    (name : Bytes) (rest : FilePath) (e : Incoming) (events : Map AggregatedEvent) (dirs : Dirs)
    (c : EventCounter) (first : Option ℤ) (typ : Option EventType)
    → Grows (name ∷ rest) (event_dir events dirs) (replacing name e events dirs c first typ)
replacing-Grows name rest e events dirs c none typ = tt
replacing-Grows name rest e events dirs c (some first) none = tt
replacing-Grows name rest e events dirs c (some first) (some typ) =
    insert-Extends name rest _ events dirs (erase_dir name dirs)
      (λ other h. lookup-erase_dir name other dirs ∙ rw h refl)

track_last-Grows :
    (i limit : ℕ) (name : Bytes) (rest : FilePath) (e : Incoming) (events : Map AggregatedEvent)
    (dirs : Dirs) (c : EventCounter) (ev : Option AggregatedEvent) (child : Option EventDir)
    → Grows (name ∷ rest) (event_dir events dirs) (track_last i limit name e events dirs c ev child)
track_last-Grows i limit name rest e events dirs c (some ev) child =
    already-Grows name rest ev e events dirs c
track_last-Grows i limit name rest e events dirs c none (some child) =
    replacing-Grows name rest e events dirs c _ _
track_last-Grows i limit name rest e events dirs c none none =
    elim (Bool-cases (length events + dir_count dirs == limit)) [
      | inl h ↦ rw h tt
      | inr h ↦ rw h (insert-Extends name rest _ events dirs dirs (λ other k. refl))
    ]

covers-new : (q : FilePath) → covers q new_event_dir ≡ false
unfolding covers lookup lookup_dir
covers-new [] = refl
covers-new (n ∷ q) = refl

covers-dir_or_new :
    (q : FilePath) (child : Option EventDir)
    → covers_in child (λ d. covers q d) ≡ covers q (dir_or_new child)
covers-dir_or_new q none = sym (covers-new q)
covers-dir_or_new q (some d) = refl

pub or_mono : (a x y : Bool) → (x ≡ true → y ≡ true) → a || x ≡ true → a || y ≡ true
or_mono true x y f h = refl
or_mono false x y f h = f h

grafted-Grows :
    (name : Bytes) (rest : FilePath) (events : Map AggregatedEvent) (dirs : Dirs) (below : Walk)
    → Grows rest (dir_or_new (lookup_dir name dirs)) below
    → Grows (name ∷ rest) (event_dir events dirs) (grafted name events dirs below)
unfolding covers
grafted-Grows name rest events dirs (too_many i) h = tt
grafted-Grows name rest events dirs panics h = tt
grafted-Grows name rest events dirs (tracked d c reset) h = record {
  covered =
      rw (lookup-insert_dir name name d dirs, bytes_equal_refl name, h.covered) (ground arith);
  kept = λ q. kept_at q;
}
  where
    kept_at :
        (q : FilePath)
        → covers q (event_dir events dirs) ≡ true
        → covers q (event_dir events (insert_dir name d dirs)) ≡ true
    kept_at [] k = k
    kept_at (n ∷ q) k = elim (Bool-cases (bytes_equal name n)) [
      | inl e ↦
          rw (lookup-insert_dir name n d dirs, e)
            (or_mono (is_some (lookup n events)) _ (covers q d)
              (λ below. h.kept q (
                subst (λ m. covers q (dir_or_new (lookup_dir m dirs)) ≡ true)
                  (sym (bytes_equal_sound name n e))
                  (sym (covers-dir_or_new q (lookup_dir n dirs)) ∙ below)))
              k)
      | inr e ↦ rw (lookup-insert_dir name n d dirs, e) k
    ]

track_parent-Grows :
    (i limit : ℕ) (name : Bytes) (rest : FilePath) (e : Incoming) (events : Map AggregatedEvent)
    (dirs : Dirs) (c : EventCounter) (ev : Option AggregatedEvent) (below : Walk)
    → Grows rest (dir_or_new (lookup_dir name dirs)) below
    → Grows
        (name ∷ rest)
        (event_dir events dirs)
        (track_parent i limit name e events dirs c ev below)
track_parent-Grows i limit name rest e events dirs c (some ev) below h =
    already-Grows name rest ev e events dirs c
track_parent-Grows i limit name rest e events dirs c none below h =
    elim (Bool-cases (length events + dir_count dirs == limit)) [
      | inl k ↦ rw k tt
      | inr k ↦ rw k (grafted-Grows name rest events dirs below h)
    ]

-- The walk covers the path, and all that the tree covered before.
pub track-Grows :
    (l : Limits) (e : Incoming) (c : EventCounter) (i limit : ℕ) (path : FilePath) (d : EventDir)
    → Grows path d (track l e c i limit path d)
unfolding track
track-Grows l e c i limit [] (event_dir events dirs) = tt
track-Grows l e c i limit (name ∷ []) (event_dir events dirs) =
    track_last-Grows i limit name [] e events dirs c _ _
track-Grows l e c i limit (name ∷ next ∷ rest) (event_dir events dirs) =
    track_parent-Grows i limit name (next ∷ rest) e events dirs c (lookup name events) _ (
      track-Grows l e c (suc i) l.max_files_per_dir (next ∷ rest)
        (dir_or_new (lookup_dir name dirs)))

covers_in_mono :
    (child : Option EventDir) (f g : EventDir → Bool)
    → ((d : EventDir) → f d ≡ true → g d ≡ true)
    → covers_in child f ≡ true
    → covers_in child g ≡ true
covers_in_mono none f g h k = k
covers_in_mono (some d) f g h k = h d k

-- A path below one that is covered is covered.
pub covers-append : (p q : FilePath) (d : EventDir) → covers p d ≡ true → covers (p ++ q) d ≡ true
unfolding covers
covers-append [] q d h = cc
covers-append (name ∷ p) q (event_dir events dirs) h =
    or_mono (is_some (lookup name events)) _ _
      (covers_in_mono (lookup_dir name dirs) _ _ (λ d. covers-append p q d)) h
