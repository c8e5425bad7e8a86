-- ===== src/Watch/Track.antt =====
-- Taking an event into the tree: `aggregateEvent` and `newEvent` of
-- back/lib/watchaggregator/aggregator.go.
use vaporcito.Base.{
  ℕ, zero, suc, ◌+◌, List, [], ◌∷◌, Bool, true, false, ◌&&◌, ◌||◌, Option, none, some, length, take,
  ◌==◌, if◌then◌else◌,
}
use vaporcito.Base.Int.{ℤ, pos, negsuc, ◌==ℤ◌}
use vaporcito.Base.Bytes.{Bytes, bytes_equal}
use vaporcito.Base.Maps.{Map, lookup, insert}
use vaporcito.Watch.Tree.{
  EventType, merge, same_type, AggregatedEvent, EventDir, event_dir, Dirs, no_dirs, new_event_dir,
  child_count, events_of, dir_count, lookup_dir, insert_dir, erase_dir, first_mod_time, event_type,
  EventCounter, no_counts, add, total,
}

abbrev pub FilePath : Type 0
FilePath = List Bytes

-- How many children a directory and the root may have.
pub record Limits : Type 0 where
  pub max_files : ℕ
  pub max_files_per_dir : ℕ

-- An event with its time, and the current time at which it is handled.
pub record Incoming : Type 0 where
  pub typ : EventType
  pub ev_time : ℤ
  pub now : ℤ

-- How the walk along a path ends: with the tree and counts after it and whether the timer is looked
-- at, with the number of segments of the directory to track instead, or with a panic.
pub data Walk : Type 0 where
  tracked : EventDir → EventCounter → Bool → Walk
  too_many : ℕ → Walk
  panics : Walk

-- An event that is there already takes in the new one.
abbrev pub updated_event : AggregatedEvent → Incoming → AggregatedEvent
updated_event ev e = record ev { last_mod = e.ev_time; ev_type = merge e.typ ev.ev_type }

abbrev pub recount : EventCounter → AggregatedEvent → Incoming → EventCounter
recount c ev e =
    let merged = merge e.typ ev.ev_type in
    if same_type ev.ev_type merged then c else add (add c ev.ev_type (negsuc 0)) merged (pos 1)

abbrev pub already :
    Bytes → AggregatedEvent → Incoming → Map AggregatedEvent → Dirs → EventCounter → Walk
already name ev e events dirs c =
    tracked (event_dir (insert name (updated_event ev e) events) dirs) (recount c ev e) false

-- A new event in the place of a directory, whose first time and type it takes over.
abbrev pub replacing :
    Bytes
    → Incoming
    → Map AggregatedEvent
    → Dirs
    → EventCounter
    → Option ℤ
    → Option EventType
    → Walk
replacing name e events dirs c none typ = panics
replacing name e events dirs c (some first) none = panics
replacing name e events dirs c (some first) (some typ) =
    let merged = merge e.typ typ in
    let c' = if same_type e.typ merged then c else add c e.typ (negsuc 0) in
    tracked
      (event_dir
        (insert name (record { first_mod = first; last_mod = e.ev_time; ev_type = merged }) events)
        (erase_dir name dirs))
      (add c' merged (pos 1)) true

-- The last segment, at a depth: the event of its name, if there is one, and the directory of its name.
abbrev pub track_last :
    ℕ
    → ℕ
    → Bytes
    → Incoming
    → Map AggregatedEvent
    → Dirs
    → EventCounter
    → Option AggregatedEvent
    → Option EventDir
    → Walk
track_last i limit name e events dirs c (some ev) child = already name ev e events dirs c
track_last i limit name e events dirs c none none =
    if length events + dir_count dirs == limit
    then too_many i
    else tracked
        (event_dir
          (insert name (record { first_mod = e.ev_time; last_mod = e.ev_time; ev_type = e.typ })
            events)
          dirs)
        (add c e.typ (pos 1)) true
track_last i limit name e events dirs c none (some child) =
    replacing name e events dirs c (first_mod_time e.now child) (event_type child)

abbrev pub dir_or_new : Option EventDir → EventDir
dir_or_new none = new_event_dir
dir_or_new (some d) = d

-- The walk below a directory puts the new child into it.
abbrev pub grafted : Bytes → Map AggregatedEvent → Dirs → Walk → Walk
grafted name events dirs (tracked d c reset) =
    tracked (event_dir events (insert_dir name d dirs)) c reset
grafted name events dirs (too_many j) = too_many j
grafted name events dirs panics = panics

-- A segment before the last one: the event of its name, if there is one, and the walk below it.
abbrev pub track_parent :
    ℕ
    → ℕ
    → Bytes
    → Incoming
    → Map AggregatedEvent
    → Dirs
    → EventCounter
    → Option AggregatedEvent
    → Walk
    → Walk
track_parent i limit name e events dirs c (some ev) below = already name ev e events dirs c
track_parent i limit name e events dirs c none below =
    if length events + dir_count dirs == limit then too_many i else grafted name events dirs below

-- The walk from a directory at a depth, which may have so many children, along the rest of the path.
unfoldable pub track : Limits → Incoming → EventCounter → ℕ → ℕ → FilePath → EventDir → Walk
track l e c i limit [] (event_dir events dirs) = panics
track l e c i limit (name ∷ []) (event_dir events dirs) =
    track_last i limit name e events dirs c (lookup name events) (lookup_dir name dirs)
track l e c i limit (name ∷ next ∷ rest) (event_dir events dirs) =
    track_parent i limit name e events dirs c (lookup name events)
      (track l e c (suc i) l.max_files_per_dir (next ∷ rest) (dir_or_new (lookup_dir name dirs)))

-- The part of the aggregator that events change: the counts are of the events in the tree, and the
-- timer has the duration of its last reset.
pub record Aggregator : Type 0 where
  pub root : EventDir
  pub counts : EventCounter
  pub notify_delay : ℤ
  pub notify_timeout : ℤ
  pub needs_reset : Bool
  pub timer : ℤ

unfoldable pub reset_notify_timer : Aggregator → ℤ → Aggregator
reset_notify_timer a duration = record a { needs_reset = false; timer = duration }

unfoldable pub reset_notify_timer_if_needed : Aggregator → Aggregator
reset_notify_timer_if_needed a = if a.needs_reset then reset_notify_timer a a.notify_delay else a

-- The name of the event for the whole folder.
abbrev pub dot : Bytes
dot = 46 ∷ []

-- The whole folder in place of all that is tracked, with its first time and its type so far.
abbrev pub whole_folder : Aggregator → Incoming → Option ℤ → Option EventType → Option Aggregator
whole_folder a e none typ = none
whole_folder a e (some first) none = none
whole_folder a e (some first) (some typ) = some (
    reset_notify_timer_if_needed (record a {
      root =
          event_dir
            ((dot, record { first_mod = first; last_mod = e.ev_time; ev_type = merge e.typ typ })
              ∷ [])
            no_dirs;
      counts = add no_counts (merge e.typ typ) (pos 1);
    }))

unfoldable pub scan_entire_folder : Aggregator → Incoming → Option Aggregator
scan_entire_folder a e =
    if child_count a.root == 0
    then whole_folder a e (some e.ev_time) (some EventType.unset)
    else whole_folder a e (first_mod_time e.now a.root) (event_type a.root)

-- The end of a walk; a directory that has too many children is aggregated by another call.
abbrev pub after_walk : Aggregator → Walk → (ℕ → Option Aggregator) → Option Aggregator
after_walk a (tracked root c true) again =
    some (reset_notify_timer_if_needed (record a { root = root; counts = c }))
after_walk a (tracked root c false) again = some (record a { root = root; counts = c })
after_walk a (too_many i) again = again i
after_walk a panics again = none

-- The calls that are left; each one has a shorter path than the one before.
unfoldable pub aggregate_loop : ℕ → Limits → Incoming → FilePath → Aggregator → Option Aggregator
aggregate_loop zero l e path a = none
aggregate_loop (suc n) l e [] a = scan_entire_folder a e
aggregate_loop (suc n) l e (name ∷ rest) a =
    if total a.counts ==ℤ pos l.max_files
    then scan_entire_folder a e
    else after_walk a (track l e a.counts 0 l.max_files (name ∷ rest) a.root)
        λ i. aggregate_loop n l e (take i (name ∷ rest)) a

unfoldable pub aggregate_event : Limits → Incoming → FilePath → Aggregator → Option Aggregator
aggregate_event l e path a = aggregate_loop (suc (length path)) l e path a

abbrev pub path_equal : FilePath → FilePath → Bool
path_equal [] [] = true
path_equal (x ∷ p) (y ∷ q) = bytes_equal x y && path_equal p q
path_equal _ _ = false

abbrev pub is_in : FilePath → List FilePath → Bool
is_in path [] = false
is_in path (p ∷ ps) = path_equal p path || is_in path ps

abbrev pub is_some {ℓ} : {A : Type ℓ} → Option A → Bool
is_some none = false
is_some (some a) = true

abbrev pub item_started : FilePath → List FilePath → List FilePath
item_started path in_progress = if is_in path in_progress then in_progress else path ∷ in_progress

abbrev pub item_finished : FilePath → List FilePath → List FilePath
item_finished path [] = []
item_finished path (p ∷ ps) =
    let rest = item_finished path ps in if path_equal p path then rest else p ∷ rest

-- What an event of another part does to the paths that are being pulled: a start, an end or none.
pub data ItemEvent : Type 0 where
  started : FilePath → ItemEvent
  finished : FilePath → ItemEvent
  other : ItemEvent

abbrev pub update_in_progress_set : ItemEvent → List FilePath → List FilePath
update_in_progress_set (started path) in_progress = item_started path in_progress
update_in_progress_set (finished path) in_progress = item_finished path in_progress
update_in_progress_set other in_progress = in_progress

-- The root has the event for the whole folder.
abbrev pub scans_all : Aggregator → Bool
scans_all a = is_some (lookup dot (events_of a.root))

unfoldable pub new_event :
    Limits → Incoming → FilePath → List FilePath → Aggregator → Option Aggregator
new_event l e path in_progress a =
    if scans_all a
    then some a
    else if is_in path in_progress
    then some a
    else aggregate_event l e path a
