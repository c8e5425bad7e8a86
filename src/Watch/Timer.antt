-- ===== src/Watch/Timer.antt =====
-- What the timer schedules: `popOldEventsTo`, `isOld`, `actOnTimer` and `notify` of
-- back/lib/watchaggregator/aggregator.go. Times and durations are nanoseconds and stay within int64;
-- the loops over maps go by the order of the lists.
use vaporcito.Base.{
  ℕ, ◌+◌, ◌*◌, ◌/◌, List, [], ◌∷◌, ◌++◌, Bool, true, false, ◌&&◌, ◌||◌, not, length, ltb, ◌==◌,
  if◌then◌else◌,
}
use vaporcito.Base.Int.{ℤ, pos, negsuc, ◌-ℤ◌, ◌*ℤ◌, ltb_ℤ, ◌==ℤ◌}
use vaporcito.Base.Bytes.{Bytes, bytes_equal}
use vaporcito.Base.Maps.{Map}
use vaporcito.Watch.Tree.{
  EventType, same_type, AggregatedEvent, EventDir, event_dir, Dirs, no_dirs, with_dir,
  new_event_dir, child_count, EventCounter, no_counts, add, total,
}
use vaporcito.Watch.Track.{FilePath, Aggregator, reset_notify_timer, dot}

-- `filepath.Join` of a directory and an entry.
abbrev pub join : FilePath → Bytes → FilePath
join path name = if bytes_equal name dot then path else path ++ name ∷ []

unfoldable pub is_old : Aggregator → ℤ → Bool → AggregatedEvent → Bool
is_old a curr_time delay_rem ev =
    ((not delay_rem || same_type ev.ev_type EventType.non_remove)
      && ltb_ℤ a.notify_delay (pos 2 *ℤ (curr_time -ℤ ev.last_mod)))
    || ltb_ℤ a.notify_timeout (curr_time -ℤ ev.first_mod)

abbrev pub Scheduled : Type 0
Scheduled = List (FilePath × AggregatedEvent)

-- The events of a directory that are old, and those that stay.
unfoldable pub pop_events :
    (AggregatedEvent → Bool) → FilePath → Map AggregatedEvent → Scheduled × Map AggregatedEvent
pop_events old path [] = ([], [])
pop_events old path ((name, ev) ∷ events) =
    let rest = pop_events old path events in
    if old ev then ((join path name, ev) ∷ rest.0, rest.1) else (rest.0, (name, ev) ∷ rest.1)

-- A directory that is left empty goes.
abbrev pub unless_empty : Bytes → EventDir → Dirs → Dirs
unless_empty name d ds = if child_count d == 0 then ds else with_dir name d ds

unfoldable mutual
  pub pop_dir : (AggregatedEvent → Bool) → FilePath → EventDir → Scheduled × EventDir
  pop_dir old path (event_dir events dirs) =
      let below = pop_dirs old path dirs in
      let here = pop_events old path events in (below.0 ++ here.0, event_dir here.1 below.1)

  pub pop_dirs : (AggregatedEvent → Bool) → FilePath → Dirs → Scheduled × Dirs
  pop_dirs old path no_dirs = ([], no_dirs)
  pop_dirs old path (with_dir name d ds) =
      let below = pop_dir old (join path name) d in
      let rest = pop_dirs old path ds in (below.0 ++ rest.0, unless_empty name below.1 rest.1)

unfoldable pub uncount : EventCounter → Scheduled → EventCounter
uncount c [] = c
uncount c ((path, ev) ∷ to) = uncount (add c ev.ev_type (negsuc 0)) to

-- `popOldEventsTo` from the root.
unfoldable pub pop_old_events : Aggregator → ℤ → Bool → Scheduled × Aggregator
pop_old_events a curr_time delay_rem =
    let popped = pop_dir (is_old a curr_time delay_rem) [] a.root in
    (popped.0, record a { root = popped.1; counts = uncount a.counts popped.0 })

-- Only removals remain, and they are delayed.
abbrev pub only_delayed : Aggregator → Bool
only_delayed a =
    not (a.notify_delay ==ℤ a.notify_timeout)
    && (a.counts.non_removes ==ℤ pos 0)
    && not (a.counts.removes ==ℤ pos 0)

-- The events that are popped at one time, and at a later one without the delay if it is needless.
unfoldable pub pop_twice : Aggregator → ℤ → ℤ → Scheduled × Aggregator
pop_twice a now then_now =
    let once = pop_old_events a now true in
    let again = pop_old_events once.1 then_now false in
    if only_delayed once.1 then (once.0 ++ again.0, again.1) else once

-- The events to notify of, if any, and the aggregator after it.
unfoldable pub act_on_timer : Aggregator → ℤ → ℤ → Scheduled × Aggregator
act_on_timer a now then_now =
    let popped = pop_twice a now then_now in
    if total a.counts ==ℤ pos 0
    then ([], record a { needs_reset = true })
    else if length popped.0 == 0
    then ([], reset_notify_timer popped.1 popped.1.notify_delay)
    else popped

-- The paths of one type.
unfoldable pub batch : EventType → Scheduled → List FilePath
batch typ [] = []
batch typ ((path, ev) ∷ to) =
    let rest = batch typ to in if same_type ev.ev_type typ then path ∷ rest else rest

abbrev pub unless_none : List FilePath → List (List FilePath) → List (List FilePath)
unless_none [] rest = rest
unless_none (p ∷ ps) rest = (p ∷ ps) ∷ rest

-- What `notify` sends, in this order; removals come last.
unfoldable pub batches : Scheduled → List (List FilePath)
batches to =
    unless_none (batch EventType.non_remove to)
      (unless_none (batch EventType.mixed to) (unless_none (batch EventType.remove to) []))

-- The delay after a notification, from the duration that it took.
unfoldable pub next_delay : ℕ → ℕ → ℤ
next_delay notify_delay duration =
    if ltb duration (notify_delay / 10)
    then pos notify_delay
    else if ltb notify_delay (duration + 1000000)
    then pos 1000000
    else pos notify_delay -ℤ pos duration

-- `notifyTimeout` for a whole number of seconds.
unfoldable pub notify_timeout : ℕ → ℤ
notify_timeout event_delay_s =
    if ltb event_delay_s 10
    then pos (event_delay_s * 6 * 1000000000)
    else if ltb event_delay_s 60
    then pos 60000000000
    else pos (event_delay_s * 1000000000)

unfoldable pub update_config : Aggregator → ℕ → Aggregator
update_config a delay_s = record a {
  notify_delay = pos (delay_s * 1000000000);
  notify_timeout = notify_timeout delay_s;
}

unfoldable pub new_aggregator : ℕ → Aggregator
new_aggregator delay_s =
    update_config
      (record {
        root = new_event_dir;
        counts = no_counts;
        notify_delay = pos 0;
        notify_timeout = pos 0;
        needs_reset = false;
        timer = pos 0;
      })
      delay_s
