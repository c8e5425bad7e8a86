-- ===== src/Watch/Tests.antt =====
-- Runs of the watch aggregator, and the properties at concrete inputs.
use mathlib.Core.List.{Perm}
use vaporcito.Base.{List, [], ◌∷◌, Option, none, some, true, ◌≡◌, refl, arith}
use vaporcito.Base.Int.{pos, ◌+ℤ◌, ◌-ℤ◌, ◌*ℤ◌}
use vaporcito.Base.Bytes.{Bytes, bytes_equal}
use vaporcito.Base.Maps.{lookup, insert}
use vaporcito.Watch.Tree.{
  EventType, event_dir, no_dirs, new_event_dir, lookup_dir, insert_dir, erase_dir, first_of_events,
  type_of_events, first_mod_time, event_type, add, total,
}
use vaporcito.Watch.Track.{
  FilePath, Limits, Incoming, track, Aggregator, reset_notify_timer, reset_notify_timer_if_needed,
  scan_entire_folder, aggregate_loop, aggregate_event, new_event,
}
use vaporcito.Watch.Timer.{
  is_old, Scheduled, pop_events, pop_dir, uncount, pop_old_events, batch, batches, notify_timeout,
  update_config, new_aggregator,
}
use vaporcito.Watch.Aggregate.{IsBounded, Handled, aggregate_event-Handled}
use vaporcito.Watch.Popping.{all_events, those, Splits, pop_old_events-Splits}
use vaporcito.Watch.Batches.{sent, sent-batches-Perm}
use vaporcito.Watch.Steps.{Step, Reaches, Reaches-IsBounded, Reaches-new_event}

abbrev limits : Limits
limits = record { max_files = 3; max_files_per_dir = 2 }

abbrev dir_name : Bytes
dir_name = 100 ∷ []

abbrev child : List Bytes → FilePath
child rest = dir_name ∷ rest

abbrev changed : EventType → Incoming
changed typ = record { typ = typ; ev_time = pos 5; now = pos 5 }

-- An optional aggregator, or the empty one.
abbrev or_new : Option Aggregator → Aggregator
or_new none = new_aggregator 10
or_new (some a) = a

abbrev see : EventType → FilePath → Aggregator → Aggregator
see typ path a = or_new (new_event limits (changed typ) path [] a)

-- Two files of a directory.
abbrev two_files : Aggregator
two_files =
    see EventType.non_remove (child ((98 ∷ []) ∷ []))
      (see EventType.non_remove (child ((97 ∷ []) ∷ [])) (new_aggregator 10))

-- A third one, so that the directory is tracked.
abbrev one_dir : Aggregator
one_dir = see EventType.non_remove (child ((99 ∷ []) ∷ [])) two_files

two_files-Reaches : Reaches limits two_files
unfolding new_event aggregate_event aggregate_loop track lookup insert lookup_dir insert_dir
    erase_dir bytes_equal first_mod_time event_type first_of_events type_of_events add total ◌+ℤ◌
    ◌*ℤ◌ reset_notify_timer_if_needed reset_notify_timer new_aggregator update_config notify_timeout
    scan_entire_folder
two_files-Reaches =
    Reaches.then_a _ _
      (Reaches.then_a _ _ (Reaches.started 10)
        (Step.an_event (changed EventType.non_remove) (child ((97 ∷ []) ∷ [])) [] _ _ refl))
      (Step.an_event (changed EventType.non_remove) (child ((98 ∷ []) ∷ [])) [] _ _ refl)

two_files-IsBounded : IsBounded limits two_files
two_files-IsBounded = Reaches-IsBounded limits two_files (omega arith) two_files-Reaches

Reaches-IsBounded_example : IsBounded limits two_files
Reaches-IsBounded_example = Reaches-IsBounded limits two_files (omega arith) two_files-Reaches

Reaches-new_event_example :
    Handled limits
      (child ((99 ∷ []) ∷ []))
      two_files
      (new_event limits (changed EventType.remove) (child ((99 ∷ []) ∷ [])) [] two_files)
Reaches-new_event_example =
    Reaches-new_event limits (changed EventType.remove) (child ((99 ∷ []) ∷ [])) [] two_files
      (omega arith) refl two_files-Reaches

aggregate_event-Handled_example :
    Handled limits
      (child ((99 ∷ []) ∷ []))
      two_files
      (aggregate_event limits (changed EventType.remove) (child ((99 ∷ []) ∷ [])) two_files)
aggregate_event-Handled_example =
    aggregate_event-Handled limits (changed EventType.remove) (child ((99 ∷ []) ∷ [])) two_files
      (omega arith) two_files-IsBounded

pop_old_events-Splits_example :
    Splits
      (is_old two_files (pos 70000000000) true)
      (all_events [] two_files.root)
      (pop_old_events two_files (pos 70000000000) true).0
      (all_events [] (pop_old_events two_files (pos 70000000000) true).1.root)
    × ((pop_old_events two_files (pos 70000000000) true).1.counts
        ≡ uncount two_files.counts
            (those (is_old two_files (pos 70000000000) true) (all_events [] two_files.root)))
pop_old_events-Splits_example = pop_old_events-Splits two_files (pos 70000000000) true

abbrev removed_and_changed : Scheduled
removed_and_changed =
    (child [], record { first_mod = pos 1; last_mod = pos 2; ev_type = EventType.remove })
    ∷ ([], record { first_mod = pos 1; last_mod = pos 3; ev_type = EventType.mixed })
    ∷ []

sent-batches-Perm_example : Perm (sent (batches removed_and_changed)) (child [] ∷ [] ∷ [])
sent-batches-Perm_example = sent-batches-Perm removed_and_changed (refl, (refl, tt))

-- A directory with too many changes has one event, and the counts have all that it took the place of.
one_dir_run :
    (one_dir.counts.non_removes ≡ pos 3)
    × (one_dir.root
        ≡ event_dir
            ((
              dir_name,
              record { first_mod = pos 5; last_mod = pos 5; ev_type = EventType.non_remove },
            )
              ∷ [])
            no_dirs)
unfolding new_event aggregate_event aggregate_loop track lookup insert lookup_dir insert_dir
    erase_dir bytes_equal first_mod_time event_type first_of_events type_of_events add total ◌+ℤ◌
    ◌*ℤ◌ reset_notify_timer_if_needed reset_notify_timer new_aggregator update_config notify_timeout
    scan_entire_folder
one_dir_run = (refl, refl)

-- Once that event is scheduled, the tree is empty and the counts are not.
drifted_run :
    ((pop_old_events one_dir (pos 70000000000) true).1.counts.non_removes ≡ pos 2)
    × ((pop_old_events one_dir (pos 70000000000) true).1.root ≡ new_event_dir)
unfolding new_event aggregate_event aggregate_loop track lookup insert lookup_dir insert_dir
    erase_dir bytes_equal first_mod_time event_type first_of_events type_of_events add total ◌+ℤ◌
    ◌-ℤ◌ ◌*ℤ◌ reset_notify_timer_if_needed reset_notify_timer new_aggregator update_config
    notify_timeout scan_entire_folder pop_old_events pop_dir pop_events is_old uncount
drifted_run = (refl, refl)

-- Removals come last.
batches_run : batches removed_and_changed ≡ ([] ∷ []) ∷ (child [] ∷ []) ∷ []
unfolding batches batch
batches_run = refl
