-- ===== src/Watch/Steps.antt =====
-- The steps of the aggregator, and what holds of every one that they reach: `mainLoop` of
-- back/lib/watchaggregator/aggregator.go.
use mathlib.Core.Option.{some-injective}
use vaporcito.Base.{
  ℕ, ◌≤◌, List, [], length, some, Bool, true, false, ◌==◌, ◌≡◌, subst, arith, Bool-cases, inl, inr,
}
use vaporcito.Base.Int.{ℤ, pos, ◌==ℤ◌}
use vaporcito.Watch.Tree.{total}
use vaporcito.Watch.Track.{
  FilePath, Limits, Incoming, Aggregator, reset_notify_timer, is_in, scans_all, new_event,
}
use vaporcito.Watch.Timer.{
  pop_old_events, only_delayed, pop_twice, act_on_timer, update_config, new_aggregator,
}
use vaporcito.Watch.Fits.{Fits}
use vaporcito.Watch.Aggregate.{IsBounded, Handled, new_event-Handled}
use vaporcito.Watch.Popping.{pop_dir-Fits}

-- What the main loop does with what it receives: an event, the time, an interval, a configuration.
pub data Step (l : Limits) : Aggregator → Aggregator → Type 0 where
  an_event :
      (e : Incoming) (path : FilePath) (in_progress : List FilePath) (a b : Aggregator)
      → new_event l e path in_progress a ≡ some b
      → Step l a b
  the_timer : (a : Aggregator) (now then_now : ℤ) → Step l a (act_on_timer a now then_now).1
  an_interval : (a : Aggregator) (interval : ℤ) → Step l a (reset_notify_timer a interval)
  a_config : (a : Aggregator) (delay_s : ℕ) → Step l a (update_config a delay_s)

pub data Reaches (l : Limits) : Aggregator → Type 0 where
  started : (delay_s : ℕ) → Reaches l (new_aggregator delay_s)
  then_a : (a b : Aggregator) → Reaches l a → Step l a b → Reaches l b

new_event-IsBounded :
    (l : Limits) (e : Incoming) (path : FilePath) (in_progress : List FilePath) (a b : Aggregator)
    → 1 ≤ l.max_files
    → IsBounded l a
    → new_event l e path in_progress a ≡ some b
    → IsBounded l b
unfolding new_event
new_event-IsBounded l e path in_progress a b one h k = elim (Bool-cases (is_in path in_progress)) [
  | inl z ↦ elim (Bool-cases (scans_all a)) [
    | inl s ↦ subst (IsBounded l) (some-injective a b (rw s at k)) h
    | inr s ↦ subst (IsBounded l) (some-injective a b (rw (s, z) at k)) h
  ]
  | inr z ↦ (subst (Handled l path a) k (new_event-Handled l e path in_progress a one z h)).bounded
]

pop_old_events-IsBounded :
    (l : Limits) (a : Aggregator) (now : ℤ) (delay_rem : Bool)
    → IsBounded l a
    → IsBounded l (pop_old_events a now delay_rem).1
unfolding pop_old_events
pop_old_events-IsBounded l a now delay_rem h = pop_dir-Fits _ [] _ _ a.root h

pop_twice-IsBounded :
    (l : Limits) (a : Aggregator) (now then_now : ℤ)
    → IsBounded l a
    → IsBounded l (pop_twice a now then_now).1
unfolding pop_twice
pop_twice-IsBounded l a now then_now h =
    let once = pop_old_events-IsBounded l a now true h in
    elim (Bool-cases (only_delayed (pop_old_events a now true).1)) [
      | inl z ↦ rw z (pop_old_events-IsBounded l (pop_old_events a now true).1 then_now false once)
      | inr z ↦ rw z once
    ]

act_on_timer-IsBounded :
    (l : Limits) (a : Aggregator) (now then_now : ℤ)
    → IsBounded l a
    → IsBounded l (act_on_timer a now then_now).1
unfolding act_on_timer reset_notify_timer
act_on_timer-IsBounded l a now then_now h =
    let popped = pop_twice-IsBounded l a now then_now h in
    elim (Bool-cases (total a.counts ==ℤ pos 0)) [
      | inl z ↦ rw z h
      | inr z ↦ elim (Bool-cases (length (pop_twice a now then_now).0 == 0)) [
        | inl k ↦ rw (z, k) popped
        | inr k ↦ rw (z, k) popped
      ]
    ]

Step-IsBounded :
    (l : Limits) (a b : Aggregator) → 1 ≤ l.max_files → Step l a b → IsBounded l a → IsBounded l b
unfolding reset_notify_timer update_config
Step-IsBounded l _ _ one (Step.an_event e path ip a b k) h =
    new_event-IsBounded l e path ip a b one h k
Step-IsBounded l _ _ one (Step.the_timer a now then_now) h =
    act_on_timer-IsBounded l a now then_now h
Step-IsBounded l _ _ one (Step.an_interval a interval) h = h
Step-IsBounded l _ _ one (Step.a_config a delay_s) h = h

-- If the root may have a child, then every aggregator that the main loop reaches is within its
-- bounds: the root has no more children than its limit, every directory below no more than the
-- limit of directories, and no directory below is empty.
pub Reaches-IsBounded :
    (l : Limits) (a : Aggregator) → 1 ≤ l.max_files → Reaches l a → IsBounded l a
unfolding new_aggregator update_config
Reaches-IsBounded l _ one (Reaches.started delay_s) = unfold Fits in (omega arith, tt)
Reaches-IsBounded l _ one (Reaches.then_a a b r s) =
    Step-IsBounded l a b one s (Reaches-IsBounded l a one r)

-- If the root may have a child, then the main loop does not panic at an event that no pull caused,
-- and no event is lost: afterwards its path is covered, and every path that was covered before.
pub Reaches-new_event :
    (l : Limits) (e : Incoming) (path : FilePath) (in_progress : List FilePath) (a : Aggregator)
    → 1 ≤ l.max_files
    → is_in path in_progress ≡ false
    → Reaches l a
    → Handled l path a (new_event l e path in_progress a)
Reaches-new_event l e path in_progress a one out r =
    new_event-Handled l e path in_progress a one out (Reaches-IsBounded l a one r)
