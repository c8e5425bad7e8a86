-- ===== src/JobQueue.antt =====
-- The queue of files to pull: back/lib/model/queue.go. A method runs under the queue's mutex, so it
-- is one function of the state. Sizes and times are int64.
pub mod Paging
pub mod Order
pub mod Sorting
mod Tests
use vaporcito.Base.{
  ℕ, zero, suc, ◌+◌, ◌-◌, ◌*◌, List, [], ◌∷◌, ◌++◌, map, Bool, true, false, Option, none, some,
  length, take, drop, ltb, leb, not, ◌&&◌, if◌then◌else◌,
}
use vaporcito.Base.Int.{ℤ, pos, negsuc, pos_part, ltb_ℤ, ◌+ℤ◌, ◌-ℤ◌, ◌*ℤ◌, wrap_int64, mod_int64}
use vaporcito.Base.Bytes.{Bytes, bytes_equal}

pub record JobQueueEntry : Type 0 where
  pub name : Bytes
  pub size : ℤ
  pub modified : ℤ

pub record JobQueue : Type 0 where
  pub progress : List Bytes
  pub queued : List JobQueueEntry

unfoldable pub new_job_queue : JobQueue
new_job_queue = record { progress = []; queued = [] }

unfoldable pub push : JobQueue → Bytes → ℤ → ℤ → JobQueue
push q file size modified = record q {
  queued = q.queued ++ record { name = file; size = size; modified = modified } ∷ [];
}

abbrev pub pop_from : List Bytes → List JobQueueEntry → JobQueue × Option Bytes
pop_from progress [] = (record { progress = progress; queued = [] }, none)
pop_from progress (e ∷ rest) =
    (record { progress = progress ++ e.name ∷ []; queued = rest }, some e.name)

unfoldable pub pop : JobQueue → JobQueue × Option Bytes
pop q = pop_from q.progress q.queued

-- `before` holds what the loop has passed, so its length is the index.
pub bring_loop : List JobQueueEntry → List JobQueueEntry → Bytes → List JobQueueEntry
bring_loop before [] filename = before
bring_loop before (cur ∷ rest) filename =
    let on = bring_loop (before ++ cur ∷ []) rest filename in
    if bytes_equal cur.name filename
    then (if ltb 0 (length before) then cur ∷ (before ++ rest) else before ++ cur ∷ rest)
    else on

unfoldable pub bring_to_front : JobQueue → Bytes → JobQueue
unfolding bring_loop
bring_to_front q filename = record q { queued = bring_loop [] q.queued filename }

pub done_loop : List Bytes → Bytes → List Bytes
done_loop [] file = []
done_loop (p ∷ ps) file = if bytes_equal p file then ps else p ∷ done_loop ps file

unfoldable pub done : JobQueue → Bytes → JobQueue
unfolding done_loop
done q file = record q { progress = done_loop q.progress file }

abbrev pub names : List JobQueueEntry → List Bytes
names = map (λ e. e.name)

pub record Jobs : Type 0 where
  pub progress : List Bytes
  pub queued : List Bytes
  pub skipped : ℤ

-- What the page shows of the queue: `queued[i] = q.queued[i+toSkip].name` for each i below the count.
abbrev pub queued_page : List JobQueueEntry → ℕ → ℕ → List Bytes
queued_page queue to_skip count = take count (names (drop to_skip queue))

-- `xs[low:high]`; a bound that is out of range is a panic.
abbrev pub slice : List Bytes → ℤ → ℤ → Option (List Bytes)
slice xs (pos low) (pos high) =
    if leb low high && leb high (length xs) then some (take (high - low) (drop low xs)) else none
slice xs _ _ = none

abbrev pub only_progress : ℤ → Option (List Bytes) → Option Jobs
only_progress to_skip none = none
only_progress to_skip (some shown) =
    some (record { progress = shown; queued = []; skipped = to_skip })

-- So many queued files; a negative length is a panic.
abbrev pub add_queued : JobQueue → ℤ → List Bytes → ℕ → ℤ → Option Jobs
add_queued q to_skip shown skip (negsuc n) = none
add_queued q to_skip shown skip (pos n) =
    some (record { progress = shown; queued = queued_page q.queued skip n; skipped = to_skip })

abbrev pub with_queued : JobQueue → ℤ → ℤ → ℕ → Option (List Bytes) → Option Jobs
with_queued q to_skip perpage skip none = none
with_queued q to_skip perpage skip (some shown) =
    let left = pos (length q.queued) -ℤ pos skip in
    let room = perpage -ℤ pos (length shown) in
    add_queued q to_skip shown skip (if ltb_ℤ left room then left else room)

-- A panic is none.
pub jobs_behind : JobQueue → ℤ → ℤ → Option Jobs
jobs_behind q to_skip perpage =
    let plen = length q.progress in
    let tot = pos (plen + length q.queued) in
    let end = wrap_int64 (to_skip +ℤ perpage) in
    if not (ltb_ℤ to_skip tot)
    then some (record { progress = []; queued = []; skipped = tot })
    else if not (ltb_ℤ (pos plen) end)
    then (if ltb_ℤ perpage (pos 0)
        then none
        else only_progress to_skip (slice q.progress to_skip end))
    else if ltb_ℤ to_skip (pos plen)
    then with_queued q to_skip perpage 0 (slice q.progress to_skip (pos plen))
    else with_queued q to_skip perpage (pos_part to_skip - plen) (some [])

unfoldable pub jobs : JobQueue → ℤ → ℤ → Option Jobs
unfolding jobs_behind
jobs q page perpage = jobs_behind q (mod_int64 (wrap_int64 (page -ℤ pos 1) *ℤ perpage)) perpage

-- The permutation that the random generator makes is a parameter.
unfoldable pub shuffle : (List JobQueueEntry → List JobQueueEntry) → JobQueue → JobQueue
shuffle permute q = record q { queued = permute q.queued }

unfoldable pub reset : JobQueue → JobQueue
reset q = record { progress = []; queued = [] }

unfoldable pub len_queued : JobQueue → ℕ
len_queued q = length q.queued

unfoldable pub len_progress : JobQueue → ℕ
len_progress q = length q.progress

abbrev pub smallest_first : JobQueueEntry → JobQueueEntry → Bool
smallest_first a b = ltb_ℤ a.size b.size

abbrev pub oldest_first : JobQueueEntry → JobQueueEntry → Bool
oldest_first a b = ltb_ℤ a.modified b.modified

-- `sort.Reverse`
abbrev pub reversed : (JobQueueEntry → JobQueueEntry → Bool) → JobQueueEntry → JobQueueEntry → Bool
reversed less a b = less b a

-- `sort.Sort` is a parameter: it gets the order and the list.
abbrev pub Sorter : Type 0
Sorter = (JobQueueEntry → JobQueueEntry → Bool) → List JobQueueEntry → List JobQueueEntry

unfoldable pub sort_smallest_first : Sorter → JobQueue → JobQueue
sort_smallest_first sort q = record q { queued = sort smallest_first q.queued }

unfoldable pub sort_largest_first : Sorter → JobQueue → JobQueue
sort_largest_first sort q = record q { queued = sort (reversed smallest_first) q.queued }

unfoldable pub sort_oldest_first : Sorter → JobQueue → JobQueue
sort_oldest_first sort q = record q { queued = sort oldest_first q.queued }

unfoldable pub sort_newest_first : Sorter → JobQueue → JobQueue
sort_newest_first sort q = record q { queued = sort (reversed oldest_first) q.queued }
