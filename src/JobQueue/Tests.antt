-- ===== src/JobQueue/Tests.antt =====
-- The job queue at concrete inputs.
use vaporcito.Base.{ℕ, ◌+◌, ◌^◌, some, none, ◌≡◌, refl, [], ◌∷◌, ◌++◌, List, arith, if◌then◌else◌}
use vaporcito.Base.Int.{pos, ◌+ℤ◌, ◌-ℤ◌, ◌*ℤ◌}
use vaporcito.Base.Bytes.{Bytes, codes, bytes_equal}
use vaporcito.JobQueue.{JobQueue, JobQueueEntry, names, jobs, bring_to_front, Sorter}
use vaporcito.JobQueue.Paging.{Shows, jobs_lem}
use vaporcito.JobQueue.Order.{pushes, pops, run, run_in_order, bring_to_front-Brought, Brought}
use vaporcito.JobQueue.Sorting.{Ordered, Less, Sorts, Asymmetric}

abbrev entry : Bytes → ℕ → JobQueueEntry
entry name size = record { name = name; size = pos size; modified = pos 100 }

abbrev busy : JobQueue
busy = record {
  progress = codes "a" ∷ codes "b" ∷ [];
  queued = entry (codes "c") 30 ∷ entry (codes "d") 10 ∷ entry (codes "e") 20 ∷ [];
}

-- The second page of two files each.
second_page :
    jobs busy (pos 2) (pos 2)
    ≡ some (record { progress = []; queued = codes "c" ∷ codes "d" ∷ []; skipped = pos 2 })
unfolding jobs ◌+ℤ◌ ◌-ℤ◌ ◌*ℤ◌
second_page = refl

-- The product wraps to a negative number, and the slice panics.
wrapped_panics : jobs busy (pos (2 ^ 47 + 1)) (pos 65536) ≡ none
unfolding jobs ◌+ℤ◌ ◌-ℤ◌ ◌*ℤ◌
wrapped_panics = refl

-- The product wraps to zero.
wrapped_first : jobs busy (pos (2 ^ 48 + 1)) (pos 65536) ≡ jobs busy (pos 1) (pos 65536)
unfolding jobs ◌+ℤ◌ ◌-ℤ◌ ◌*ℤ◌
wrapped_first = refl

brought : names (bring_to_front busy (codes "e")).queued ≡ codes "e" ∷ codes "c" ∷ codes "d" ∷ []
unfolding bring_to_front bytes_equal
brought = refl

jobs_lem_example : Shows busy 2 2 (jobs busy (pos 2) (pos 2))
jobs_lem_example = jobs_lem busy 2 2 (omega arith) (omega arith) (omega arith)

run_in_order_example :
    (run busy (pops ∷ pushes (codes "f") (pos 1) (pos 2) ∷ [])).1
      ++ names (run busy (pops ∷ pushes (codes "f") (pos 1) (pos 2) ∷ [])).0.queued
    ≡ codes "c" ∷ codes "d" ∷ codes "e" ∷ codes "f" ∷ []
run_in_order_example = run_in_order busy (pops ∷ pushes (codes "f") (pos 1) (pos 2) ∷ [])

bring_to_front-Brought_example :
    Brought (codes "e") busy.queued (bring_to_front busy (codes "e")).queued
bring_to_front-Brought_example = bring_to_front-Brought busy (codes "e")

-- Insertion sort.
put_in : Less → JobQueueEntry → List JobQueueEntry → List JobQueueEntry
put_in less x [] = x ∷ []
put_in less x (y ∷ es) = if less y x then y ∷ put_in less x es else x ∷ y ∷ es

insertion_sort : Sorter
unfolding put_in
insertion_sort less [] = []
insertion_sort less (x ∷ es) = put_in less x (insertion_sort less es)

put_in-Ordered :
    (less : Less) (x : JobQueueEntry) (es : List JobQueueEntry)
    → Asymmetric less
    → Ordered less es
    → Ordered less (put_in less x es)
unfolding put_in
put_in-Ordered less x [] asym h = tt
put_in-Ordered less x (y ∷ []) asym h = ground (arith, asym y x)
put_in-Ordered less x (y ∷ z ∷ es) asym h =
    ground (arith, asym y x, put_in-Ordered less x (z ∷ es) asym h.1)

insertion_sort-Sorts : Sorts insertion_sort
unfolding insertion_sort
insertion_sort-Sorts less [] asym = tt
insertion_sort-Sorts less (x ∷ es) asym =
    put_in-Ordered less x (insertion_sort less es) asym (insertion_sort-Sorts less es asym)
