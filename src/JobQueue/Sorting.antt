-- ===== src/JobQueue/Sorting.antt =====
-- After a sort the job queue hands out an extreme entry first.
use vaporcito.Base.{◌≡◌, List, [], ◌∷◌, Bool, true, false, arith, All}
use vaporcito.JobQueue.{
  JobQueue, JobQueueEntry, Sorter, smallest_first, oldest_first, reversed, sort_smallest_first,
  sort_largest_first, sort_oldest_first, sort_newest_first,
}

abbrev pub Less : Type 0
Less = JobQueueEntry → JobQueueEntry → Bool

-- No entry is less than the one before it.
abbrev pub Ordered : Less → List JobQueueEntry → Type 0
Ordered less [] = Unit {0}
Ordered less (x ∷ []) = Unit {0}
Ordered less (x ∷ y ∷ es) = (less y x ≡ false) × Ordered less (y ∷ es)

-- No two entries are less than each other.
abbrev pub Asymmetric : Less → Type 0
Asymmetric less = (x y : JobQueueEntry) → less x y ≡ true → less y x ≡ false

-- What `sort.Sort` promises of its result, for an order.
abbrev pub Sorts : Sorter → Type 0
Sorts sort = (less : Less) (es : List JobQueueEntry) → Asymmetric less → Ordered less (sort less es)

-- The first entry is not above any other.
abbrev pub HeadFirst : Less → List JobQueueEntry → Type 0
HeadFirst less [] = Unit {0}
HeadFirst less (x ∷ es) = All (λ y. less y x ≡ false) es

module _ (less : Less)
    (chain : (x y z : JobQueueEntry) → less y x ≡ false → less z y ≡ false → less z x ≡ false) where
  below-All :
      (x y : JobQueueEntry) (es : List JobQueueEntry)
      → less y x ≡ false
      → All (λ z. less z y ≡ false) es
      → All (λ z. less z x ≡ false) es
  below-All x y [] h k = tt
  below-All x y (z ∷ es) h k = (chain x y z h k.0, below-All x y es h k.1)

  Ordered-HeadFirst : (es : List JobQueueEntry) → Ordered less es → HeadFirst less es
  Ordered-HeadFirst [] h = tt
  Ordered-HeadFirst (x ∷ []) h = tt
  Ordered-HeadFirst (x ∷ y ∷ es) h = (h.0, below-All x y es h.0 (Ordered-HeadFirst (y ∷ es) h.1))

-- After each of the four sorts, the entry that is handed out next is an extreme one: none is
-- smaller, larger, older or newer, provided that the sorting routine orders its
-- result under every asymmetric order.
pub sort-HeadFirst :
    (sort : Sorter) (q : JobQueue)
    → Sorts sort
    → HeadFirst smallest_first (sort_smallest_first sort q).queued
      × HeadFirst (λ a b. smallest_first b a) (sort_largest_first sort q).queued
      × HeadFirst oldest_first (sort_oldest_first sort q).queued
      × HeadFirst (λ a b. oldest_first b a) (sort_newest_first sort q).queued
unfolding sort_smallest_first sort_largest_first sort_oldest_first sort_newest_first
sort-HeadFirst sort q sorts = (
  Ordered-HeadFirst smallest_first (λ x y z h k. ground arith) _
      (sorts smallest_first q.queued (λ x y h. ground arith)),
  Ordered-HeadFirst (reversed smallest_first) (λ x y z h k. ground arith) _
      (sorts (reversed smallest_first) q.queued (λ x y h. ground arith)),
  Ordered-HeadFirst oldest_first (λ x y z h k. ground arith) _
      (sorts oldest_first q.queued (λ x y h. ground arith)),
  Ordered-HeadFirst (reversed oldest_first) (λ x y z h k. ground arith) _
      (sorts (reversed oldest_first) q.queued (λ x y h. ground arith)),
)
