-- ===== src/Vector/Tests.antt =====
-- Version vectors at concrete inputs.
use vaporcito.Base.{◌≤◌, ◌≡◌, ◌↔◌, refl, [], ◌∷◌, true, arith}
use vaporcito.Vector.{
  Vector, update_with_now, merge, counter, compare, judge, greater, lesser, concurrent_lesser,
  concurrent_greater, lesser_equal,
}
use vaporcito.Vector.Rounds.{IsSorted}
use vaporcito.Vector.Order.{lesser_equal_iff}
use vaporcito.Vector.Merge.{merge_least}
use vaporcito.Vector.Update.{compare-update}

abbrev older : Vector
older = record { counters = record { id = 2; value = 3 } ∷ record { id = 7; value = 1 } ∷ [] }

abbrev newer : Vector
newer = record { counters = record { id = 2; value = 4 } ∷ record { id = 7; value = 1 } ∷ [] }

-- In conflict with `newer`.
abbrev other : Vector
other = record { counters = record { id = 5; value = 9 } ∷ [] }

-- The same as `older`, with a counter that is zero.
abbrev padded : Vector
padded = record {
  counters =
      record { id = 2; value = 3 }
      ∷ record { id = 4; value = 0 }
      ∷ record { id = 7; value = 1 }
      ∷ [];
}

older-IsSorted : IsSorted older
older-IsSorted = omega arith

newer-IsSorted : IsSorted newer
newer-IsSorted = omega arith

other-IsSorted : IsSorted other
other-IsSorted = omega arith

padded-IsSorted : IsSorted padded
padded-IsSorted = omega arith

older-newer : (compare older newer ≡ lesser) × (compare newer older ≡ greater)
unfolding compare judge
older-newer = (refl, refl)

apart : (compare newer other ≡ concurrent_greater) × (compare other newer ≡ concurrent_lesser)
unfolding compare judge
apart = (refl, refl)

merged : merge newer other ≡ record {
  counters =
      record { id = 2; value = 4 }
      ∷ record { id = 5; value = 9 }
      ∷ record { id = 7; value = 1 }
      ∷ [];
}
unfolding merge
merged = refl

lesser_equal_iff_example : counter older 7 ≤ counter newer 7
unfolding lesser_equal judge
lesser_equal_iff_example = (lesser_equal_iff older newer older-IsSorted newer-IsSorted).0 refl 7

merge_least_example :
    (lesser_equal (merge older other) newer ≡ true)
    ↔ ((lesser_equal older newer ≡ true) × (lesser_equal other newer ≡ true))
merge_least_example = merge_least older other newer older-IsSorted other-IsSorted newer-IsSorted

compare-update_example : compare (update_with_now older 7 0) older ≡ greater
unfolding counter
compare-update_example = compare-update older 7 0 older-IsSorted (omega arith)
