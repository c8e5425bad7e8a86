-- ===== src/Semaphore/Tests.antt =====
-- The semaphore at concrete inputs.
use vaporcito.Base.{◌-◌, ◌<◌, ◌≡◌, refl, [], ◌∷◌, List, false, arith}
use vaporcito.Base.Int.{pos}
use vaporcito.Semaphore.{Semaphore, new, take_inner, taken, give, set_capacity, Wake, Store}
use vaporcito.Semaphore.Invariant.{
  set_capacity_forgets, takes, here, next, Balanced, Reach-Balanced,
}

-- Three of eight are in use.
abbrev in_use : Semaphore
in_use = record { max = 8; available = 5 }

abbrev full : Semaphore
full = record { max = 8; available = 0 }

-- Wakes up to what others have given back.
abbrev wakes : List Wake
wakes = record { sem = full; is_done = false } ∷ record { sem = in_use; is_done = false } ∷ []

waits_and_takes : take_inner false full 4 wakes ≡ taken (record { max = 8; available = 1 }) 4
unfolding take_inner
waits_and_takes = refl

-- Five of eight are in use.
abbrev busy : Semaphore
busy = record { max = 8; available = 3 }

-- Two stay in use, so that two of the four should be available.
set_capacity_forgets_example : 4 - (8 - 3 - 3) < (give (set_capacity busy (pos 4)) 3).available
set_capacity_forgets_example =
    set_capacity_forgets busy 4 3 (omega arith) (omega arith) (omega arith) (omega arith)

set_capacity_run : give (set_capacity busy (pos 4)) 3 ≡ record { max = 4; available = 3 }
unfolding set_capacity give
set_capacity_run = refl

Reach-Balanced_example : Balanced (record { sem = record { max = 8; available = 5 }; held = 3 })
unfolding new take_inner
Reach-Balanced_example = Reach-Balanced (pos 8) (
    next here
      (takes (record { sem = record { max = 8; available = 8 }; held = 0 }) 3 3 in_use refl))

-- Two places of a store, and the second named twice.
abbrev store : Store
store p = in_use
