-- ===== src/Semaphore.antt =====
-- The counting semaphore of back/lib/semaphore/semaphore.go. Every method holds the mutex while it
-- reads and writes the state; sizes are not negative, and sums stay below the range of int.
-- What other goroutines do while `takeInner` waits is an argument: the states that it wakes up to.
pub mod Invariant
pub mod Multi
mod Tests
use vaporcito.Base.{
  ℕ, ◌+◌, ◌-◌, List, [], ◌∷◌, Bool, true, false, Option, none, some, ltb, ◌==◌, if◌then◌else◌,
}
use vaporcito.Base.Int.{ℤ, pos, negsuc}
use mathlib.Core.List.{reverse}

pub record Semaphore : Type 0 where
  pub max : ℕ
  pub available : ℕ

-- A negative capacity counts as zero.
abbrev pub at_least_zero : ℤ → ℕ
at_least_zero (pos n) = n
at_least_zero (negsuc n) = 0

unfoldable pub new : ℤ → Semaphore
new max = record { max = at_least_zero max; available = at_least_zero max }

abbrev pub clip : ℕ → ℕ → ℕ
clip max size = if ltb max size then max else size

-- How a call of `takeInner` ends: with what it took of the semaphore, with the error of its context,
-- or not yet, with the size that it waits for.
pub data Outcome : Type 0 where
  taken : Semaphore → ℕ → Outcome
  cancelled : Outcome
  waiting : ℕ → Outcome

-- The semaphore at a wake-up, and whether the context is done by then.
pub record Wake : Type 0 where
  pub sem : Semaphore
  pub is_done : Bool

pub take_loop : Semaphore → ℕ → List Wake → Outcome
take_loop s size [] =
    if ltb s.available size
    then waiting size
    else taken (record s { available = s.available - size }) size
take_loop s size (w ∷ ws) =
    let again = take_loop w.sem (clip w.sem.max size) ws in
    if ltb s.available size
    then (if w.is_done then cancelled else again)
    else taken (record s { available = s.available - size }) size

unfoldable pub take_inner : Bool → Semaphore → ℕ → List Wake → Outcome
unfolding take_loop
take_inner is_done s size wakes = if is_done then cancelled else take_loop s (clip s.max size) wakes

unfoldable pub give : Semaphore → ℕ → Semaphore
give s size =
    let n = clip s.max size in
    if ltb s.max (s.available + n)
    then record s { available = s.max }
    else record s { available = s.available + n }

-- `available += capacity - max`, cut to the range from zero to the new capacity.
unfoldable pub set_capacity : Semaphore → ℤ → Semaphore
set_capacity s capacity =
    let cap = at_least_zero capacity in
    if ltb (s.available + cap) s.max
    then record { max = cap; available = 0 }
    else if ltb cap (s.available + cap - s.max)
    then record { max = cap; available = cap }
    else record { max = cap; available = s.available + cap - s.max }

unfoldable pub available_now : Semaphore → ℕ
available_now s = s.available

-- The semaphores stand in a store; a `MultiSemaphore` lists places in it, and nil is `none`.
abbrev pub Store : Type 0
Store = ℕ → Semaphore

abbrev pub write : ℕ → Semaphore → Store → Store
write p s st q = if q == p then s else st q

-- `Take` of every semaphore in turn; `none` if one of them would wait.
abbrev pub and_then : Outcome → (Semaphore → Option Store) → Option Store
and_then (taken s g) k = k s
and_then cancelled k = none
and_then (waiting n) k = none

pub multi_take : List (Option ℕ) → ℕ → Store → Option Store
multi_take [] size st = some st
multi_take (none ∷ ls) size st = multi_take ls size st
multi_take (some p ∷ ls) size st =
    and_then (take_inner false (st p) size []) λ s. multi_take ls size (write p s st)

pub give_loop : List (Option ℕ) → ℕ → Store → Store
give_loop [] size st = st
give_loop (none ∷ ls) size st = give_loop ls size st
give_loop (some p ∷ ls) size st = give_loop ls size (write p (give (st p) size) st)

unfoldable pub multi_give : List (Option ℕ) → ℕ → Store → Store
unfolding give_loop
multi_give ls size st = give_loop (reverse ls) size st
