-- ===== src/Semaphore/Invariant.antt =====
-- A semaphore never has more available than its capacity, and hands out no more than it has.
use vaporcito.Base.{
  ℕ, ◌+◌, ◌-◌, ◌≤◌, ◌<◌, ◌≡◌, inl, inr, List, [], ◌∷◌, Bool, true, false, arith, min, ltb,
  Bool-cases,
}
use vaporcito.Base.Int.{ℤ, pos}
use vaporcito.Semaphore.{
  Semaphore, at_least_zero, new, clip, taken, Wake, take_loop, take_inner, give, set_capacity,
}

abbrev pub IsValid : Semaphore → Type 0
IsValid s = s.available ≤ s.max

-- A new semaphore, and one after a give or a change of its capacity, has no more available than its
-- capacity.
pub set_capacity-IsValid :
    (s : Semaphore) (n : ℕ) (c : ℤ)
    → IsValid s
    → IsValid (new c) × IsValid (give s n) × IsValid (set_capacity s c)
unfolding new give set_capacity
set_capacity-IsValid s n c h = (ground arith, ground arith, ground arith)

-- Which of the states that a call saw it took from, and how much.
pub data Took (size : ℕ) (r : Semaphore) (g : ℕ) : Semaphore → List Wake → Type 0 where
  now :
      {s : Semaphore} {ws : List Wake}
      → g ≤ size
      → g ≤ s.available
      → r ≡ record s { available = s.available - g }
      → Took size r g s ws
  later :
      {s : Semaphore} {w : Wake} {ws : List Wake}
      → Took size r g w.sem ws
      → Took size r g s (w ∷ ws)

take_loop-Took :
    (s : Semaphore) (m size : ℕ) (ws : List Wake) (r : Semaphore) (g : ℕ)
    → m ≤ size
    → take_loop s m ws ≡ taken r g
    → Took size r g s ws
unfolding take_loop
take_loop-Took s m size [] r g h e = now (ground arith) (ground arith) (ground arith)
take_loop-Took s m size (w ∷ ws) r g h e = elim (Bool-cases (ltb s.available m)) [
  | inl k ↦
      later (take_loop-Took w.sem (clip w.sem.max m) size ws r g (ground arith) (ground arith))
  | inr k ↦ now (ground arith) (ground arith) (ground arith)
]

-- A call that takes from the semaphore takes, at the start or at a wake-up, what was available
-- there, and no more than was asked for.
pub take_inner-Took :
    (is_done : Bool) (s : Semaphore) (size : ℕ) (ws : List Wake) (r : Semaphore) (g : ℕ)
    → take_inner is_done s size ws ≡ taken r g
    → Took size r g s ws
unfolding take_inner
take_inner-Took true s size ws r g e = cc
take_inner-Took false s size ws r g e =
    take_loop-Took s (clip s.max size) size ws r g (ground arith) e

-- Giving back what was taken without a wait restores the semaphore, for every size.
pub give-take :
    (s : Semaphore) (size : ℕ) (r : Semaphore) (g : ℕ)
    → IsValid s
    → take_inner false s size [] ≡ taken r g
    → give r size ≡ s
unfolding take_inner take_loop give
give-take s size r g v e = ground arith

-- After a change of capacity as much is in use as before, or the new capacity if that is less.
pub set_capacity-in_use :
    (s : Semaphore) (c : ℤ)
    → IsValid s
    → (set_capacity s c).max - (set_capacity s c).available
      ≡ min (s.max - s.available) (at_least_zero c)
unfolding set_capacity
set_capacity-in_use s c v = ground arith

-- The flaw: if more is in use than the new capacity, the rest is forgotten. After the change and a
-- give of something, but no more than the new capacity, more is available than what is still in use
-- leaves of that capacity.
pub set_capacity_forgets :
    (s : Semaphore) (cap g : ℕ)
    → IsValid s
    → cap < s.max - s.available
    → 1 ≤ g
    → g ≤ cap
    → cap - (s.max - s.available - g) < (give (set_capacity s (pos cap)) g).available
unfolding set_capacity give
set_capacity_forgets s cap g v h one k = ground arith

-- A semaphore and how much its users hold of it.
pub record Usage : Type 0 where
  pub sem : Semaphore
  pub held : ℕ

-- Users take and give while the capacity stays; one that gives more than is held leaves nothing held.
pub data Step : Usage → Usage → Type 0 where
  takes :
      (u : Usage) (size g : ℕ) (r : Semaphore)
      → take_inner false u.sem size [] ≡ taken r g
      → Step u (record { sem = r; held = u.held + g })
  gives :
      (u : Usage) (size : ℕ)
      → Step u (record { sem = give u.sem size; held = u.held - clip u.sem.max size })

pub data Reach (u : Usage) : Usage → Type 0 where
  here : Reach u u
  next : {v w : Usage} → Reach u v → Step v w → Reach u w

abbrev pub Balanced : Usage → Type 0
Balanced u = u.sem.available + u.held ≡ u.sem.max

take-Balanced :
    (u : Usage) (size g : ℕ) (r : Semaphore)
    → Balanced u
    → take_inner false u.sem size [] ≡ taken r g
    → r.available + (u.held + g) ≡ r.max
unfolding take_inner take_loop
take-Balanced u size g r b e = ground arith

give-Balanced :
    (u : Usage) (size : ℕ)
    → Balanced u
    → (give u.sem size).available + (u.held - clip u.sem.max size) ≡ (give u.sem size).max
unfolding give
give-Balanced u size b = ground arith

Step-Balanced : {u v : Usage} → Step u v → Balanced u → Balanced v
Step-Balanced (takes u size g r e) b = take-Balanced u size g r b e
Step-Balanced (gives u size) b = give-Balanced u size b

-- However takes without a wait and gives of any size, also of more than is held, follow one another
-- from a new semaphore that nobody uses, what is available and what is held make up the capacity.
pub Reach-Balanced : (c : ℤ) {u : Usage} → Reach (record { sem = new c; held = 0 }) u → Balanced u
Reach-Balanced c here = unfold new in omega arith
Reach-Balanced c (next r st) = Step-Balanced st (Reach-Balanced c r)
