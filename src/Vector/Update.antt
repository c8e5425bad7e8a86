-- ===== src/Vector/Update.antt =====
-- `Update` and `DropOthers` of version vectors.
use vaporcito.Base.{
  ℕ, suc, ◌+◌, ◌%◌, ◌^◌, ◌≤◌, ◌<◌, ◌≡◌, List, [], ◌∷◌, true, false, arith, max, ◌==◌, if◌then◌else◌,
  below, same, above, trichotomy, Bool-cases, inl, inr,
}
use vaporcito.Vector.{
  Counter, Vector, counter_loop, counter, update_loop, update_with_now, drop_others_loop,
  drop_others, compare, greater, greater_equal, vector_equal,
}
use vaporcito.Vector.Rounds.{Rises, IsSorted, counter_below}
use vaporcito.Vector.Order.{greater_equal_iff, vector_equal_iff}

update_loop-Rises :
    (n id now : ℕ) (cs : List Counter) → n ≤ id → Rises n cs → Rises n (update_loop cs id now)
unfolding update_loop
update_loop-Rises n id now [] h r = (h, tt)
update_loop-Rises n id now (c ∷ cs) h r = elim (trichotomy c.id id) [
  | below l ↦ ground (arith, update_loop-Rises (suc c.id) id now cs l r.1)
  | same e ↦ ground arith
  | above g ↦ ground arith
]

counter-update_loop :
    (n id now j : ℕ) (cs : List Counter)
    → Rises n cs
    → counter_loop (update_loop cs id now) j
      ≡ (if id == j then max ((counter_loop cs id + 1) % 2 ^ 64) now else counter_loop cs j)
unfolding update_loop counter_loop
counter-update_loop n id now j [] r = ground arith
counter-update_loop n id now j (c ∷ cs) r = elim (trichotomy c.id id) [
  | below l ↦ ground (arith, counter-update_loop (suc c.id) id now j cs r.1)
  | same e ↦ ground arith
  | above g ↦ ground (arith, counter_below (suc c.id) id cs r.1)
]

-- An update keeps the vector ordered by device.
pub update-IsSorted : (v : Vector) (id now : ℕ) → IsSorted v → IsSorted (update_with_now v id now)
unfolding update_with_now
update-IsSorted v id now s = update_loop-Rises 0 id now v.counters (omega arith) s

-- An update of an ordered vector raises the counter of its device to one more (a uint64, so it
-- wraps), or to the time if that is larger, and leaves every other device's counter.
pub counter-update :
    (v : Vector) (id now j : ℕ)
    → IsSorted v
    → counter (update_with_now v id now) j
      ≡ (if id == j then max ((counter v id + 1) % 2 ^ 64) now else counter v j)
unfolding update_with_now counter
counter-update v id now j s = counter-update_loop 0 id now j v.counters s

greater_verdict :
    (a b : Vector) → greater_equal a b ≡ true → vector_equal a b ≡ false → compare a b ≡ greater
unfolding greater_equal vector_equal
greater_verdict a b g e = ground arith

update_raises :
    (v : Vector) (id now : ℕ)
    → IsSorted v
    → counter v id + 1 < 2 ^ 64
    → counter v id < counter (update_with_now v id now) id
update_raises v id now s h = ground (arith, counter-update v id now id s)

-- The updated vector compares as greater than the one before it, provided that the vector is
-- ordered and the counter is not at the largest uint64.
pub compare-update :
    (v : Vector) (id now : ℕ)
    → IsSorted v
    → counter v id + 1 < 2 ^ 64
    → compare (update_with_now v id now) v ≡ greater
compare-update v id now s h =
    let u = update_with_now v id now in
    let su = update-IsSorted v id now s in
    greater_verdict u v
      ((greater_equal_iff u v su s).1 (λ j. ground (arith, counter-update v id now j s)))
      (elim (Bool-cases (vector_equal u v)) [
        | inl e ↦
            absurd (omega (arith, (vector_equal_iff u v su s).0 e id, update_raises v id now s h))
        | inr e ↦ e
      ])

counter-drop_others_loop :
    (id j : ℕ) (cs : List Counter)
    → counter_loop (drop_others_loop cs id) j ≡ (if id == j then counter_loop cs j else 0)
unfolding drop_others_loop counter_loop
counter-drop_others_loop id j [] = ground arith
counter-drop_others_loop id j (c ∷ cs) = ground (arith, counter-drop_others_loop id j cs)

-- `DropOthers` keeps the counter of the given device and sets every other device's to zero, for any
-- vector.
pub counter-drop_others :
    (v : Vector) (id j : ℕ) → counter (drop_others v id) j ≡ (if id == j then counter v j else 0)
unfolding drop_others counter
counter-drop_others v id j = counter-drop_others_loop id j v.counters
