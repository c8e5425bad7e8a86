-- ===== src/Vector/Order.antt =====
-- `Compare` of version vectors against the order of their counters, device by device.
use vaporcito.Base.{
  ℕ, suc, ◌≤◌, ◌≡◌, refl, sym, ◌↔◌, List, [], ◌∷◌, Bool, true, false, arith, below, same, above,
  trichotomy,
}
use vaporcito.Vector.{
  Counter, Vector, counter_loop, counter, Ordering, equal, greater, lesser, concurrent_lesser,
  concurrent_greater, compare_loop, compare, lesser_equal, greater_equal, vector_equal, concurrent,
  is_concurrent,
}
use vaporcito.Vector.Rounds.{
  Rises, IsSorted, counter_below, compare_left, compare_right, compare_below, compare_above,
  compare_same,
}

-- The verdicts under which the first vector is not above the second so far.
abbrev is_le : Ordering → Bool
is_le equal = true
is_le lesser = true
is_le _ = false

-- A loop that ends below or level started so, and every counter it passed is below or level.
le_sound :
    (id m n : ℕ) (a b : List Counter) (r : Ordering)
    → Rises m a
    → Rises n b
    → is_concurrent r ≡ false
    → is_le (compare_loop a b r) ≡ true
    → (is_le r ≡ true) × (counter_loop a id ≤ counter_loop b id)
unfolding counter_loop
le_sound id m n [] [] r ra rb t h = unfold compare_loop in (h, omega arith)
le_sound id m n (x ∷ a) [] r ra rb t h = ground (
  arith,
  compare_left x a r,
  le_sound id (suc x.id) 0 a [] r ra.1 tt t,
  le_sound id (suc x.id) 0 a [] greater ra.1 tt refl,
)
le_sound id m n [] (y ∷ b) r ra rb t h = ground (
  arith,
  compare_right y b r,
  le_sound id 0 (suc y.id) [] b r tt rb.1 t,
  le_sound id 0 (suc y.id) [] b lesser tt rb.1 refl,
)
le_sound id m n (x ∷ a) (y ∷ b) r ra rb t h = elim (trichotomy x.id y.id) [
  | below l ↦ ground (
    arith,
    compare_below x y a b r l,
    le_sound id (suc x.id) (suc x.id) a (y ∷ b) r ra.1 (l, rb.1) t,
    le_sound id (suc x.id) (suc x.id) a (y ∷ b) greater ra.1 (l, rb.1) refl,
    counter_below (suc x.id) id (y ∷ b) (l, rb.1),
  )
  | same e ↦ ground (
    arith,
    compare_same x y a b r e,
    le_sound id (suc x.id) (suc y.id) a b r ra.1 rb.1 t,
    le_sound id (suc x.id) (suc y.id) a b greater ra.1 rb.1 refl,
    le_sound id (suc x.id) (suc y.id) a b lesser ra.1 rb.1 refl,
  )
  | above g ↦ ground (
    arith,
    compare_above x y a b r g,
    le_sound id (suc y.id) (suc y.id) (x ∷ a) b r (g, ra.1) rb.1 t,
    le_sound id (suc y.id) (suc y.id) (x ∷ a) b lesser (g, ra.1) rb.1 refl,
    counter_below (suc y.id) id (x ∷ a) (g, ra.1),
  )
]

-- The counters of a vector are at most those of another, for every device.
abbrev pub Leq : List Counter → List Counter → Type 0
Leq a b = (id : ℕ) → counter_loop a id ≤ counter_loop b id

Leq-tail :
    (m n : ℕ) (x y : Counter) (a b : List Counter)
    → Rises m (x ∷ a)
    → Rises n (y ∷ b)
    → x.id ≡ y.id
    → Leq (x ∷ a) (y ∷ b)
    → Leq a b
unfolding counter_loop
Leq-tail m n x y a b ra rb e h id = ground (arith, h id, counter_below (suc x.id) id a ra.1)

Leq-tail_below :
    (m : ℕ) (x : Counter) (a b : List Counter) → Rises m (x ∷ a) → Leq (x ∷ a) b → Leq a b
unfolding counter_loop
Leq-tail_below m x a b ra h id = ground (arith, h id, counter_below (suc x.id) id a ra.1)

Leq-tail_above : (y : Counter) (a b : List Counter) → Rises (suc y.id) a → Leq a (y ∷ b) → Leq a b
unfolding counter_loop
Leq-tail_above y a b ra h id = ground (arith, h id, counter_below (suc y.id) id a ra)

-- If every counter is below or level, no round finds a larger one.
le_complete :
    (m n : ℕ) (a b : List Counter) (r : Ordering)
    → Rises m a
    → Rises n b
    → Leq a b
    → is_le r ≡ true
    → is_le (compare_loop a b r) ≡ true
unfolding counter_loop
le_complete m n [] [] r ra rb h q = unfold compare_loop in q
le_complete m n (x ∷ a) [] r ra rb h q = ground (
  arith,
  compare_left x a r,
  le_complete (suc x.id) 0 a [] r ra.1 tt (Leq-tail_below m x a [] ra h),
  h x.id,
)
le_complete m n [] (y ∷ b) r ra rb h q = ground (
  arith,
  compare_right y b r,
  le_complete 0 (suc y.id) [] b r tt rb.1 (Leq-tail_above y [] b tt h),
  le_complete 0 (suc y.id) [] b lesser tt rb.1 (Leq-tail_above y [] b tt h),
)
le_complete m n (x ∷ a) (y ∷ b) r ra rb h q = elim (trichotomy x.id y.id) [
  | below l ↦ ground (
    arith,
    compare_below x y a b r l,
    le_complete (suc x.id) (suc x.id) a (y ∷ b) r ra.1 (l, rb.1)
        (Leq-tail_below m x a (y ∷ b) ra h),
    counter_below (suc x.id) x.id (y ∷ b) (l, rb.1),
    h x.id,
  )
  | same e ↦ ground (
    arith,
    compare_same x y a b r e,
    le_complete (suc x.id) (suc y.id) a b r ra.1 rb.1 (Leq-tail m n x y a b ra rb e h),
    le_complete (suc x.id) (suc y.id) a b lesser ra.1 rb.1 (Leq-tail m n x y a b ra rb e h),
    h x.id,
  )
  | above g ↦ ground (
    arith,
    compare_above x y a b r g,
    le_complete (suc y.id) (suc y.id) (x ∷ a) b r (g, ra.1) rb.1
        (Leq-tail_above y (x ∷ a) b (g, ra.1) h),
    le_complete (suc y.id) (suc y.id) (x ∷ a) b lesser (g, ra.1) rb.1
        (Leq-tail_above y (x ∷ a) b (g, ra.1) h),
  )
]

-- The ordering seen from the other side.
abbrev pub mirror : Ordering → Ordering
mirror equal = equal
mirror greater = lesser
mirror lesser = greater
mirror concurrent_lesser = concurrent_greater
mirror concurrent_greater = concurrent_lesser

compare-mirror :
    (a b : List Counter) (r : Ordering) → compare_loop b a (mirror r) ≡ mirror (compare_loop a b r)
compare-mirror [] [] r = unfold compare_loop in refl
compare-mirror (x ∷ a) [] r = ground (
  arith,
  compare_left x a r,
  compare_right x a (mirror r),
  compare-mirror a [] r,
  compare-mirror a [] greater,
)
compare-mirror [] (y ∷ b) r = ground (
  arith,
  compare_right y b r,
  compare_left y b (mirror r),
  compare-mirror [] b r,
  compare-mirror [] b lesser,
)
compare-mirror (x ∷ a) (y ∷ b) r = elim (trichotomy x.id y.id) [
  | below l ↦ ground (
    arith,
    compare_below x y a b r l,
    compare_above y x b a (mirror r) l,
    compare-mirror a (y ∷ b) r,
    compare-mirror a (y ∷ b) greater,
  )
  | same e ↦ ground (
    arith,
    compare_same x y a b r e,
    compare_same y x b a (mirror r) (sym e),
    compare-mirror a b r,
    compare-mirror a b greater,
    compare-mirror a b lesser,
  )
  | above g ↦ ground (
    arith,
    compare_above x y a b r g,
    compare_below y x b a (mirror r) g,
    compare-mirror (x ∷ a) b r,
    compare-mirror (x ∷ a) b lesser,
  )
]

-- Comparing in the other order gives the mirrored verdict: equal for equal, greater for lesser,
-- and concurrent-greater for concurrent-lesser, for any two vectors.
pub compare_swapped : (a b : Vector) → compare b a ≡ mirror (compare a b)
unfolding compare
compare_swapped a b = compare-mirror a.counters b.counters equal

-- `LesserEqual` of two ordered vectors holds exactly when every counter of the first is at most
-- the counter of the second for the same device.
pub lesser_equal_iff :
    (a b : Vector)
    → IsSorted a
    → IsSorted b
    → (lesser_equal a b ≡ true) ↔ ((id : ℕ) → counter a id ≤ counter b id)
unfolding lesser_equal counter
lesser_equal_iff a b sa sb = (
  λ h id. (le_sound id 0 0 a.counters b.counters equal sa sb refl (ground arith)).1,
  λ h. ground (arith, le_complete 0 0 a.counters b.counters equal sa sb h refl),
)

greater_equal-lesser_equal : (a b : Vector) → greater_equal a b ≡ lesser_equal b a
unfolding greater_equal lesser_equal
greater_equal-lesser_equal a b = ground (arith, compare-mirror a.counters b.counters equal)

-- `GreaterEqual` of two ordered vectors holds exactly when every counter of the first is at least
-- the counter of the second for the same device.
pub greater_equal_iff :
    (a b : Vector)
    → IsSorted a
    → IsSorted b
    → (greater_equal a b ≡ true) ↔ ((id : ℕ) → counter b id ≤ counter a id)
greater_equal_iff a b sa sb = rw (greater_equal-lesser_equal a b) (lesser_equal_iff b a sb sa)

verdicts :
    (a b : Vector)
    → (vector_equal a b ≡ true) ↔ ((lesser_equal a b ≡ true) × (greater_equal a b ≡ true))
unfolding vector_equal lesser_equal greater_equal
verdicts a b = ground arith

-- `Equal` of two ordered vectors holds exactly when they hold the same counter for every device,
-- where a missing counter is zero.
pub vector_equal_iff :
    (a b : Vector)
    → IsSorted a
    → IsSorted b
    → (vector_equal a b ≡ true) ↔ ((id : ℕ) → counter a id ≡ counter b id)
vector_equal_iff a b sa sb =
    let le = lesser_equal_iff a b sa sb in
    let ge = greater_equal_iff a b sa sb in
    let v = verdicts a b in
    (
      λ h id. omega (arith, le.0 (v.0 h).0 id, ge.0 (v.0 h).1 id),
      λ h. v.1 (le.1 (λ id. omega (arith, h id)), ge.1 (λ id. omega (arith, h id))),
    )

apart :
    (a b : Vector)
    → (concurrent a b ≡ true) ↔ ((¬ (lesser_equal a b ≡ true)) × (¬ (greater_equal a b ≡ true)))
unfolding concurrent lesser_equal greater_equal
apart a b = ground arith

-- `Concurrent` of two ordered vectors holds exactly when neither is at most the other, device by
-- device.
pub concurrent_iff :
    (a b : Vector)
    → IsSorted a
    → IsSorted b
    → (concurrent a b ≡ true) ↔ (
        (¬ ((id : ℕ) → counter a id ≤ counter b id)) × (¬ ((id : ℕ) → counter b id ≤ counter a id)))
concurrent_iff a b sa sb =
    let le = lesser_equal_iff a b sa sb in
    let ge = greater_equal_iff a b sa sb in
    let v = apart a b in
    (
      λ h. (λ p. (v.0 h).0 (le.1 p), λ p. (v.0 h).1 (ge.1 p)),
      λ h. v.1 (λ p. h.0 (le.0 p), λ p. h.1 (ge.0 p)),
    )
