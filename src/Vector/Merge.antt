-- ===== src/Vector/Merge.antt =====
-- `Merge` of version vectors is the least upper bound.
use vaporcito.Base.{
  ℕ, suc, ◌<◌, ◌≡◌, ◌↔◌, refl, List, [], ◌∷◌, true, arith, max, below, same, above, trichotomy,
}
use vaporcito.Vector.{Counter, Vector, counter_loop, counter, merge_loop, merge, lesser_equal}
use vaporcito.Vector.Rounds.{Rises, IsSorted, Rises-mono, counter_below}
use vaporcito.Vector.Order.{lesser_equal_iff}

-- One round, in each of the three ways that it can go.
module _ (x y : Counter) (v b : List Counter) where
  merge_above : y.id < x.id → merge_loop (x ∷ v) (y ∷ b) ≡ y ∷ merge_loop (x ∷ v) b
  unfolding merge_loop
  merge_above h = ground arith

  merge_below : x.id < y.id → merge_loop (x ∷ v) (y ∷ b) ≡ x ∷ merge_loop v (y ∷ b)
  unfolding merge_loop
  merge_below h = ground arith

  merge_same :
      x.id ≡ y.id
      → merge_loop (x ∷ v) (y ∷ b)
        ≡ record { id = x.id; value = max x.value y.value } ∷ merge_loop v b
  unfolding merge_loop
  merge_same h = ground arith

merge_nil : (v : List Counter) → merge_loop v [] ≡ v
unfolding merge_loop
merge_nil [] = refl
merge_nil (x ∷ v) = refl

merge_loop-Rises : (n : ℕ) (v b : List Counter) → Rises n v → Rises n b → Rises n (merge_loop v b)
merge_loop-Rises n v [] rv rb = rw (merge_nil v) rv
merge_loop-Rises n [] (y ∷ b) rv rb = unfold merge_loop in rb
merge_loop-Rises n (x ∷ v) (y ∷ b) rv rb = elim (trichotomy x.id y.id) [
  | below l ↦
      rw (merge_below x y v b l) (rv.0, merge_loop-Rises (suc x.id) v (y ∷ b) rv.1 (l, rb.1))
  | same e ↦
      rw (merge_same x y v b e)
        (rv.0, merge_loop-Rises (suc x.id) v b rv.1 (Rises-mono b (omega arith) rb.1))
  | above g ↦
      rw (merge_above x y v b g) (rb.0, merge_loop-Rises (suc y.id) (x ∷ v) b (g, rv.1) rb.1)
]

counter-merge_loop :
    (id m n : ℕ) (v b : List Counter)
    → Rises m v
    → Rises n b
    → counter_loop (merge_loop v b) id ≡ max (counter_loop v id) (counter_loop b id)
unfolding counter_loop
counter-merge_loop id m n v [] rv rb = rw (merge_nil v) (omega arith)
counter-merge_loop id m n [] (y ∷ b) rv rb = unfold merge_loop in omega arith
counter-merge_loop id m n (x ∷ v) (y ∷ b) rv rb = elim (trichotomy x.id y.id) [
  | below l ↦ ground (
    arith,
    merge_below x y v b l,
    counter-merge_loop id (suc x.id) (suc x.id) v (y ∷ b) rv.1 (l, rb.1),
    counter_below (suc x.id) id (y ∷ b) (l, rb.1),
  )
  | same e ↦
      ground
        (arith, merge_same x y v b e, counter-merge_loop id (suc x.id) (suc y.id) v b rv.1 rb.1)
  | above g ↦ ground (
    arith,
    merge_above x y v b g,
    counter-merge_loop id (suc y.id) (suc y.id) (x ∷ v) b (g, rv.1) rb.1,
    counter_below (suc y.id) id (x ∷ v) (g, rv.1),
  )
]

-- Merging ordered vectors gives an ordered vector.
pub merge-IsSorted : (v b : Vector) → IsSorted v → IsSorted b → IsSorted (merge v b)
unfolding merge
merge-IsSorted v b sv sb = merge_loop-Rises 0 v.counters b.counters sv sb

-- After a merge of ordered vectors every device has the larger of its two counters.
pub counter-merge :
    (v b : Vector) (id : ℕ)
    → IsSorted v
    → IsSorted b
    → counter (merge v b) id ≡ max (counter v id) (counter b id)
unfolding merge counter
counter-merge v b id sv sb = counter-merge_loop id 0 0 v.counters b.counters sv sb

-- The merge of ordered vectors is their least upper bound for `LesserEqual`: it is at most an ordered
-- vector exactly when both are.
pub merge_least :
    (v b c : Vector)
    → IsSorted v
    → IsSorted b
    → IsSorted c
    → (lesser_equal (merge v b) c ≡ true) ↔ ((lesser_equal v c ≡ true) × (lesser_equal b c ≡ true))
merge_least v b c sv sb sc =
    let whole = lesser_equal_iff (merge v b) c (merge-IsSorted v b sv sb) sc in
    let left = lesser_equal_iff v c sv sc in
    let right = lesser_equal_iff b c sb sc in
    (
      λ h. (
        left.1 (λ id. omega (arith, counter-merge v b id sv sb, whole.0 h id)),
        right.1 (λ id. omega (arith, counter-merge v b id sv sb, whole.0 h id)),
      ),
      λ h. whole.1 (λ id. omega (arith, counter-merge v b id sv sb, left.0 h.0 id, right.0 h.1 id)),
    )
