-- ===== src/Pulling/Chunks.antt =====
-- The chunks of blocks: `chunk` of back/lib/model/blockpullreorderer.go.
use native.Mathlib.Nat.{lt-div-mul-add, le-div_iff_mul-le}
use vaporcito.Base.{
  false, append-nil, Bool-cases, inl, inr, ℕ, zero, suc, ◌+◌, ◌-◌, ◌*◌, ◌/◌, ◌≤◌, List, [], ◌∷◌,
  ◌++◌, length, drop, ◌==◌, ◌≡◌, refl, arith,
}
use vaporcito.Base.Slices.{take-drop, length-drop}
use vaporcito.Pulling.{chunk_loop, chunk}

-- The size of a chunk is enough for the blocks, and positive if there are any.
size_fits : (n parts : ℕ) → 1 ≤ parts → n ≤ parts * ((n + parts - 1) / parts)
size_fits n parts h = omega (arith, lt-div-mul-add {a = n + parts - 1} {b = parts} h)

size_positive : (n parts : ℕ) → 1 ≤ parts → 1 ≤ n → 1 ≤ (n + parts - 1) / parts
size_positive n parts h k =
    (le-div_iff_mul-le {k = parts} {x = 1} {y = n + parts - 1} h).1 (omega arith)

module _ {ℓ} {Block : Type ℓ} where
  -- The chunks, one after another.
  unfoldable pub joined : List (List Block) → List Block
  joined [] = []
  joined (c ∷ cs) = c ++ joined cs

  joined-chunk_loop :
      (rounds size : ℕ) (blocks : List Block)
      → 1 ≤ size
      → length blocks ≤ rounds
      → joined (chunk_loop rounds size blocks) ≡ blocks
  unfolding joined chunk_loop
  joined-chunk_loop zero size [] h k = refl
  joined-chunk_loop zero size (b ∷ blocks) h k = absurd (omega arith)
  joined-chunk_loop (suc rounds) size [] h k = refl
  joined-chunk_loop (suc rounds) size (b ∷ blocks) h k =
      let left = length-drop size (b ∷ blocks) in
      rw (joined-chunk_loop rounds size (drop size (b ∷ blocks)) h (omega (arith, left)))
        (take-drop size (b ∷ blocks))

  length-chunk_loop :
      (k rounds size : ℕ) (blocks : List Block)
      → length blocks ≤ k * size
      → length (chunk_loop rounds size blocks) ≤ k
  unfolding chunk_loop
  length-chunk_loop k zero size blocks h = omega arith
  length-chunk_loop k (suc rounds) size [] h = omega arith
  length-chunk_loop zero (suc rounds) size (b ∷ blocks) h = absurd (omega arith)
  length-chunk_loop (suc k) (suc rounds) size (b ∷ blocks) h =
      let left = length-drop size (b ∷ blocks) in
      let rest = length-chunk_loop k rounds size (drop size (b ∷ blocks)) (omega (arith, left)) in
      omega (arith, rest)

  -- Put one after another again, the chunks are the blocks.
  pub joined-chunk :
      (blocks : List Block) (part_count : ℕ) → joined (chunk blocks part_count) ≡ blocks
  unfolding chunk joined chunk_loop
  joined-chunk [] part_count = elim (Bool-cases (part_count == 0)) [
    | inl e ↦ rw e refl
    | inr e ↦ rw e refl
  ]
  joined-chunk (b ∷ blocks) part_count = elim (Bool-cases (part_count == 0)) [
    | inl e ↦ rw e (append-nil (b ∷ blocks))
    | inr e ↦ rw e (
        joined-chunk_loop (length (b ∷ blocks)) _ (b ∷ blocks)
          (size_positive (length (b ∷ blocks)) part_count (ground arith) (omega arith))
          (omega arith))
  ]

  -- There are no more chunks than asked for, if any are asked for.
  pub length-chunk :
      (blocks : List Block) (part_count : ℕ)
      → 1 ≤ part_count
      → length (chunk blocks part_count) ≤ part_count
  unfolding chunk
  length-chunk blocks part_count h =
      let e : (part_count == 0) ≡ false = ground arith in
      rw e (
        length-chunk_loop part_count (length blocks) _ blocks
          (size_fits (length blocks) part_count h))
