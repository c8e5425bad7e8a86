-- ===== src/Pulling/Tests.antt =====
-- Runs of the pulling order.
use mathlib.Core.List.{Perm}
use mathlib.Core.List.Perm
use vaporcito.Base.{ℕ, List, [], ◌∷◌, some, ◌≡◌, refl}
use vaporcito.Base.Bytes.{codes}
use vaporcito.Pulling.{
  standard, StandardReorderer, Reorderer, new_block_pull_reorderer, reorder, chunk, chunk_loop,
  other_indexes, append_chunks, own_chunk, standard_reorder,
}
use vaporcito.Pulling.Reorder.{reorder-Perm}

abbrev blocks : List ℕ
blocks = 10 ∷ 11 ∷ 12 ∷ 13 ∷ 14 ∷ []

abbrev second_of_three : StandardReorderer
second_of_three = record { my_index = 1; count = 3 }

reorder-Perm_example :
    (r : Reorderer) × (out : List ℕ) × (new_block_pull_reorderer
        (λ ds. ds)
        standard
        (codes "B")
        (codes "A" ∷ codes "C" ∷ [])
      ≡ some r)
    × (reorder (λ bs. bs) (λ is. is) r blocks ≡ some out)
    × Perm out blocks
reorder-Perm_example =
    reorder-Perm (λ ds. ds) (λ bs. bs) (λ is. is) standard (codes "B") (codes "A" ∷ codes "C" ∷ [])
      blocks Perm.refl Perm.refl Perm.refl

standard_reorder_run :
    standard_reorder (λ is. is) second_of_three blocks ≡ some (12 ∷ 13 ∷ 10 ∷ 11 ∷ 14 ∷ [])
unfolding standard_reorder own_chunk chunk chunk_loop append_chunks other_indexes
standard_reorder_run = refl
