-- ===== src/Pulling/Reorder.antt =====
-- Reordering keeps the blocks: `Reorder` of back/lib/model/blockpullreorderer.go.
use mathlib.Core.List.{Perm}
use mathlib.Core.List.Perm
use vaporcito.Base.{
  ℕ, zero, suc, List, [], ◌∷◌, ◌++◌, true, false, some, length, ltb, leb, ◌==◌, ◌≡◌, refl, ap,
  subst, arith, Bool-cases, inl, inr,
}
use vaporcito.Base.Bytes.{Bytes}
use vaporcito.Pulling.{
  BlockPullOrder, standard, random, in_order, other, StandardReorderer, Reorderer,
  in_order_reorderer, random_reorderer, standard_reorderer, as_reorderer, new_block_pull_reorderer,
  chunk, chunk_loop, other_indexes, own_chunk, standard_reorder, reorder,
}
use vaporcito.Pulling.Chunks.{joined-chunk}
use vaporcito.Pulling.Indexes.{
  Perm-all_below, all_below-other_indexes, chunks_at, get_elem-chunk_at, append_chunks-chunks_at,
  Perm-shuffled, own_from, chunks_at-other_indexes,
}
use vaporcito.Pulling.Devices.{new_standard_block_pull_reorderer-some}

module _ {ℓ} {Block : Type ℓ} where
  own_chunk-own_from : (cs : List (List Block)) (my : ℕ) → own_chunk cs my ≡ some (own_from cs my 0)
  unfolding own_chunk
  own_chunk-own_from cs my = elim (Bool-cases (ltb my (length cs))) [
    | inl h ↦
        (let t : leb 0 my ≡ true = ground arith in
          rw (h, t) (get_elem-chunk_at cs my (ground arith)))
    | inr h ↦ (let t : leb 0 my ≡ true = ground arith in rw (h, t) refl)
  ]

  own_chunk-one_empty : (my : ℕ) → own_chunk {Block = Block} ([] ∷ []) my ≡ some []
  unfolding own_chunk
  own_chunk-one_empty zero = refl
  own_chunk-one_empty (suc my) = let t : ltb (suc my) 1 ≡ false = ground arith in rw t refl

  own_chunk-no_chunks : (my : ℕ) → own_chunk {Block = Block} [] my ≡ some []
  unfolding own_chunk
  own_chunk-no_chunks my = let t : ltb my 0 ≡ false = ground arith in rw t refl

  own_chunk-none : (count my : ℕ) → own_chunk {Block = Block} (chunk [] count) my ≡ some []
  unfolding chunk chunk_loop
  own_chunk-none count my = elim (Bool-cases (count == 0)) [
    | inl e ↦ rw e (own_chunk-one_empty my)
    | inr e ↦ rw e (own_chunk-no_chunks my)
  ]

  -- The standard order pulls every block once and starts with the device's own chunk, provided that
  -- the shuffle permutes.
  pub standard_reorder-Perm :
      (shuffle : List ℕ → List ℕ) (p : StandardReorderer) (blocks : List Block)
      → ((is : List ℕ) → Perm (shuffle is) is)
      → (own rest : List Block) × (own_chunk (chunk blocks p.count) p.my_index ≡ some own)
        × (standard_reorder shuffle p blocks ≡ some (own ++ rest))
        × Perm (own ++ rest) blocks
  unfolding standard_reorder
  standard_reorder-Perm shuffle p [] perm =
      ([], [], own_chunk-none p.count p.my_index, refl, Perm.nil)
  standard_reorder-Perm shuffle p (b ∷ blocks) perm =
      let cs = chunk (b ∷ blocks) p.count in
      let own = own_from cs p.my_index 0 in
      let indexes = other_indexes (length cs) 0 p.my_index in
      let below = all_below-other_indexes (length cs) 0 p.my_index (length cs) (omega arith) in
      (
        own,
        chunks_at cs (shuffle indexes),
        own_chunk-own_from cs p.my_index,
        rw
            (
              own_chunk-own_from cs p.my_index,
              append_chunks-chunks_at cs (shuffle indexes)
                  (Perm-all_below (length cs) (perm indexes) below),
            )
            refl,
        Perm.trans (Perm.append_left own (Perm-shuffled cs (perm indexes))) (
            subst (λ all. Perm (own ++ chunks_at cs indexes) all)
              (joined-chunk (b ∷ blocks) p.count)
              (chunks_at-other_indexes cs p.my_index (length cs) 0 (omega arith))),
      )

-- Whatever the order, making a reorderer and reordering do not panic, and every block is pulled
-- once, if the sorting routine and the random generator permute.
pub reorder-Perm {ℓ} :
    {Block : Type ℓ} (sort : List Bytes → List Bytes) (shuffle_blocks : List Block → List Block)
    (shuffle : List ℕ → List ℕ) (order : BlockPullOrder) (id : Bytes) (other_devices : List Bytes)
    (blocks : List Block)
    → ((devices : List Bytes) → Perm (sort devices) devices)
    → ((bs : List Block) → Perm (shuffle_blocks bs) bs)
    → ((is : List ℕ) → Perm (shuffle is) is)
    → (r : Reorderer) × (out : List Block) × (new_block_pull_reorderer sort order id other_devices
        ≡ some r)
      × (reorder shuffle_blocks shuffle r blocks ≡ some out)
      × Perm out blocks
unfolding new_block_pull_reorderer reorder
reorder-Perm sort shuffle_blocks shuffle random id others blocks p q r =
    (random_reorderer, shuffle_blocks blocks, refl, refl, q blocks)
reorder-Perm sort shuffle_blocks shuffle in_order id others blocks p q r =
    (in_order_reorderer, blocks, refl, refl, Perm.refl blocks)
reorder-Perm sort shuffle_blocks shuffle standard id others blocks p q r =
    let (s, made, lt) = new_standard_block_pull_reorderer-some sort id others p in
    let (own, rest, is_own, done, perm) = standard_reorder-Perm shuffle s blocks r in
    (standard_reorderer s, own ++ rest, ap as_reorderer made, done, perm)
reorder-Perm sort shuffle_blocks shuffle (other n) id others blocks p q r =
    let (s, made, lt) = new_standard_block_pull_reorderer-some sort id others p in
    let (own, rest, is_own, done, perm) = standard_reorder-Perm shuffle s blocks r in
    (standard_reorderer s, own ++ rest, ap as_reorderer made, done, perm)
