-- ===== src/Pulling.antt =====
-- The order in which the blocks of a file are pulled: back/lib/model/blockpullreorderer.go. The
-- sorting routine and the random generator are arguments. A panic is none.
pub mod Chunks
pub mod Indexes
pub mod Devices
pub mod Reorder
mod Tests
use vaporcito.Base.{
  ℕ, zero, suc, ◌+◌, ◌-◌, ◌/◌, List, [], ◌∷◌, ◌++◌, Option, none, some, length, get_elem?, take,
  drop, ltb, ◌==◌, if◌then◌else◌,
}
use vaporcito.Base.Bytes.{Bytes, bytes_equal}

-- The settings; any other value counts as standard.
pub data BlockPullOrder : Type 0 where
  standard : BlockPullOrder
  random : BlockPullOrder
  in_order : BlockPullOrder
  other : ℕ → BlockPullOrder

pub record StandardReorderer : Type 0 where
  pub my_index : ℕ
  pub count : ℕ

-- The reorderers of the three orders.
pub data Reorderer : Type 0 where
  in_order_reorderer : Reorderer
  random_reorderer : Reorderer
  standard_reorderer : StandardReorderer → Reorderer

-- The loop that looks for the own device, from an index on.
unfoldable pub my_index_from : ℕ → Bytes → List Bytes → Option ℕ
my_index_from i id [] = none
my_index_from i id (dev ∷ devices) =
    let later = my_index_from (suc i) id devices in if bytes_equal dev id then some i else later

abbrev pub with_index : ℕ → Option ℕ → Option StandardReorderer
with_index n none = none
with_index n (some i) = some (record { my_index = i; count = n })

unfoldable pub new_standard_block_pull_reorderer :
    (List Bytes → List Bytes) → Bytes → List Bytes → Option StandardReorderer
new_standard_block_pull_reorderer sort id other_devices =
    let all_devices = sort (other_devices ++ id ∷ []) in
    with_index (length all_devices) (my_index_from 0 id all_devices)

abbrev pub as_reorderer : Option StandardReorderer → Option Reorderer
as_reorderer none = none
as_reorderer (some p) = some (standard_reorderer p)

unfoldable pub new_block_pull_reorderer :
    (List Bytes → List Bytes) → BlockPullOrder → Bytes → List Bytes → Option Reorderer
new_block_pull_reorderer sort random id other_devices = some random_reorderer
new_block_pull_reorderer sort in_order id other_devices = some in_order_reorderer
new_block_pull_reorderer sort standard id other_devices =
    as_reorderer (new_standard_block_pull_reorderer sort id other_devices)
new_block_pull_reorderer sort (other n) id other_devices =
    as_reorderer (new_standard_block_pull_reorderer sort id other_devices)

-- The indexes from `i` on but the own one, for so many chunks.
unfoldable pub other_indexes : ℕ → ℕ → ℕ → List ℕ
other_indexes zero i my_index = []
other_indexes (suc n) i my_index =
    let later = other_indexes n (suc i) my_index in if i == my_index then later else i ∷ later

module _ {ℓ} {Block : Type ℓ} where
  -- The loop of `chunk` over the blocks from `i` on, for a number of rounds.
  unfoldable pub chunk_loop : ℕ → ℕ → List Block → List (List Block)
  chunk_loop zero size blocks = []
  chunk_loop (suc rounds) size [] = []
  chunk_loop (suc rounds) size (b ∷ blocks) =
      take size (b ∷ blocks) ∷ chunk_loop rounds size (drop size (b ∷ blocks))

  -- A chunk has at least one block, so there are at most as many rounds as blocks.
  unfoldable pub chunk : List Block → ℕ → List (List Block)
  chunk blocks part_count =
      if part_count == 0
      then blocks ∷ []
      else chunk_loop (length blocks) ((length blocks + part_count - 1) / part_count) blocks

  abbrev pub onto : Option (List Block) → Option (List Block) → Option (List Block)
  onto none later = none
  onto (some c) none = none
  onto (some c) (some r) = some (c ++ r)

  -- The chunks of the indexes, one after another; an index out of range is a panic.
  unfoldable pub append_chunks : List (List Block) → List ℕ → Option (List Block)
  append_chunks chunks [] = some []
  append_chunks chunks (idx ∷ indexes) = onto (get_elem? chunks idx) (append_chunks chunks indexes)

  -- The own chunk, if there is one.
  unfoldable pub own_chunk : List (List Block) → ℕ → Option (List Block)
  own_chunk chunks my_index =
      if ltb my_index (length chunks) then get_elem? chunks my_index else some []

  unfoldable pub standard_reorder :
      (List ℕ → List ℕ) → StandardReorderer → List Block → Option (List Block)
  standard_reorder shuffle p [] = some []
  standard_reorder shuffle p (b ∷ blocks) =
      let chunks = chunk (b ∷ blocks) p.count in
      onto (own_chunk chunks p.my_index)
        (append_chunks chunks (shuffle (other_indexes (length chunks) 0 p.my_index)))

  unfoldable pub reorder :
      (List Block → List Block) → (List ℕ → List ℕ) → Reorderer → List Block → Option (List Block)
  reorder shuffle_blocks shuffle in_order_reorderer blocks = some blocks
  reorder shuffle_blocks shuffle random_reorderer blocks = some (shuffle_blocks blocks)
  reorder shuffle_blocks shuffle (standard_reorderer p) blocks = standard_reorder shuffle p blocks
