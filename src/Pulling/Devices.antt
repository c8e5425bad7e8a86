-- ===== src/Pulling/Devices.antt =====
-- The place of a device among all devices: `newStandardBlockPullReorderer` of
-- back/lib/model/blockpullreorderer.go.
use mathlib.Core.List.{Perm, Permᴰ}
use mathlib.Core.Logic.{∥∥₁_elim}
use mathlib.Core.Bool.{Bool-set}
use vaporcito.Base.{
  ℕ, suc, ◌+◌, ◌<◌, List, [], ◌∷◌, ◌++◌, Bool, true, false, ◌||◌, some, length, ◌≡◌, refl, ◌∙◌,
  arith, Bool-cases, inl, inr,
}
use vaporcito.Base.Bytes.{Bytes, bytes_equal, bytes_equal_refl}
use vaporcito.Pulling.{StandardReorderer, my_index_from, new_standard_block_pull_reorderer}

-- The devices hold an id.
has_id : Bytes → List Bytes → Bool
has_id id [] = false
has_id id (dev ∷ devices) = bytes_equal dev id || has_id id devices

Permᴰ-has_id : {ds es : List Bytes} (id : Bytes) → Permᴰ ds es → has_id id ds ≡ has_id id es
unfolding has_id
Permᴰ-has_id id Permᴰ.nil = refl
Permᴰ-has_id id (Permᴰ.cons e p) = rw (e, Permᴰ-has_id id p) refl
Permᴰ-has_id id (Permᴰ.swap e f) = rw (e, f) (ground arith)
Permᴰ-has_id id (Permᴰ.trans p q) = Permᴰ-has_id id p ∙ Permᴰ-has_id id q

has_id-append : (id : Bytes) (devices : List Bytes) → has_id id (devices ++ id ∷ []) ≡ true
unfolding has_id
has_id-append id [] = rw (bytes_equal_refl id) refl
has_id-append id (dev ∷ devices) = rw (has_id-append id devices) (ground arith)

my_index_from-some :
    (i : ℕ) (id : Bytes) (devices : List Bytes)
    → has_id id devices ≡ true
    → (k : ℕ) × (my_index_from i id devices ≡ some k) × (k < i + length devices)
unfolding has_id my_index_from
my_index_from-some i id [] h = ground arith
my_index_from-some i id (dev ∷ devices) h = elim (Bool-cases (bytes_equal dev id)) [
  | inl e ↦ (i, rw e refl, omega arith)
  | inr e ↦
      (let (k, found, lt) = my_index_from-some (suc i) id devices (ground (arith, e, h)) in
        (k, rw e found, omega arith))
]

-- A device finds its own place among all devices, which is one of as many places.
pub new_standard_block_pull_reorderer-some :
    (sort : List Bytes → List Bytes) (id : Bytes) (other_devices : List Bytes)
    → ((devices : List Bytes) → Perm (sort devices) devices)
    → (p : StandardReorderer) × (new_standard_block_pull_reorderer sort id other_devices ≡ some p)
      × (p.my_index < p.count)
unfolding new_standard_block_pull_reorderer
new_standard_block_pull_reorderer-some sort id other_devices perm =
    let devices = sort (other_devices ++ id ∷ []) in
    let has : has_id id devices ≡ true =
      ∥∥₁_elim (perm (other_devices ++ id ∷ [])) (Bool-set _ _)
        (λ d. Permᴰ-has_id id d ∙ has_id-append id other_devices) in
    let (k, found, lt) = my_index_from-some 0 id devices has in
    (record { my_index = k; count = length devices }, rw found refl, omega (arith, lt))
