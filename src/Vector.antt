-- ===== src/Vector.antt =====
-- Version vectors: back/lib/protocol/vector.go.
-- An index into `Counters` is the suffix that starts there; what lies before it is not read again.
-- Times and counter values are uint64; an update wraps as the source's `+ 1` does.
pub mod Rounds
mod Tests
pub mod Order
pub mod Merge
pub mod Update
use vaporcito.Base.{
  ℕ, ◌+◌, ◌%◌, ◌^◌, List, [], ◌∷◌, Bool, true, false, ◌||◌, ltb, leb, ◌==◌, if◌then◌else◌,
}

pub record Counter : Type 0 where
  pub id : ℕ
  pub value : ℕ

pub record Vector : Type 0 where
  pub counters : List Counter

-- `max` of two uint64.
unfoldable pub max_value : ℕ → ℕ → ℕ
max_value a b = if ltb b a then a else b

pub update_loop : List Counter → ℕ → ℕ → List Counter
unfolding max_value
update_loop [] id now = record { id = id; value = max_value 1 now } ∷ []
update_loop (c ∷ cs) id now =
    if c.id == id
    then record c { value = max_value ((c.value + 1) % 2 ^ 64) now } ∷ cs
    else if ltb id c.id
    then record { id = id; value = max_value 1 now } ∷ c ∷ cs
    else c ∷ update_loop cs id now

unfoldable pub update_with_now : Vector → ℕ → ℕ → Vector
unfolding update_loop
update_with_now v id now = record { counters = update_loop v.counters id now }

-- One round of the loop of `Merge` keeps, raises or inserts the counter at `vi`, then moves on.
pub merge_loop : List Counter → List Counter → List Counter
merge_loop v [] = v
merge_loop [] (y ∷ b) = y ∷ b
merge_loop (x ∷ v) (y ∷ b) =
    let insert = y ∷ merge_loop (x ∷ v) b in
    let raise =
      (if ltb x.value y.value then record x { value = y.value } else x) ∷ merge_loop v b in
    let keep = x ∷ merge_loop v (y ∷ b) in
    if ltb y.id x.id then insert else if x.id == y.id then raise else keep

unfoldable pub merge : Vector → Vector → Vector
unfolding merge_loop
merge v b = record { counters = merge_loop v.counters b.counters }

unfoldable pub copy : Vector → Vector
copy v = record { counters = v.counters }

pub counter_loop : List Counter → ℕ → ℕ
counter_loop [] id = 0
counter_loop (c ∷ cs) id = if c.id == id then c.value else counter_loop cs id

unfoldable pub counter : Vector → ℕ → ℕ
unfolding counter_loop
counter v id = counter_loop v.counters id

unfoldable pub is_empty : Vector → Bool
is_empty v = elim v.counters [ [] ↦ true | _ ↦ false ]

pub drop_others_loop : List Counter → ℕ → List Counter
drop_others_loop [] id = []
drop_others_loop (c ∷ cs) id = if c.id == id then c ∷ [] else drop_others_loop cs id

unfoldable pub drop_others : Vector → ℕ → Vector
unfolding drop_others_loop
drop_others v id = record { counters = drop_others_loop v.counters id }

pub data Ordering : Type 0 where
  equal greater lesser concurrent_lesser concurrent_greater : Ordering

abbrev pub is_lesser : Ordering → Bool
is_lesser lesser = true
is_lesser _ = false

abbrev pub is_greater : Ordering → Bool
is_greater greater = true
is_greater _ = false

abbrev pub is_equal : Ordering → Bool
is_equal equal = true
is_equal _ = false

-- What one round of `Compare` does: return at once, or go on with a new result.
pub data Verdict : Type 0 where
  returns : Ordering → Verdict
  goes_on : Ordering → Verdict

-- A counter of a is larger, or there on its side alone.
abbrev pub note_greater : Ordering → Verdict
note_greater result = if is_lesser result then returns concurrent_lesser else goes_on greater

abbrev pub note_lesser : Ordering → Verdict
note_lesser result = if is_greater result then returns concurrent_greater else goes_on lesser

-- The switch of `Compare` over the counters at both indexes.
unfoldable pub judge : Counter → Counter → Bool → Bool → Ordering → Verdict
judge av bv a_missing b_missing result =
    if av.id == bv.id
    then (if ltb bv.value av.value
        then note_greater result
        else if ltb av.value bv.value
        then note_lesser result
        else goes_on result)
    else if (if a_missing then false else ltb av.id bv.id) || b_missing
    then (if ltb 0 av.value then note_greater result else goes_on result)
    else if (if b_missing then false else ltb bv.id av.id) || a_missing
    then (if ltb 0 bv.value then note_lesser result else goes_on result)
    else goes_on result

abbrev pub proceed : Verdict → (Ordering → Ordering) → Ordering
proceed (returns r) k = r
proceed (goes_on r) k = k r

-- `Counter{}`, which stands for a missing counter.
abbrev pub zero_counter : Counter
zero_counter = record { id = 0; value = 0 }

pub compare_loop : List Counter → List Counter → Ordering → Ordering
compare_loop [] [] result = result
compare_loop (x ∷ a) [] result =
    proceed (judge x zero_counter false true result) λ r. compare_loop a [] r
compare_loop [] (y ∷ b) result =
    proceed (judge zero_counter y true false result) λ r. compare_loop [] b r
compare_loop (x ∷ a) (y ∷ b) result = proceed (judge x y false false result) λ r.
    let both = compare_loop a b r in
    let left = compare_loop a (y ∷ b) r in
    let right = compare_loop (x ∷ a) b r in
    if leb x.id y.id then (if leb y.id x.id then both else left) else right

unfoldable pub compare : Vector → Vector → Ordering
unfolding compare_loop
compare a b = compare_loop a.counters b.counters equal

unfoldable pub vector_equal : Vector → Vector → Bool
unfolding compare
vector_equal a b = is_equal (compare a b)

unfoldable pub lesser_equal : Vector → Vector → Bool
unfolding compare
lesser_equal a b = is_lesser (compare a b) || is_equal (compare a b)

unfoldable pub greater_equal : Vector → Vector → Bool
unfolding compare
greater_equal a b = is_greater (compare a b) || is_equal (compare a b)

abbrev pub is_concurrent : Ordering → Bool
is_concurrent concurrent_greater = true
is_concurrent concurrent_lesser = true
is_concurrent _ = false

unfoldable pub concurrent : Vector → Vector → Bool
unfolding compare
concurrent a b = is_concurrent (compare a b)
