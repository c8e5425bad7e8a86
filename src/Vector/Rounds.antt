-- ===== src/Vector/Rounds.antt =====
-- One round of the loop of `Compare`, and what an ordered list of counters holds.
use vaporcito.Base.{
  ℕ, suc, ◌≤◌, ◌<◌, ◌≡◌, refl, List, [], ◌∷◌, true, false, arith, ltb, if◌then◌else◌,
}
use vaporcito.Vector.{
  Counter, Vector, counter_loop, Ordering, note_greater, note_lesser, Verdict, goes_on, judge,
  proceed, zero_counter, compare_loop,
}

-- Identifiers rise strictly along the list and start at the bound or above it.
abbrev pub Rises : ℕ → List Counter → Type 0
Rises n [] = Unit {0}
Rises n (c ∷ cs) = (n ≤ c.id) × Rises (suc c.id) cs

abbrev pub IsSorted : Vector → Type 0
IsSorted v = Rises 0 v.counters

pub Rises-mono : {m n : ℕ} (cs : List Counter) → m ≤ n → Rises n cs → Rises m cs
Rises-mono [] h r = tt
Rises-mono (c ∷ cs) h r = (omega arith, r.1)

-- An identifier below all that the list holds counts as zero.
pub counter_below : (n id : ℕ) (cs : List Counter) → Rises n cs → id < n → counter_loop cs id ≡ 0
unfolding counter_loop
counter_below n id [] r h = refl
counter_below n id (c ∷ cs) r h = ground (arith, counter_below (suc c.id) id cs r.1)

-- Which of two counters the round compares, as `judge` does with the ids told apart.
abbrev pub judged : ℕ → ℕ → Ordering → Verdict
judged av bv result =
    if ltb bv av
    then note_greater result
    else if ltb av bv
    then note_lesser result
    else goes_on result

judge_left :
    (x z : Counter) (r : Ordering)
    → z.id ≡ 0
    → z.value ≡ 0
    → judge x z false true r ≡ judged x.value 0 r
unfolding judge
judge_left x z r h k = ground arith

judge_right :
    (y z : Counter) (r : Ordering)
    → z.id ≡ 0
    → z.value ≡ 0
    → judge z y true false r ≡ judged 0 y.value r
unfolding judge
judge_right y z r h k = ground arith

judge_below :
    (x y : Counter) (r : Ordering) → x.id < y.id → judge x y false false r ≡ judged x.value 0 r
unfolding judge
judge_below x y r h = ground arith

judge_above :
    (x y : Counter) (r : Ordering) → y.id < x.id → judge x y false false r ≡ judged 0 y.value r
unfolding judge
judge_above x y r h = ground arith

judge_same :
    (x y : Counter) (r : Ordering)
    → x.id ≡ y.id
    → judge x y false false r ≡ judged x.value y.value r
unfolding judge
judge_same x y r h = ground arith

-- One round of the loop, in each of the five ways that it can go.
pub compare_left :
    (x : Counter) (a : List Counter) (r : Ordering)
    → compare_loop (x ∷ a) [] r ≡ proceed (judged x.value 0 r) (λ s. compare_loop a [] s)
unfolding compare_loop
compare_left x a r = rw (judge_left x zero_counter r refl refl)

pub compare_right :
    (y : Counter) (b : List Counter) (r : Ordering)
    → compare_loop [] (y ∷ b) r ≡ proceed (judged 0 y.value r) (λ s. compare_loop [] b s)
unfolding compare_loop
compare_right y b r = rw (judge_right y zero_counter r refl refl)

-- The list that the round leaves on either side goes on with the result so far.
module _ (x y : Counter) (a b : List Counter) (r : Ordering) where
  pub compare_below :
      x.id < y.id
      → compare_loop (x ∷ a) (y ∷ b) r
        ≡ proceed (judged x.value 0 r) (λ s. compare_loop a (y ∷ b) s)
  unfolding compare_loop
  compare_below h = ground (arith, judge_below x y r h)

  pub compare_above :
      y.id < x.id
      → compare_loop (x ∷ a) (y ∷ b) r
        ≡ proceed (judged 0 y.value r) (λ s. compare_loop (x ∷ a) b s)
  unfolding compare_loop
  compare_above h = ground (arith, judge_above x y r h)

  pub compare_same :
      x.id ≡ y.id
      → compare_loop (x ∷ a) (y ∷ b) r
        ≡ proceed (judged x.value y.value r) (λ s. compare_loop a b s)
  unfolding compare_loop
  compare_same h = ground (arith, judge_same x y r h)
