-- ===== src/FileInfo/Times.antt =====
-- `ModTimeEqual` of two times.
use vaporcito.Base.{ℕ, ◌+◌, ◌-◌, ◌^◌, ◌≤◌, ◌<◌, ◌≡◌, ap, true, arith, if◌then◌else◌}
use vaporcito.Base.Int.{ℤ, pos, negsuc, sub_ℕ, pos_part, neg_part, ◌-ℤ◌, ltb_ℤ, ◌==ℤ◌, ==ℤ_comm}
use vaporcito.FileInfo.{saturate, magnitude, mod_time_equal}

-- Two times are less than 2^63 nanoseconds apart, so that `Time.Sub` does not saturate.
abbrev pub Near : ℤ → ℤ → Type 0
Near a b =
    (pos_part a + neg_part b < pos_part b + neg_part a + 2 ^ 63)
    × (pos_part b + neg_part a < pos_part a + neg_part b + 2 ^ 63)

-- How far two times are apart.
abbrev pub distance : ℤ → ℤ → ℕ
distance a b =
    pos_part a
    + neg_part b
    - (pos_part b + neg_part a)
    + (pos_part b + neg_part a - (pos_part a + neg_part b))

saturate_near : (x y : ℕ) → x < y + 2 ^ 63 → y < x + 2 ^ 63 → saturate (sub_ℕ x y) ≡ sub_ℕ x y
saturate_near x y h k = ground arith

magnitude_lem :
    (x y : ℕ) → x < y + 2 ^ 63 → y < x + 2 ^ 63 → magnitude (sub_ℕ x y) ≡ pos (x - y + (y - x))
unfolding magnitude ◌-ℤ◌
magnitude_lem x y h k = ground arith

magnitude-Near : (a b : ℤ) → Near a b → magnitude (saturate (a -ℤ b)) ≡ pos (distance a b)
unfolding ◌-ℤ◌
magnitude-Near a b near =
    let x = pos_part a + neg_part b in
    let y = neg_part a + pos_part b in
    rw
      (saturate_near x y (omega arith) (omega arith), magnitude_lem x y (omega arith) (omega arith))
      (ap pos (omega arith))

saturate_far : (x y : ℕ) → x + 2 ^ 63 ≤ y → saturate (sub_ℕ x y) ≡ negsuc (2 ^ 63 - 1)
saturate_far x y h = ground arith

mod_time_equal-Near :
    (a b window : ℤ)
    → Near a b
    → mod_time_equal a b window ≡ (if a ==ℤ b then true else ltb_ℤ (pos (distance a b)) window)
unfolding mod_time_equal
mod_time_equal-Near a b window near = rw (magnitude-Near a b near)

-- `ModTimeEqual` does not depend on the order of the two times, as long as they are less than 2^63
-- nanoseconds apart.
pub mod_time_equal_comm :
    (a b window : ℤ) → Near a b → mod_time_equal a b window ≡ mod_time_equal b a window
mod_time_equal_comm a b window near =
    let e : distance a b ≡ distance b a = omega arith in
    rw (
      mod_time_equal-Near a b window near,
      mod_time_equal-Near b a window (near.1, near.0),
      ==ℤ_comm a b,
      e,
    )

-- The bug: if the second time is 2^63 nanoseconds or more after the first, the difference saturates
-- at the smallest int64, whose negation is itself, and the times count as equal for every window
-- that is not negative.
pub mod_time_equal_overflows :
    (a b window : ℤ)
    → pos_part a + neg_part b + 2 ^ 63 ≤ pos_part b + neg_part a
    → neg_part window ≡ 0
    → mod_time_equal a b window ≡ true
unfolding mod_time_equal magnitude ◌-ℤ◌
mod_time_equal_overflows a b window far h =
    let x = pos_part a + neg_part b in
    let y = neg_part a + pos_part b in rw (saturate_far x y (omega arith)) (ground arith)
