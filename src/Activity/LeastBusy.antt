-- ===== src/Activity/LeastBusy.antt =====
-- The device that is chosen has the fewest requests outstanding: `leastBusy`, `using` and `done` of
-- back/lib/model/deviceactivity.go.
use vaporcito.Base.{
  ℕ, suc, ◌+◌, List, [], ◌∷◌, All, true, false, Option, some, get_elem?, take, ◌≡◌, ◌⊎◌, inl, inr,
  refl, ap, arith, Bool-cases,
}
use vaporcito.Base.Int.{ℤ, ltb_ℤ}
use vaporcito.Activity.{Availability, DeviceActivity, usage_of, least_busy_loop}

-- What the loop answers for a suffix: the best one so far, or a better one in the suffix.
abbrev Better : DeviceActivity → ℕ → ℤ → List Availability → Option ℕ → Type 0
Better m i low availability r =
    (k : ℕ) × (a : Availability) × (r ≡ some (i + k))
    × (get_elem? availability k ≡ some a)
    × (ltb_ℤ (usage_of m a.id) low ≡ true)
    × All (λ b. ltb_ℤ (usage_of m b.id) (usage_of m a.id) ≡ false) availability
    × All (λ b. ltb_ℤ (usage_of m a.id) (usage_of m b.id) ≡ true) (take k availability)

abbrev NoBetter : DeviceActivity → ℤ → List Availability → Type 0
NoBetter m low availability = All (λ b. ltb_ℤ (usage_of m b.id) low ≡ false) availability

not_below : (x y z : ℤ) → ltb_ℤ x y ≡ true → ltb_ℤ z y ≡ false → ltb_ℤ z x ≡ false
not_below x y z h k = ground arith

above : (x y z : ℤ) → ltb_ℤ x y ≡ true → ltb_ℤ z y ≡ false → ltb_ℤ x z ≡ true
above x y z h k = ground arith

below_trans : (x y z : ℤ) → ltb_ℤ x y ≡ true → ltb_ℤ y z ≡ true → ltb_ℤ x z ≡ true
below_trans x y z h k = ground arith

not_below_self : (x : ℤ) → ltb_ℤ x x ≡ false
not_below_self x = ground arith

below_not_above : (x y : ℤ) → ltb_ℤ x y ≡ true → ltb_ℤ y x ≡ false
below_not_above x y h = ground arith

pub least_busy_loop_lem :
    (m : DeviceActivity) (i : ℕ) (low : ℤ) (best : Option ℕ) (availability : List Availability)
    → ((least_busy_loop m i low best availability ≡ best) × NoBetter m low availability)
      ⊎ Better m i low availability (least_busy_loop m i low best availability)
unfolding least_busy_loop
least_busy_loop_lem m i low best [] = inl (refl, tt)
least_busy_loop_lem m i low best (a ∷ rest) =
    let u = usage_of m a.id in
    elim (Bool-cases (ltb_ℤ u low)) [
      | inl h ↦ elim (least_busy_loop_lem m (suc i) u (some i) rest) [
        | inl (e, none_better) ↦
            inr (
              0,
              a,
              rw (h, e) (ap some (omega arith)),
              refl,
              h,
              (not_below_self u, none_better),
              tt,
            )
        | inr (k, b, e, at, lt, least, first) ↦ inr (
          suc k,
          b,
          rw (h, e) (ap some (omega arith)),
          at,
          below_trans (usage_of m b.id) u low lt h,
          (below_not_above (usage_of m b.id) u lt, least),
          (lt, first),
        )
      ]
      | inr h ↦ elim (least_busy_loop_lem m (suc i) low best rest) [
        | inl (e, none_better) ↦ inl (rw (h, e) refl, (h, none_better))
        | inr (k, b, e, at, lt, least, first) ↦ inr (
          suc k,
          b,
          rw (h, e) (ap some (omega arith)),
          at,
          lt,
          (not_below (usage_of m b.id) low u lt h, least),
          (above (usage_of m b.id) low u lt h, first),
        )
      ]
    ]
