-- ===== src/Activity/Requests.antt =====
-- The requests that are outstanding, and the choice of a device over any sequence of them: `using`,
-- `done` and `leastBusy` of back/lib/model/deviceactivity.go.
use vaporcito.Base.{
  ℕ, suc, ◌+◌, ◌≤◌, ◌<◌, List, [], ◌∷◌, ◌++◌, All, true, false, Option, none, some, get_elem?, take,
  ◌≡◌, inl, inr, refl, ap, subst, ◌∙◌, arith, Bool-cases, if◌then◌else◌,
}
use vaporcito.Base.Int.{ℤ, pos, ◌+ℤ◌, ◌-ℤ◌, ltb_ℤ}
use vaporcito.Base.Bytes.{Bytes, bytes_equal, bytes_equal_sound, bytes_equal_refl}
use vaporcito.Base.Maps.{lookup, insert, lookup-insert}
use vaporcito.Activity.{
  Availability, DeviceActivity, new_device_activity, usage_of, too_busy, least_busy, using, done,
}
use vaporcito.Activity.LeastBusy.{least_busy_loop_lem}

-- The requests to a device among those that are outstanding.
unfoldable pub outstanding : Bytes → List Bytes → ℕ
outstanding id [] = 0
outstanding id (x ∷ xs) = (if bytes_equal x id then 1 else 0) + outstanding id xs

-- Requests that start and end, and those that are outstanding.
pub data Reach : DeviceActivity → List Bytes → Type 0 where
  start : Reach new_device_activity []
  begins :
      {m : DeviceActivity} {held : List Bytes} (a : Availability)
      → Reach m held
      → Reach (using m a) (a.id ∷ held)
  ends :
      {m : DeviceActivity} (before after : List Bytes) (a : Availability)
      → Reach m (before ++ a.id ∷ after)
      → Reach (done m a) (before ++ after)

outstanding_one_more :
    (id x : Bytes) (before after : List Bytes)
    → bytes_equal x id ≡ true
    → outstanding id (before ++ x ∷ after) ≡ suc (outstanding id (before ++ after))
unfolding outstanding
outstanding_one_more id x [] after e = rw e (omega arith)
outstanding_one_more id x (y ∷ before) after e =
    omega (arith, outstanding_one_more id x before after e)

outstanding_other :
    (id x : Bytes) (before after : List Bytes)
    → bytes_equal x id ≡ false
    → outstanding id (before ++ x ∷ after) ≡ outstanding id (before ++ after)
unfolding outstanding
outstanding_other id x [] after e = rw e (omega arith)
outstanding_other id x (y ∷ before) after e = omega (arith, outstanding_other id x before after e)

usage_of-insert :
    (m : DeviceActivity) (set id : Bytes) (n : ℤ)
    → usage_of (insert set n m) id ≡ (if bytes_equal set id then n else usage_of m id)
unfolding usage_of
usage_of-insert m set id n =
    rw (lookup-insert set id n m)
      (elim (Bool-cases (bytes_equal set id)) [ inl e ↦ rw e refl | inr e ↦ rw e refl ])

one_more : (n : ℕ) → pos n +ℤ pos 1 ≡ pos (1 + n)
unfolding ◌+ℤ◌
one_more n = ground arith

one_less : (n : ℕ) → pos (suc n) -ℤ pos 1 ≡ pos n
unfolding ◌-ℤ◌
one_less n = ground arith

no_usage : (id : Bytes) → usage_of new_device_activity id ≡ pos 0
unfolding usage_of lookup
no_usage id = refl

-- The count of a device is that of its outstanding requests.
pub Reach-usage_of :
    {m : DeviceActivity} {held : List Bytes}
    → Reach m held
    → (id : Bytes) → usage_of m id ≡ pos (outstanding id held)
unfolding outstanding using done
Reach-usage_of start id = no_usage id
Reach-usage_of (begins {m = m} {held = held} a r) id =
    rw (usage_of-insert m a.id id (usage_of m a.id +ℤ pos 1))
      (elim (Bool-cases (bytes_equal a.id id)) [
        | inl e ↦
            rw (e, Reach-usage_of r a.id, bytes_equal_sound a.id id e)
              (one_more (outstanding id held))
        | inr e ↦ rw e (Reach-usage_of r id ∙ ap pos (omega arith))
      ])
Reach-usage_of (ends {m = m} before after a r) id =
    rw (usage_of-insert m a.id id (usage_of m a.id -ℤ pos 1))
      (elim (Bool-cases (bytes_equal a.id id)) [
        | inl e ↦
            rw
              (
                e,
                Reach-usage_of r a.id,
                bytes_equal_sound a.id id e,
                outstanding_one_more id id before after (bytes_equal_refl id),
              )
              (one_less (outstanding id (before ++ after)))
        | inr e ↦ rw e (Reach-usage_of r id ∙ ap pos (outstanding_other id a.id before after e))
      ])

All-map :
    {P Q : Availability → Type 0} (xs : List Availability)
    → ((a : Availability) → P a → Q a)
    → All P xs
    → All Q xs
All-map [] f h = tt
All-map (x ∷ xs) f h = (f x h.0, All-map xs f h.1)

-- A choice of the first of the devices with the fewest requests; none only if all have 2^31 - 1.
abbrev pub IsFewest : List Bytes → List Availability → Option ℕ → Type 0
IsFewest held availability none = All (λ b. 2147483647 ≤ outstanding b.id held) availability
IsFewest held availability (some i) =
    (a : Availability) × (get_elem? availability i ≡ some a)
    × (outstanding a.id held < 2147483647)
    × All (λ b. outstanding a.id held ≤ outstanding b.id held) availability
    × All (λ b. outstanding a.id held < outstanding b.id held) (take i availability)

below_counts : (x y : ℤ) (i j : ℕ) → x ≡ pos i → y ≡ pos j → ltb_ℤ x y ≡ true → i < j
below_counts x y i j e f h =
    let t = subst (λ y. ltb_ℤ (pos i) y ≡ true) f (subst (λ x. ltb_ℤ x y ≡ true) e h) in
    ground arith

not_below_counts : (x y : ℤ) (i j : ℕ) → x ≡ pos i → y ≡ pos j → ltb_ℤ x y ≡ false → j ≤ i
not_below_counts x y i j e f h =
    let t = subst (λ y. ltb_ℤ (pos i) y ≡ false) f (subst (λ x. ltb_ℤ x y ≡ false) e h) in
    ground arith

-- Over any requests that start and end, `leastBusy` chooses the first of the devices with the fewest
-- outstanding ones, if they are fewer than 2^31 - 1, and none if no device has fewer.
pub least_busy-IsFewest :
    (m : DeviceActivity) (held : List Bytes) (availability : List Availability)
    → Reach m held
    → IsFewest held availability (least_busy m availability)
unfolding least_busy
least_busy-IsFewest m held availability r =
    let count : (id : Bytes) → usage_of m id ≡ pos (outstanding id held) = Reach-usage_of r in
    elim (least_busy_loop_lem m 0 too_busy none availability) [
      | inl (e, none_better) ↦
          rw e
            (All-map availability (λ b h. not_below_counts _ _ _ _ (count b.id) refl h) none_better)
      | inr (k, a, e, at, lt, least, first) ↦
          rw (e ∙ ap some (let z : 0 + k ≡ k = omega arith in z)) (
            a,
            at,
            below_counts _ _ _ _ (count a.id) refl lt,
            All-map availability (λ b h. not_below_counts _ _ _ _ (count b.id) (count a.id) h)
                least,
            All-map (take k availability) (λ b h. below_counts _ _ _ _ (count a.id) (count b.id) h)
                first,
          )
    ]
