-- ===== src/Activity.antt =====
-- How many requests each device has outstanding: back/lib/model/deviceactivity.go. The counts stay
-- within int. An index of -1 is none.
pub mod LeastBusy
pub mod Requests
mod Tests
use vaporcito.Base.{ℕ, zero, suc, List, [], ◌∷◌, Bool, Option, none, some, if◌then◌else◌}
use vaporcito.Base.Int.{ℤ, pos, ◌+ℤ◌, ◌-ℤ◌, ltb_ℤ}
use vaporcito.Base.Bytes.{Bytes}
use vaporcito.Base.Maps.{Map, lookup, insert}

pub record Availability : Type 0 where
  pub id : Bytes
  pub from_temporary : Bool

-- The map `act`.
abbrev pub DeviceActivity : Type 0
DeviceActivity = Map ℤ

abbrev pub new_device_activity : DeviceActivity
new_device_activity = []

-- A key that is missing reads as zero.
abbrev pub or_zero : Option ℤ → ℤ
or_zero none = pos 0
or_zero (some n) = n

unfoldable pub usage_of : DeviceActivity → Bytes → ℤ
usage_of m id = or_zero (lookup id m)

-- `2<<30 - 1`, which is 2^31 - 1.
abbrev pub too_busy : ℤ
too_busy = pos 2147483647

-- The loop of `leastBusy` from index `i` on.
unfoldable pub least_busy_loop : DeviceActivity → ℕ → ℤ → Option ℕ → List Availability → Option ℕ
least_busy_loop m i low best [] = best
least_busy_loop m i low best (a ∷ availability) =
    let usage = usage_of m a.id in
    let better = ltb_ℤ usage low in
    least_busy_loop m (suc i) (if better then usage else low) (if better then some i else best)
      availability

unfoldable pub least_busy : DeviceActivity → List Availability → Option ℕ
least_busy m availability = least_busy_loop m 0 too_busy none availability

unfoldable pub using : DeviceActivity → Availability → DeviceActivity
using m a = insert a.id (usage_of m a.id +ℤ pos 1) m

unfoldable pub done : DeviceActivity → Availability → DeviceActivity
done m a = insert a.id (usage_of m a.id -ℤ pos 1) m
