-- ===== src/Activity/Tests.antt =====
-- Runs of the choice of a device.
use vaporcito.Base.{List, [], ◌∷◌, true, false, some, ◌≡◌, refl}
use vaporcito.Base.Int.{◌+ℤ◌, ◌-ℤ◌}
use vaporcito.Base.Bytes.{Bytes, codes, bytes_equal}
use vaporcito.Base.Maps.{lookup, insert}
use vaporcito.Activity.{
  Availability, DeviceActivity, new_device_activity, usage_of, least_busy_loop, least_busy, using,
  done,
}
use vaporcito.Activity.Requests.{Reach, start, begins, ends, IsFewest, least_busy-IsFewest}

abbrev laptop : Availability
laptop = record { id = codes "laptop"; from_temporary = false }

abbrev phone : Availability
phone = record { id = codes "phone"; from_temporary = true }

-- Two requests to the laptop and one to the phone, of which the laptop's first one has ended.
abbrev busy : DeviceActivity
busy = done (using (using (using new_device_activity laptop) phone) laptop) laptop

abbrev held : List Bytes
held = phone.id ∷ laptop.id ∷ []

busy-Reach : Reach busy held
busy-Reach = ends [] held laptop (begins laptop (begins phone (begins laptop start)))

least_busy-IsFewest_example :
    IsFewest held (phone ∷ laptop ∷ []) (least_busy busy (phone ∷ laptop ∷ []))
least_busy-IsFewest_example = least_busy-IsFewest busy held (phone ∷ laptop ∷ []) busy-Reach

least_busy_run : least_busy (using busy phone) (phone ∷ laptop ∷ []) ≡ some 1
unfolding least_busy least_busy_loop using done usage_of lookup insert bytes_equal ◌+ℤ◌ ◌-ℤ◌
least_busy_run = refl
