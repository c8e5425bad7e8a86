-- ===== src/VersionList/Loss.antt =====
-- What one version of the list loses when a device is taken out of it.
use vaporcito.Base.{ℕ, ◌+◌, ◌≡◌, Bool, true, false, none, some, arith, if◌then◌else◌}
use vaporcito.Base.Bytes.{Bytes, bytes_equal}
use vaporcito.Vector.{Vector}
use vaporcito.VersionList.{FileVersion, device_index, remove_at, device_count}
use vaporcito.VersionList.Count.{
  tally, weigh, occurs-none, occurs-remove_at, length-remove_at, occurs-empty,
}

-- What one version loses when a device is taken out at a place where it was found.
pub weigh-valid :
    (w : Vector → Bool → Bool) (d d' : Bytes) (v : FileVersion) (j : ℕ)
    → device_index v.devices d ≡ some j
    → weigh w d' (record v { devices = remove_at v.devices j })
        + (if w v.version true then tally (bytes_equal d' d) else 0)
      ≡ weigh w d' v
unfolding weigh
weigh-valid w d d' v j e = ground (arith, occurs-remove_at d d' v.devices j e)

pub weigh-invalid :
    (w : Vector → Bool → Bool) (d d' : Bytes) (v : FileVersion) (j : ℕ)
    → device_index v.invalid_devices d ≡ some j
    → weigh w d' (record v { invalid_devices = remove_at v.invalid_devices j })
        + (if w v.version false then tally (bytes_equal d' d) else 0)
      ≡ weigh w d' v
unfolding weigh
weigh-invalid w d d' v j e = ground (arith, occurs-remove_at d d' v.invalid_devices j e)

-- A version with one device holds it at the place where it was found, and nothing else.
pub weigh_only_valid :
    (w : Vector → Bool → Bool) (d d' : Bytes) (v : FileVersion) (j : ℕ)
    → device_index v.devices d ≡ some j
    → device_count v ≡ 1
    → weigh w d' v ≡ (if w v.version true then tally (bytes_equal d' d) else 0)
unfolding weigh
weigh_only_valid w d d' v j e one =
    let l = length-remove_at d v.devices j e in
    ground (
      arith,
      occurs-remove_at d d' v.devices j e,
      occurs-empty d' (remove_at v.devices j) (omega arith),
      occurs-empty d' v.invalid_devices (omega arith),
    )

pub weigh_only_invalid :
    (w : Vector → Bool → Bool) (d d' : Bytes) (v : FileVersion) (j : ℕ)
    → device_index v.invalid_devices d ≡ some j
    → device_count v ≡ 1
    → weigh w d' v ≡ (if w v.version false then tally (bytes_equal d' d) else 0)
unfolding weigh
weigh_only_invalid w d d' v j e one =
    let l = length-remove_at d v.invalid_devices j e in
    ground (
      arith,
      occurs-remove_at d d' v.invalid_devices j e,
      occurs-empty d' (remove_at v.invalid_devices j) (omega arith),
      occurs-empty d' v.devices (omega arith),
    )

pub weigh-none :
    (w : Vector → Bool → Bool) (d : Bytes) (v : FileVersion)
    → device_index v.devices d ≡ none
    → device_index v.invalid_devices d ≡ none
    → weigh w d v ≡ 0
unfolding weigh
weigh-none w d v e e' =
    ground (arith, occurs-none d v.devices e, occurs-none d v.invalid_devices e')
