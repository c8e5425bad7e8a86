-- ===== src/VersionList/Pop.antt =====
-- `pop` takes one occurrence of its device out of the list and touches no other device.
use vaporcito.Base.{
  ℕ, suc, ◌-◌, ◌≤◌, ◌≡◌, refl, ◌∙◌, ap, List, [], ◌∷◌, Bool, false, Option, none, some, arith, ◌==◌,
  if◌then◌else◌, Option-cases, inl, inr,
}
use vaporcito.Base.Bytes.{Bytes, bytes_equal, bytes_equal_refl}
use vaporcito.Vector.{Vector}
use vaporcito.VersionList.{
  FileVersion, device_index, remove_at, device_count, find_device, later, Place, pop_found, pop,
  first_place, find_global,
}
use vaporcito.VersionList.Count.{total, any_version, count, length-remove_at}
use vaporcito.VersionList.Loss.{
  weigh-valid, weigh-invalid, weigh_only_valid, weigh_only_invalid, weigh-none,
}

-- The list that `pop` leaves, by recursion on the list.
abbrev out_of :
    FileVersion → List FileVersion → Option ℕ → Option ℕ → List FileVersion → List FileVersion
out_of v vs (some j) k rest =
    if device_count v == 1 then vs else record v { devices = remove_at v.devices j } ∷ vs
out_of v vs none (some k) rest =
    if device_count v == 1
    then vs
    else record v { invalid_devices = remove_at v.invalid_devices k } ∷ vs
out_of v vs none none rest = v ∷ rest

take_out : List FileVersion → Bytes → List FileVersion
take_out [] d = []
take_out (v ∷ vs) d =
    out_of v vs (device_index v.devices d) (device_index v.invalid_devices d) (take_out vs d)

found_later :
    (v : FileVersion) (vs : List FileVersion) (g h : Option ℕ) (p : Place)
    → (pop_found (v ∷ vs) g (record p { at_version = suc p.at_version })).list
      ≡ v ∷ (pop_found vs h p).list
unfolding pop_found
found_later v vs g h p = ground arith

-- The list after `pop` does not depend on the global version.
abbrev left_by : List FileVersion → Option ℕ → Option Place → List FileVersion
left_by vs g none = vs
left_by vs g (some p) = (pop_found vs g p).list

left_by-later :
    (v : FileVersion) (vs : List FileVersion) (g h : Option ℕ) (p : Option Place)
    → left_by (v ∷ vs) g (later p) ≡ v ∷ left_by vs h p
left_by-later v vs g h none = refl
left_by-later v vs g h (some p) = found_later v vs g h p

left_by-out_of :
    (v : FileVersion) (vs rest : List FileVersion) (g : Option ℕ) (j k : Option ℕ)
    (p : Option Place)
    → left_by vs none p ≡ rest
    → left_by (v ∷ vs) g (first_place j k p) ≡ out_of v vs j k rest
left_by-out_of v vs rest g (some j) k p e = unfold pop_found in ground arith
left_by-out_of v vs rest g none (some k) p e = unfold pop_found in ground arith
left_by-out_of v vs rest g none none p e = left_by-later v vs g none p ∙ ap (◌∷◌ v) e

left_by-take_out :
    (vs : List FileVersion) (d : Bytes) (g : Option ℕ)
    → left_by vs g (find_device vs d) ≡ take_out vs d
unfolding take_out find_device
left_by-take_out [] d g = refl
left_by-take_out (v ∷ vs) d g =
    left_by-out_of v vs (take_out vs d) g (device_index v.devices d)
      (device_index v.invalid_devices d) (find_device vs d) (left_by-take_out vs d none)

pop-take_out : (vs : List FileVersion) (d : Bytes) → (pop vs d).list ≡ take_out vs d
unfolding pop
pop-take_out vs d = from (find_device vs d) refl ∙ left_by-take_out vs d (find_global vs)
  where
    from :
        (p : Option Place)
        → find_device vs d ≡ p
        → (pop vs d).list ≡ left_by vs (find_global vs) (find_device vs d)
    from none e = rw (e, pop)
    from (some p) e = rw (e, pop)

total-take_out_other :
    (w : Vector → Bool → Bool) (d d' : Bytes) (vs : List FileVersion)
    → bytes_equal d' d ≡ false
    → total w d' (take_out vs d) ≡ total w d' vs
unfolding take_out total
total-take_out_other w d d' [] h = refl
total-take_out_other w d d' (v ∷ vs) h = elim (Option-cases (device_index v.devices d)) [
  | inr (j, e) ↦ rw e (ground (arith, weigh_only_valid w d d' v j e, weigh-valid w d d' v j e))
  | inl e ↦ elim (Option-cases (device_index v.invalid_devices d)) [
    | inr (j, e') ↦
        rw (e, e') (ground (arith, weigh_only_invalid w d d' v j e', weigh-invalid w d d' v j e'))
    | inl e' ↦ rw (e, e') (omega (arith, total-take_out_other w d d' vs h))
  ]
]

count-take_out : (d : Bytes) (vs : List FileVersion) → count d (take_out vs d) ≡ count d vs - 1
unfolding take_out total
count-take_out d [] = refl
count-take_out d (v ∷ vs) = elim (Option-cases (device_index v.devices d)) [
  | inr (j, e) ↦ rw e (
      ground (
        arith,
        bytes_equal_refl d,
        weigh_only_valid any_version d d v j e,
        weigh-valid any_version d d v j e,
      ))
  | inl e ↦ elim (Option-cases (device_index v.invalid_devices d)) [
    | inr (j, e') ↦
        rw (e, e')
          (ground (
            arith,
            bytes_equal_refl d,
            weigh_only_invalid any_version d d v j e',
            weigh-invalid any_version d d v j e',
          ))
    | inl e' ↦ rw (e, e') (omega (arith, weigh-none any_version d v e e', count-take_out d vs))
  ]
]

-- `pop` takes exactly one occurrence of its device out of the list, if there is one.
pub count-pop : (d : Bytes) (vs : List FileVersion) → count d (pop vs d).list ≡ count d vs - 1
count-pop d vs = rw (pop-take_out vs d) (count-take_out d vs)

-- `pop` leaves every other device where it was: for any test on versions and validity, the device
-- occurs as often as before in what the test selects.
pub total-pop_other :
    (w : Vector → Bool → Bool) (d d' : Bytes) (vs : List FileVersion)
    → bytes_equal d' d ≡ false
    → total w d' (pop vs d).list ≡ total w d' vs
total-pop_other w d d' vs h = rw (pop-take_out vs d) (total-take_out_other w d d' vs h)

-- Every version of the list has a device.
abbrev pub Inhabited : List FileVersion → Type 0
Inhabited [] = Unit {0}
Inhabited (v ∷ vs) = (1 ≤ device_count v) × Inhabited vs

Inhabited-out_of :
    (v : FileVersion) (vs rest : List FileVersion) (d : Bytes) (j k : Option ℕ)
    → device_index v.devices d ≡ j
    → device_index v.invalid_devices d ≡ k
    → 1 ≤ device_count v
    → Inhabited vs
    → Inhabited rest
    → Inhabited (out_of v vs j k rest)
Inhabited-out_of v vs rest d (some j) k e e' one h r =
    ground (arith, length-remove_at d v.devices j e)
Inhabited-out_of v vs rest d none (some k) e e' one h r =
    ground (arith, length-remove_at d v.invalid_devices k e')
Inhabited-out_of v vs rest d none none e e' one h r = (one, r)

Inhabited-take_out : (d : Bytes) (vs : List FileVersion) → Inhabited vs → Inhabited (take_out vs d)
unfolding take_out
Inhabited-take_out d [] h = tt
Inhabited-take_out d (v ∷ vs) h =
    Inhabited-out_of v vs (take_out vs d) d (device_index v.devices d)
      (device_index v.invalid_devices d) refl refl h.0 h.1 (Inhabited-take_out d vs h.1)

-- `pop` leaves no version without a device.
pub Inhabited-pop : (d : Bytes) (vs : List FileVersion) → Inhabited vs → Inhabited (pop vs d).list
Inhabited-pop d vs h = rw (pop-take_out vs d) (Inhabited-take_out d vs h)
