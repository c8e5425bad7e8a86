-- ===== src/VersionList/Insert.antt =====
-- `insert` and `update` put the device in one place, with the file's version, and move no other.
use mathlib.Core.Option.{some-injective}
use vaporcito.Base.{
  ℕ, ◌+◌, ◌≤◌, ◌≡◌, refl, sym, subst, length, ◌⊎◌, List, [], ◌∷◌, Bool, true, not, Option, none,
  some, arith, length-append, if◌then◌else◌, inl, inr,
}
use vaporcito.Base.Bytes.{Bytes, bytes_equal, bytes_equal_refl}
use vaporcito.Vector.{
  Vector, Ordering, equal, greater, lesser, concurrent_lesser, concurrent_greater, compare,
  vector_equal,
}
use vaporcito.FileInfo.{FileInfo, is_invalid}
use vaporcito.VersionList.{
  FileVersion, Lookup, found, missing, failed, conflict_insert, Inserted, fails, passes, adds,
  join_version, version_of, new_file_version, go_on, should_insert_before, check_insert_at, insert,
  device_count, first_device, device_or_nil, version_invalid,
}
use vaporcito.VersionList.Count.{tally, occurs, weigh, total, occurs-append, any_version, count}
use vaporcito.VersionList.Pop.{Inhabited}

-- What the new entry adds.
abbrev pub gain : (Vector → Bool → Bool) → Bytes → Bytes → FileInfo → ℕ
gain w d' device file =
    if w file.version (not (is_invalid file)) then tally (bytes_equal d' device) else 0

-- What the new entry adds is the same under every version that is `Equal` to the file's.
abbrev pub Settled : (Vector → Bool → Bool) → Bytes → Bytes → FileInfo → Type 0
Settled w d' device file =
    (u : Vector)
    → vector_equal u file.version ≡ true
    → (if w u (not (is_invalid file)) then tally (bytes_equal d' device) else 0)
      ≡ gain w d' device file

weigh-version_of :
    (w : Vector → Bool → Bool) (d' device : Bytes) (file : FileInfo)
    → weigh w d' (version_of device file) ≡ gain w d' device file
unfolding weigh new_file_version occurs
weigh-version_of w d' device file = ground arith

weigh-join_version :
    (w : Vector → Bool → Bool) (d' device : Bytes) (v : FileVersion) (file : FileInfo)
    → (if w v.version (not (is_invalid file)) then tally (bytes_equal d' device) else 0)
      ≡ gain w d' device file
    → weigh w d' (join_version v device file) ≡ weigh w d' v + gain w d' device file
unfolding weigh join_version
weigh-join_version w d' device v file h =
    ground (arith, occurs-append d' device v.devices, occurs-append d' device v.invalid_devices)

version_of-count : (device : Bytes) (file : FileInfo) → device_count (version_of device file) ≡ 1
unfolding new_file_version
version_of-count device file = ground arith

count-join_version :
    (v : FileVersion) (device : Bytes) (file : FileInfo)
    → device_count (join_version v device file) ≡ device_count v + 1
unfolding join_version
count-join_version v device file =
    ground
      (arith, length-append v.devices (device ∷ []), length-append v.invalid_devices (device ∷ []))

-- How the loop of `insert` can come to a new list.
went_on :
    (v : FileVersion) (c : Inserted) (rest : Option (List FileVersion)) {l : List FileVersion}
    → go_on v c rest ≡ some l
    → (c ≡ adds l) ⊎ ((m : List FileVersion) × (c ≡ passes) × (rest ≡ some m) × (l ≡ v ∷ m))
went_on v fails rest e = cc
went_on v (adds m) rest e = inl (cc)
went_on v passes none e = cc
went_on v passes (some m) e = inr (m, refl, refl, cc)

-- A database error can come from the check at one version alone.
failed_check :
    (v : FileVersion) (c : Inserted) (rest : Option (List FileVersion))
    → go_on v c rest ≡ none
    → (c ≡ fails) ⊎ ((c ≡ passes) × (rest ≡ none))
failed_check v fails rest e = inl refl
failed_check v (adds m) rest e = cc
failed_check v passes none e = inr (refl, refl)
failed_check v passes (some m) e = cc

-- A version that has a device has a first one.
pub first_device-some :
    (v : FileVersion) → 1 ≤ device_count v → (d : Bytes) × (first_device v ≡ some d)
unfolding first_device
first_device-some v h = from v.devices v.invalid_devices h
  where
    from :
        (ds is : List Bytes)
        → 1 ≤ length ds + length is
        → (d : Bytes) × (elim ds [ d ∷ ds ↦ some d | [] ↦ elim is [ d ∷ ds ↦ some d | [] ↦ none ] ]
            ≡ some d)
    from (d ∷ ds) is h = (d, refl)
    from [] (d ∷ is) h = (d, refl)
    from [] [] h = absurd (omega arith)

first_occurs : (d e : Bytes) (ds : List Bytes) → d ≡ e → 1 ≤ occurs d (e ∷ ds)
unfolding occurs
first_occurs d e ds h = rw (h, bytes_equal_refl e) (omega arith)

-- The first device of a version stands in it.
pub weigh-first_device :
    (v : FileVersion) (d : Bytes) → first_device v ≡ some d → 1 ≤ weigh any_version d v
unfolding first_device weigh
weigh-first_device v d h = from v.devices v.invalid_devices h
  where
    from :
        (ds is : List Bytes)
        → elim ds [ d ∷ ds ↦ some d | [] ↦ elim is [ d ∷ ds ↦ some d | [] ↦ none ] ] ≡ some d
        → 1 ≤ occurs d ds + occurs d is
    from (e ∷ ds) is h = omega (arith, first_occurs d e ds (sym (some-injective e d h)))
    from [] (e ∷ is) h = omega (arith, first_occurs d e is (sym (some-injective e d h)))
    from [] [] h = cc

module _ (get_file : Bytes → Bytes → Bytes → Lookup) (folder : Bytes) where
  -- What the check at one version can do, and what it adds.
  total-check :
      (w : Vector → Bool → Bool) (d' device : Bytes) (v : FileVersion) (vs l : List FileVersion)
      (file : FileInfo)
      → Settled w d' device file
      → check_insert_at get_file folder v vs device file ≡ adds l
      → total w d' l ≡ total w d' (v ∷ vs) + gain w d' device file
  unfolding check_insert_at total vector_equal
  total-check w d' device v vs l file r h =
      ground (
        arith,
        weigh-join_version w d' device v file,
        weigh-version_of w d' device file,
        r v.version,
      )

  pub total-insert :
      (w : Vector → Bool → Bool) (d' device : Bytes) (vs l : List FileVersion) (file : FileInfo)
      → Settled w d' device file
      → insert get_file folder vs device file ≡ some l
      → total w d' l ≡ total w d' vs + gain w d' device file
  unfolding insert total
  total-insert w d' device [] l file r h = ground (arith, weigh-version_of w d' device file)
  total-insert w d' device (v ∷ vs) l file r h =
      elim (went_on v (check_insert_at get_file folder v vs device file) _ h) [
        | inl e ↦ total-check w d' device v vs l file r e
        | inr (m, e, f, g) ↦ rw g (omega (arith, total-insert w d' device vs m file r f))
      ]

  Inhabited-check :
      (device : Bytes) (v : FileVersion) (vs l : List FileVersion) (file : FileInfo)
      → Inhabited (v ∷ vs)
      → check_insert_at get_file folder v vs device file ≡ adds l
      → Inhabited l
  unfolding check_insert_at
  Inhabited-check device v vs l file h e =
      ground (arith, version_of-count device file, count-join_version v device file)

  pub Inhabited-insert :
      (device : Bytes) (vs l : List FileVersion) (file : FileInfo)
      → Inhabited vs
      → insert get_file folder vs device file ≡ some l
      → Inhabited l
  unfolding insert
  Inhabited-insert device [] l file h e = ground (arith, version_of-count device file)
  Inhabited-insert device (v ∷ vs) l file h e =
      elim (went_on v (check_insert_at get_file folder v vs device file) _ e) [
        | inl e' ↦ Inhabited-check device v vs l file h e'
        | inr (m, e', f, g) ↦ rw g (h.0, Inhabited-insert device vs m file h.1 f)
      ]

  -- The database failed to give the file of some device.
  abbrev pub Failure : FileInfo → Type 0
  Failure file = (d : Bytes) × (get_file folder d file.name ≡ failed)

  conflict-Failure :
      (d : Bytes) (file : FileInfo)
      → conflict_insert get_file folder d file ≡ none
      → get_file folder d file.name ≡ failed
  unfolding conflict_insert
  conflict-Failure d file h = from (get_file folder d file.name) refl
    where
      from : (o : Lookup) → get_file folder d file.name ≡ o → get_file folder d file.name ≡ failed
      from (found of) e = ground arith
      from missing e = ground arith
      from failed e = e

  should-Failure :
      (o : Ordering) (d : Bytes) (b : Bool) (file : FileInfo)
      → should_insert_before get_file folder o d b file ≡ none
      → get_file folder d file.name ≡ failed
  unfolding should_insert_before
  should-Failure lesser d b file h = cc
  should-Failure greater d b file h = cc
  should-Failure equal d b file h = cc
  should-Failure concurrent_lesser d b file h = conflict-Failure d file (ground arith)
  should-Failure concurrent_greater d b file h = conflict-Failure d file (ground arith)

  check-Failure :
      (device : Bytes) (v : FileVersion) (vs : List FileVersion) (file : FileInfo)
      → check_insert_at get_file folder v vs device file ≡ fails
      → get_file folder (device_or_nil (first_device v)) file.name ≡ failed
  unfolding check_insert_at
  check-Failure device v vs file h =
      should-Failure (compare v.version file.version) (device_or_nil (first_device v))
        (version_invalid v) file (ground arith)

  -- An insertion fails only where the database failed.
  pub insert-Failure :
      (device : Bytes) (vs : List FileVersion) (file : FileInfo)
      → insert get_file folder vs device file ≡ none
      → Failure file
  unfolding insert
  insert-Failure device [] file h = cc
  insert-Failure device (v ∷ vs) file h =
      elim (failed_check v (check_insert_at get_file folder v vs device file) _ h) [
        | inl e ↦ (_, check-Failure device v vs file e)
        | inr (e, f) ↦ insert-Failure device vs file f
      ]

  -- If every version has a device, an insertion fails only where the database failed to give the file
  -- of a device of the list.
  pub insert_failed :
      (device : Bytes) (vs : List FileVersion) (file : FileInfo)
      → Inhabited vs
      → insert get_file folder vs device file ≡ none
      → (d : Bytes) × (1 ≤ count d vs) × (get_file folder d file.name ≡ failed)
  unfolding insert total
  insert_failed device [] file k h = cc
  insert_failed device (v ∷ vs) file k h =
      elim (failed_check v (check_insert_at get_file folder v vs device file) _ h) [
        | inl e ↦
            (let (d, f) = first_device-some v k.0 in
              (
                d,
                omega (arith, weigh-first_device v d f),
                subst (λ o. get_file folder (device_or_nil o) file.name ≡ failed) f
                    (check-Failure device v vs file e),
              ))
        | inr (e, f) ↦ (let (d, c, g) = insert_failed device vs file k.1 f in (d, omega arith, g))
      ]
