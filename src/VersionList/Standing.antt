-- ===== src/VersionList/Standing.antt =====
-- The version under which a device stands: `Get` and `findDevice` of back/lib/db/structs.go.
use vaporcito.Base.{
  ℕ, ◌≤◌, ◌==◌, List, [], ◌∷◌, Bool, true, false, ◌&&◌, not, Option, none, some, ◌≡◌, ◌≢◌, refl,
  sym, ap, ◌∙◌, arith, Option-cases, inl, inr,
}
use vaporcito.Base.Bytes.{Bytes, bytes_equal, bytes_equal_refl}
use vaporcito.Vector.{Counter, Vector}
use vaporcito.FileInfo.{FileInfo}
use vaporcito.VersionList.{
  FileVersion, VersionList, device_index, find_device, later, Place, version_at, at_place, get,
  Lookup, Updated, update,
}
use vaporcito.VersionList.Count.{tally, occurs, weigh, total, count, any_version, occurs-remove_at}
use vaporcito.VersionList.Loss.{weigh-none}
use vaporcito.VersionList.Update.{total-le-count, total-update_other}

abbrev standing : (Vector → Bool → Bool) → List FileVersion → Option Place → ℕ
standing w vs none = 0
standing w vs (some p) = tally (w (version_at vs p.at_version).version (not p.invalid))

standing-later :
    (w : Vector → Bool → Bool) (v : FileVersion) (vs : List FileVersion) (o : Option Place)
    → standing w (v ∷ vs) (later o) ≡ standing w vs o
standing-later w v vs none = refl
standing-later w v vs (some p) = refl

occurs-found : (d : Bytes) (ds : List Bytes) (j : ℕ) → device_index ds d ≡ some j → 1 ≤ occurs d ds
occurs-found d ds j h =
    let r = occurs-remove_at d d ds j h in let e = bytes_equal_refl d in ground arith

-- What a test selects of a device that stands in the list once.
total-standing :
    (w : Vector → Bool → Bool) (d : Bytes) (vs : List FileVersion)
    → count d vs ≤ 1
    → total w d vs ≡ standing w vs (find_device vs d)
unfolding total weigh find_device
total-standing w d [] h = refl
total-standing w d (v ∷ vs) h = elim (Option-cases (device_index v.devices d)) [
  | inr (j, e) ↦
      (let one = occurs-found d v.devices j e in
        let rest = total-le-count w d vs in rw e (ground arith))
  | inl e ↦ elim (Option-cases (device_index v.invalid_devices d)) [
    | inr (k, e') ↦
        (let one = occurs-found d v.invalid_devices k e' in
          let rest = total-le-count w d vs in rw (e, e') (ground arith))
    | inl e' ↦
        (let nothing = weigh-none w d v e e' in
          let later = total-standing w d vs (omega arith) in
          rw (e, e', standing-later w v vs (find_device vs d)) (omega arith))
  ]
]

-- An exact test for a vector.
same_counters : List Counter → List Counter → Bool
same_counters [] [] = true
same_counters (a ∷ xs) (b ∷ ys) = (a.id == b.id) && (a.value == b.value) && same_counters xs ys
same_counters _ _ = false

same_counters_refl : (xs : List Counter) → same_counters xs xs ≡ true
unfolding same_counters
same_counters_refl [] = refl
same_counters_refl (a ∷ xs) = ground (arith, same_counters_refl xs)

same_counters_sound : (xs ys : List Counter) → same_counters xs ys ≡ true → xs ≡ ys
unfolding same_counters
same_counters_sound [] [] h = refl
same_counters_sound [] (b ∷ ys) h = cc
same_counters_sound (a ∷ xs) [] h = cc
same_counters_sound (a ∷ xs) (b ∷ ys) h =
    let i : a.id ≡ b.id = ground arith in
    let v : a.value ≡ b.value = ground arith in
    let rest = same_counters_sound xs ys (ground arith) in rw (i, v, rest) refl

-- The version of what `Get` answers.
abbrev pub version_got : Option FileVersion → Option Vector
version_got none = none
version_got (some fv) = some fv.version

abbrev placed : List FileVersion → Option Place → Option Vector
placed vs none = none
placed vs (some p) = some (version_at vs p.at_version).version

version_got-get :
    (vl : VersionList) (d : Bytes)
    → version_got (get vl d) ≡ placed vl.raw_versions (find_device vl.raw_versions d)
unfolding get
version_got-get vl d = from vl.raw_versions (find_device vl.raw_versions d)
  where
    from : (vs : List FileVersion) (o : Option Place) → version_got (at_place vs o) ≡ placed vs o
    from vs none = refl
    from vs (some p) = refl

zero_one : (n : ℕ) → n ≡ 0 → n ≢ 1
zero_one n z h = omega arith

same_placed :
    (vs ws : List FileVersion) (o p : Option Place)
    → ((w : Vector → Bool → Bool) → standing w vs o ≡ standing w ws p)
    → placed vs o ≡ placed ws p
same_placed vs ws none none h = refl
same_placed vs ws none (some p) h = absurd (zero_one 0 refl (h any_version))
same_placed vs ws (some o) none h = absurd (zero_one 0 refl (sym (h any_version)))
same_placed vs ws (some o) (some p) h =
    let v = (version_at vs o.at_version).version in
    let w = (version_at ws p.at_version).version in
    let e = h (λ x b. same_counters v.counters x.counters) in
    ap some (
      ap (λ c. record { counters = c })
        (same_counters_sound v.counters w.counters (ground (arith, same_counters_refl v.counters))))

-- An update of one device leaves the version that every other device has, if these stand in the
-- list once.
pub version_got-update_other :
    (get_file : Bytes → Bytes → Bytes → Lookup) (folder : Bytes) (vl : VersionList)
    (device other : Bytes) (file : FileInfo) (u : Updated)
    → bytes_equal other device ≡ false
    → count other vl.raw_versions ≤ 1
    → (update get_file folder vl device file).1 ≡ some u
    → version_got (get (update get_file folder vl device file).0 other) ≡ version_got (get vl other)
version_got-update_other get_file folder vl device other file u apart once h =
    let new = (update get_file folder vl device file).0 in
    let same = λ (w : Vector → Bool → Bool).
      total-update_other get_file folder w vl device other file u apart h in
    version_got-get new other
    ∙ same_placed new.raw_versions vl.raw_versions _ _ (λ w.
      sym (total-standing w other new.raw_versions (omega (arith, same any_version, once)))
      ∙ same w
      ∙ total-standing w other vl.raw_versions once)
    ∙ sym (version_got-get vl other)
