-- ===== src/VersionList/Update.antt =====
-- `update` of a version list: the device's one new place, the other devices, and errors.
use vaporcito.Base.{
  ◌≤◌, ◌≡◌, refl, inl, inr, List, [], ◌∷◌, Bool, true, false, not, Option, none, some, arith,
  Option-cases, Bool-cases, subst,
}
use vaporcito.Base.Bytes.{Bytes, bytes_equal, bytes_equal_refl, bytes_equal_sound}
use vaporcito.Vector.{Vector, vector_equal}
use vaporcito.FileInfo.{FileInfo, is_invalid}
use vaporcito.VersionList.{
  FileVersion, VersionList, Lookup, failed, insert, update, Updated, later_update, Popped, pop,
  get_global,
}
use vaporcito.VersionList.Count.{tally, weigh, total, count, any_version}
use vaporcito.VersionList.Pop.{count-pop, total-pop_other, Inhabited, Inhabited-pop}
use vaporcito.VersionList.Insert.{
  Settled, total-insert, Inhabited-insert, Failure, insert-Failure, insert_failed,
}

pub total-le-count :
    (w : Vector → Bool → Bool) (d : Bytes) (vs : List FileVersion) → total w d vs ≤ count d vs
unfolding total weigh
total-le-count w d [] = omega arith
total-le-count w d (v ∷ vs) = ground (arith, total-le-count w d vs)

updated_some :
    (old : Option FileVersion) (p : Popped) (o : Option (List FileVersion)) (u : Updated)
    → (later_update old p o).1 ≡ some u
    → o ≡ some (later_update old p o).0.raw_versions
updated_some old p none u h = cc
updated_some old p (some l) u h = refl

updated_none :
    (old : Option FileVersion) (p : Popped) (o : Option (List FileVersion))
    → (later_update old p o).1 ≡ none
    → (o ≡ none) × ((later_update old p o).0.raw_versions ≡ p.list)
updated_none old p none h = (refl, refl)
updated_none old p (some l) h = cc

-- What stands in the list after `pop` stood in it before.
pub count-pop-le :
    (d device : Bytes) (vs : List FileVersion) → 1 ≤ count d (pop vs device).list → 1 ≤ count d vs
count-pop-le d device vs h = elim (Bool-cases (bytes_equal d device)) [
  | inl e ↦
      (let same = bytes_equal_sound d device e in
        let c : 1 ≤ count device (pop vs device).list =
          subst (λ x. 1 ≤ count x (pop vs device).list) same h in
        rw same (omega (arith, count-pop device vs)))
  | inr e ↦ subst (λ n. 1 ≤ n) (total-pop_other any_version device d vs e) h
]

module _ (get_file : Bytes → Bytes → Bytes → Lookup) (folder : Bytes) where
  -- An update that succeeds is a `pop` and an insertion, for the empty list too.
  by_insert :
      (vs : List FileVersion) (device : Bytes) (file : FileInfo) (u : Updated)
      → (update get_file folder (record { raw_versions = vs }) device file).1 ≡ some u
      → insert get_file folder (pop vs device).list device file
        ≡ some (update get_file folder (record { raw_versions = vs }) device file).0.raw_versions
  unfolding update
  by_insert [] device file u h = unfold insert pop in refl
  by_insert (v ∷ vs) device file u h =
      updated_some (get_global (record { raw_versions = v ∷ vs })) (pop (v ∷ vs) device)
        (insert get_file folder (pop (v ∷ vs) device).list device file) u h

  -- An update fails only where an insertion fails.
  by_failure :
      (vs : List FileVersion) (device : Bytes) (file : FileInfo)
      → (update get_file folder (record { raw_versions = vs }) device file).1 ≡ none
      → (insert get_file folder (pop vs device).list device file ≡ none)
        × ((update get_file folder (record { raw_versions = vs }) device file).0.raw_versions
            ≡ (pop vs device).list)
  unfolding update
  by_failure [] device file h = cc
  by_failure (v ∷ vs) device file h =
      updated_none (get_global (record { raw_versions = v ∷ vs })) (pop (v ∷ vs) device)
        (insert get_file folder (pop (v ∷ vs) device).list device file) h

  -- After a successful update of a list that holds the device at most once, the device stands in
  -- it once, under a version that is `Equal` to the file's, and as valid exactly if the file is.
  -- The count is taken by any test on versions and validity that agrees on `Equal` versions.
  pub total-update :
      (w : Vector → Bool → Bool) (vl : VersionList) (device : Bytes) (file : FileInfo) (u : Updated)
      → count device vl.raw_versions ≤ 1
      → ((v : Vector) (b : Bool) → vector_equal v file.version ≡ true → w v b ≡ w file.version b)
      → (update get_file folder vl device file).1 ≡ some u
      → total w device (update get_file folder vl device file).0.raw_versions
        ≡ tally (w file.version (not (is_invalid file)))
  total-update w vl device file u once agrees h =
      let left = (pop vl.raw_versions device).list in
      let settled : Settled w device device file =
        λ v e. ground (arith, agrees v (not (is_invalid file)) e) in
      let new =
        total-insert get_file folder w device device left _ file settled
          (by_insert vl.raw_versions device file u h) in
      ground (
        arith,
        new,
        bytes_equal_refl device,
        total-le-count w device left,
        count-pop device vl.raw_versions,
      )

  -- A successful update leaves every other device where it was: for any test on versions and
  -- validity, the device occurs as often as before in what the test selects.
  pub total-update_other :
      (w : Vector → Bool → Bool) (vl : VersionList) (device other : Bytes) (file : FileInfo)
      (u : Updated)
      → bytes_equal other device ≡ false
      → (update get_file folder vl device file).1 ≡ some u
      → total w other (update get_file folder vl device file).0.raw_versions
        ≡ total w other vl.raw_versions
  total-update_other w vl device other file u apart h =
      let left = (pop vl.raw_versions device).list in
      let settled : Settled w other device file = λ v e. ground arith in
      let new =
        total-insert get_file folder w other device left _ file settled
          (by_insert vl.raw_versions device file u h) in
      ground (arith, new, total-pop_other w device other vl.raw_versions apart)

  Inhabited-success :
      (vl : VersionList) (device : Bytes) (file : FileInfo) (u : Updated)
      → Inhabited vl.raw_versions
      → (update get_file folder vl device file).1 ≡ some u
      → Inhabited (update get_file folder vl device file).0.raw_versions
  Inhabited-success vl device file u h e =
      Inhabited-insert get_file folder device (pop vl.raw_versions device).list _ file
        (Inhabited-pop device vl.raw_versions h) (by_insert vl.raw_versions device file u e)

  -- An update, failed or not, leaves no version without a device.
  pub Inhabited-update :
      (vl : VersionList) (device : Bytes) (file : FileInfo)
      → Inhabited vl.raw_versions
      → Inhabited (update get_file folder vl device file).0.raw_versions
  Inhabited-update vl device file h =
      elim (Option-cases (update get_file folder vl device file).1) [
        | inr (u, e) ↦ Inhabited-success vl device file u h e
        | inl e ↦
            rw ((by_failure vl.raw_versions device file e).1)
              (Inhabited-pop device vl.raw_versions h)
      ]

  -- If the device stands in the list at most once, an update fails only if the database fails to give
  -- some device's file, and the list is then without the device that was to be updated.
  pub update-Failure :
      (vl : VersionList) (device : Bytes) (file : FileInfo)
      → count device vl.raw_versions ≤ 1
      → (update get_file folder vl device file).1 ≡ none
      → Failure get_file folder file
        × (count device (update get_file folder vl device file).0.raw_versions ≡ 0)
  update-Failure vl device file once h =
      let (e, left) = by_failure vl.raw_versions device file h in
      (
        insert-Failure get_file folder device (pop vl.raw_versions device).list file e,
        rw left (omega (arith, count-pop device vl.raw_versions, once)),
      )

  -- If every version has a device, an update fails only if the database fails to give the file of a
  -- device of the list.
  pub update_failed :
      (vl : VersionList) (device : Bytes) (file : FileInfo)
      → Inhabited vl.raw_versions
      → (update get_file folder vl device file).1 ≡ none
      → (d : Bytes) × (1 ≤ count d vl.raw_versions) × (get_file folder d file.name ≡ failed)
  update_failed vl device file k h =
      let (e, left) = by_failure vl.raw_versions device file h in
      let (d, c, f) =
        insert_failed get_file folder device (pop vl.raw_versions device).list file
          (Inhabited-pop device vl.raw_versions k) e in
      (d, count-pop-le d device vl.raw_versions c, f)
