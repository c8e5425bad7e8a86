-- ===== src/Transaction/Ends.antt =====
-- When `updateGlobal` and `removeFromGlobal` of back/lib/db/transactions.go do not fail.
use vaporcito.Base.{
  ◌≤◌, List, Bool-cases, inl, inr, true, not, Option, none, some, ◌≡◌, ◌≢◌, refl, sym, subst, ap,
  ◌∙◌, either, either_if, and_left, Option-cases, inl, inr,
}
use vaporcito.Base.Bytes.{Bytes, bytes_equal, bytes_equal_sound}
use vaporcito.Vector.{vector_equal}
use vaporcito.FileInfo.{FileInfo}
use vaporcito.VersionList.{
  FileVersion, VersionList, get_global, empty, is_nil, Popped, pop, Lookup, found, failed, Updated,
  update, version_or_none,
}
use vaporcito.VersionList.Pop.{Inhabited}
use vaporcito.VersionList.Update.{update_failed, count-pop-le, total-update_other}
use vaporcito.VersionList.Count.{count, any_version}
use vaporcito.VersionList.Last.{get_global-device, get_global-full, update-Tells}
use vaporcito.Transaction.State.{
  Entry, Run, ends, errs, loading, got_or, get_global_from_file_version,
  get_global_from_version_list,
}
use vaporcito.Transaction.Update.{
  list_or_empty, had_need, has_need, with_new_global, with_old_global, with_own_need, after_update,
  update_global,
}
use vaporcito.Transaction.Remove.{
  begins_need, left_over, without_old_global, with_removed_need, remove_from_list, remove_at_key,
  remove_from_global,
}
use vaporcito.Transaction.Steps.{Kept, KeptList, list_or_empty-Kept, update-Kept, pop-Kept}

-- The run does not fail.
abbrev pub Ends : Run Entry → Type 0
Ends (ends s) = Unit
Ends (errs m) = ⊥

found_failed : (f : FileInfo) → found f ≢ failed
found_failed f h = cc

module _ (get_file : Bytes → Bytes → Bytes → Lookup) (folder : Bytes) where
  -- The file of a version can be loaded.
  abbrev Loads : Bytes → FileVersion → Type 0
  Loads name fv = (f : FileInfo) × (get_global_from_file_version get_file folder name fv ≡ some f)

  -- The database has the file of every device of the list.
  abbrev pub HasFiles : Bytes → List FileVersion → Type 0
  HasFiles name vs =
      (d : Bytes) → 1 ≤ count d vs → (f : FileInfo) × (get_file folder d name ≡ found f)

  loading-Ends :
      (s : Entry) (got load : Option FileInfo) (go : FileInfo → Run Entry)
      → (f : FileInfo) × (load ≡ some f)
      → ((f : FileInfo) → Ends (go f))
      → Ends (loading s (got_or got load) go)
  unfolding loading
  loading-Ends s (some f) load go h k = k f
  loading-Ends s none (some f) go h k = k f
  loading-Ends s none none go (f, h) k = absurd (cc)

  Loads-global :
      (name : Bytes) (vl : VersionList) (fv : FileVersion)
      → HasFiles name vl.raw_versions
      → Inhabited vl.raw_versions
      → get_global vl ≡ some fv
      → Loads name fv
  unfolding get_global_from_file_version
  Loads-global name vl fv has h g =
      let (d, c, e) = get_global-device vl fv h g in let (f, k) = has d c in (f, rw (e, k) refl)

  with_new_global-Ends :
      (device : Bytes) (file : FileInfo) (u : Updated) (vl : VersionList)
      (old : Option (FileVersion × FileInfo)) (got : Option FileInfo) (s : Entry)
      → Loads file.name u.new_version
      → Ends (with_new_global get_file folder device file u vl old got s)
  with_new_global-Ends device file u vl old got s new =
      loading-Ends s got _ _
        (either (λ o. (f : FileInfo) × (o ≡ some f))
          (vector_equal u.new_version.version file.version) (file, refl) new)
        (λ f. tt)

  with_old_global-Ends :
      (device : Bytes) (file : FileInfo) (u : Updated) (vl : VersionList)
      (got_old got : Option FileInfo) (s : Entry)
      → Loads file.name u.new_version
      → (u.have_old_global ≡ true → Loads file.name u.old_version)
      → Ends (with_old_global get_file folder device file u vl got_old got s)
  with_old_global-Ends device file u vl got_old got s new old =
      either Ends (not u.global_changed) tt (
        either_if Ends u.have_old_global
          (λ e.
            loading-Ends s got_old _ _ (old e)
              (λ f. with_new_global-Ends device file u vl _ got _ new))
          (λ e. with_new_global-Ends device file u vl none got s new))

  with_own_need-Ends :
      (device : Bytes) (file : FileInfo) (u : Updated) (vl : VersionList)
      (got_old : Option FileInfo) (s : Entry)
      → Loads file.name u.new_version
      → (u.have_old_global ≡ true → Loads file.name u.old_version)
      → Ends (with_own_need get_file folder device file u vl got_old s)
  with_own_need-Ends device file u vl got_old s new old =
      either Ends (has_need u file)
        (loading-Ends s none _ _ new
          (λ f. with_old_global-Ends device file u vl got_old (some f) _ new old))
        (with_old_global-Ends device file u vl got_old none s new old)

  after_update-Ends :
      (device : Bytes) (file : FileInfo) (s : Entry) (vl : VersionList) (u : Updated)
      → Loads file.name u.new_version
      → (u.have_old_global ≡ true → Loads file.name u.old_version)
      → Ends (after_update get_file folder device file s (vl, some u))
  after_update-Ends device file s vl u new old =
      either_if Ends (had_need u)
        (λ e.
          loading-Ends _ none _ _ (old (and_left _ _ e))
            (λ f. with_own_need-Ends device file u vl (some f) _ new old))
        (λ e. with_own_need-Ends device file u vl none _ new old)

  -- What the database has for the devices of a list and for the one that is updated, it has for those
  -- of the new list.
  update-HasFiles :
      (device : Bytes) (file : FileInfo) (vl : VersionList) (u : Updated)
      → HasFiles file.name vl.raw_versions
      → (f : FileInfo) × (get_file folder device file.name ≡ found f)
      → (update get_file folder vl device file).1 ≡ some u
      → HasFiles file.name (update get_file folder vl device file).0.raw_versions
  update-HasFiles device file vl u has own h d c = elim (Bool-cases (bytes_equal d device)) [
    | inl e ↦ rw (bytes_equal_sound d device e) own
    | inr e ↦ has d (
        subst (λ n. 1 ≤ n) (total-update_other get_file folder any_version vl device d file u e h)
          c)
  ]

  -- The results of a version list's update can be loaded.
  updated_Loads :
      (device : Bytes) (file : FileInfo) (vl : VersionList) (u : Updated)
      → HasFiles file.name vl.raw_versions
      → (f : FileInfo) × (get_file folder device file.name ≡ found f)
      → Kept vl.raw_versions
      → (update get_file folder vl device file).1 ≡ some u
      → Loads file.name u.new_version × (u.have_old_global ≡ true → Loads file.name u.old_version)
  updated_Loads device file vl u has own k h =
      let new = (update get_file folder vl device file).0 in
      let kept = update-Kept get_file folder device file vl u k h in
      let told = update-Tells get_file folder vl device file u h in
      let (fv, g) = get_global-full new kept.0 in
      (
        subst (Loads file.name) (sym (told.0 ∙ ap version_or_none g)) (
            Loads-global file.name new fv (update-HasFiles device file vl u has own h)
              kept.1.inhabited g),
        λ e. Loads-global file.name vl u.old_version has k.inhabited (told.1 e),
      )

  pub update_succeeds :
      (device : Bytes) (file : FileInfo) (vl : VersionList)
      → HasFiles file.name vl.raw_versions
      → Inhabited vl.raw_versions
      → (u : Updated) × ((update get_file folder vl device file).1 ≡ some u)
  update_succeeds device file vl has k =
      elim (Option-cases (update get_file folder vl device file).1) [
        | inr p ↦ p
        | inl e ↦
            (let (d, c, g) = update_failed get_file folder vl device file k e in
              let (f, l) = has d c in absurd (found_failed f (sym l ∙ g)))
      ]

  -- If the list is well kept and the database has the file of every device that stands in the list
  -- and of the device that is updated, then an update does not fail.
  pub update_global-Ends :
      (device : Bytes) (file : FileInfo) (s : Entry)
      → KeptList s.list
      → HasFiles file.name (list_or_empty s.list).raw_versions
      → (f : FileInfo) × (get_file folder device file.name ≡ found f)
      → Ends (update_global get_file folder device file s)
  unfolding update_global
  update_global-Ends device file s k has own =
      let vl = list_or_empty s.list in
      let kept = list_or_empty-Kept s.list k in
      let (u, h) = update_succeeds device file vl has kept.inhabited in
      let (new, old) = updated_Loads device file vl u has own kept h in
      subst
        (λ o. Ends (
          after_update get_file folder device file s
            ((update get_file folder vl device file).0, o)))
        (sym h) (after_update-Ends device file s _ u new old)

  Loads-list :
      (name : Bytes) (vl : VersionList) (fv : FileVersion)
      → HasFiles name vl.raw_versions
      → Inhabited vl.raw_versions
      → get_global vl ≡ some fv
      → (f : FileInfo) × (get_global_from_version_list get_file folder name vl ≡ some f)
  unfolding get_global_from_version_list
  Loads-list name vl fv has h g = let (f, e) = Loads-global name vl fv has h g in (f, rw g e)

  -- A removal's new list.
  module _ (name : Bytes) (vl : VersionList) (has : HasFiles name vl.raw_versions)
      (h : Inhabited vl.raw_versions) where
    left_over-Ends :
        (got : Option FileInfo) (s : Entry) → Ends (left_over get_file folder name vl got s)
    unfolding empty
    left_over-Ends got s =
        either_if Ends (is_nil vl.raw_versions) (λ e. tt)
          (λ e.
            let (fv, g) = get_global-full vl e in
            loading-Ends s got _ _ (Loads-list name vl fv has h g) (λ f. tt))

    without_old_global-Ends :
        (device : Bytes) (old : FileVersion) (popped : Popped) (got : Option FileInfo) (s : Entry)
        → Loads name old
        → Ends (without_old_global get_file folder device name old popped vl got s)
    without_old_global-Ends device old popped got s loads =
        either Ends (not popped.global_changed) tt
          (loading-Ends s none _ _ loads (λ f. left_over-Ends got _))

    begins_need_global :
        (old : FileVersion) (popped : Popped) (new : Option FileVersion)
        → begins_need old popped new ≡ true
        → (fv : FileVersion) × (new ≡ some fv)
    begins_need_global old popped none e = cc
    begins_need_global old popped (some fv) e = (fv, refl)

    with_removed_need-Ends :
        (device : Bytes) (old : FileVersion) (popped : Popped) (s : Entry)
        → Loads name old
        → Ends (with_removed_need get_file folder device name old popped vl s)
    with_removed_need-Ends device old popped s loads =
        either_if Ends (begins_need old popped (get_global vl))
          (λ e.
            let (fv, g) = begins_need_global old popped (get_global vl) e in
            loading-Ends s none _ _ (Loads-list name vl fv has h g)
              (λ f. without_old_global-Ends device old popped (some f) _ loads))
          (λ e. without_old_global-Ends device old popped none s loads)

  remove_from_list-Ends :
      (device name : Bytes) (vl : VersionList) (s : Entry)
      → Kept vl.raw_versions
      → HasFiles name vl.raw_versions
      → (g : Option FileVersion) → get_global vl ≡ g
      → Ends (remove_from_list get_file folder device name vl g s)
  remove_from_list-Ends device name vl s k has none g = tt
  remove_from_list-Ends device name vl s k has (some old) g =
      either Ends (not (pop vl.raw_versions device).found) tt (
        with_removed_need-Ends name (record { raw_versions = (pop vl.raw_versions device).list })
          (λ d c. has d (count-pop-le d device vl.raw_versions c))
          (pop-Kept device vl.raw_versions k).inhabited device old (pop vl.raw_versions device) s
          (Loads-global name vl old has k.inhabited g))

  -- If the list is well kept and the database has the file of every device that stands in the list,
  -- then a removal does not fail.
  pub remove_from_global-Ends :
      (device name : Bytes) (s : Entry)
      → KeptList s.list
      → HasFiles name (list_or_empty s.list).raw_versions
      → Ends (remove_from_global get_file folder device name s)
  unfolding remove_from_global
  remove_from_global-Ends device name s k has = from s.list k has
    where
      from :
          (l : Option VersionList)
          → KeptList l
          → HasFiles name (list_or_empty l).raw_versions
          → Ends (remove_at_key get_file folder device name l s)
      from none k has = tt
      from (some vl) k has = remove_from_list-Ends device name vl s k.1 has (get_global vl) refl
