-- ===== src/Transaction/LocalNeed.antt =====
-- That the key of the local need is right after `updateGlobal` of back/lib/db/transactions.go.
use vaporcito.Base.{
  ◌≤◌, [], Bool, true, false, ◌&&◌, Option, none, some, ◌≡◌, refl, sym, subst, ap, ◌∙◌, arith,
  if◌then◌else◌, Bool-cases, inl, inr,
}
use vaporcito.Base.Bytes.{Bytes, bytes_equal, bytes_equal_sound, bytes_equal_iff}
use vaporcito.DeviceId.{local_device_id}
use vaporcito.Vector.{Vector}
use vaporcito.FileInfo.{FileInfo}
use vaporcito.VersionList.{
  FileVersion, VersionList, get, get_global, Lookup, Updated, update, version_or_none,
}
use vaporcito.VersionList.Count.{count}
use vaporcito.VersionList.Last.{Was, update-Was, old_of, is_got, update-Tells, get_global-full}
use vaporcito.VersionList.Standing.{version_got, version_got-update_other}
use vaporcito.Transaction.State.{Entry, need, needs}
use vaporcito.Transaction.Update.{had_need, has_need, list_or_empty, after_update, update_global}
use vaporcito.Transaction.Steps.{KeptList, list_or_empty-Kept, update-Kept}
use vaporcito.Transaction.NeedKey.{
  HasNeed, after_change, after_change_right, had_local, changed_by, ended_by, begun_by,
  after_update-HasNeed,
}

-- `Need` of a global version, if there is one.
abbrev pub needed_of : Option FileVersion → Option FileVersion → Bool
needed_of none fv = false
needed_of (some g) fv = needs g fv

-- What `Need` says of the local device and a list.
abbrev pub locally_needed : VersionList → Bool
locally_needed vl = needed_of (get_global vl) (get vl local_device_id)

abbrev need_by : FileVersion → Option Vector → Bool
need_by g none = need g false (record { counters = [] })
need_by g (some v) = need g true v

needs-version_got :
    (g : FileVersion) (fv : Option FileVersion) → needs g fv ≡ need_by g (version_got fv)
needs-version_got g none = refl
needs-version_got g (some fv) = refl

-- `Need` looks at the version alone that the device has.
needed_of_same :
    (g a b : Option FileVersion) → version_got a ≡ version_got b → needed_of g a ≡ needed_of g b
needed_of_same none a b h = refl
needed_of_same (some g) a b h =
    needs-version_got g a ∙ ap (need_by g) h ∙ sym (needs-version_got g b)

had_local-needed_of :
    (u : Updated) (fv : Option FileVersion) → had_local u fv ≡ needed_of (old_of u) fv
had_local-needed_of u fv = elim (Bool-cases u.have_old_global) [
  | inl e ↦ simp e refl
  | inr e ↦ simp e refl
]

need_from :
    (old : FileVersion) (fv : Option FileVersion) (have : Bool) (v : FileVersion)
    → have ≡ is_got fv
    → v ≡ version_or_none fv
    → need old have v.version ≡ needs old fv
need_from old none have v h k = rw (h, k) refl
need_from old (some fv) have v h k = rw (h, k) refl

had_need-Was :
    (vl : VersionList) (device : Bytes) (u : Updated)
    → Was vl device u
    → had_need u ≡ needed_of (get_global vl) (get vl device)
had_need-Was vl device u w =
    ap (λ x. u.have_old_global && x)
      (need_from u.old_version (get vl device) u.have_removed u.removed w.had w.removed)
    ∙ had_local-needed_of u (get vl device)
    ∙ ap (λ g. needed_of g (get vl device)) w.global

own_key : (had has : Bool) → begun_by had has true (ended_by had has true had) ≡ has
own_key true true = refl
own_key true false = refl
own_key false true = refl
own_key false false = refl

other_key : (had has b : Bool) → begun_by had has false (ended_by had has false b) ≡ b
other_key true true b = refl
other_key true false b = refl
other_key false true b = refl
other_key false false b = refl

changed_by_own :
    (u : Updated) (vl : VersionList) (device : Bytes) (b : Bool)
    → bytes_equal device local_device_id ≡ true
    → changed_by u vl device b ≡ b
changed_by_own u vl device b h = elim (Bool-cases u.global_changed) [
  | inl e ↦ simp (e, h) refl
  | inr e ↦ simp (e, h) refl
]

-- The key that is right after an update: by the file, if it is the local device's, by the new list,
-- if the global version has changed, and as before otherwise.
abbrev pub right_need : Bytes → FileInfo → VersionList → VersionList → Updated → Bool
right_need device file old new u =
    if bytes_equal device local_device_id
    then has_need u file
    else if u.global_changed
    then locally_needed new
    else locally_needed old

module _ (get_file : Bytes → Bytes → Bytes → Lookup) (folder : Bytes) where
  -- The key after the change of the global version by another device.
  changed_by_other :
      (device : Bytes) (file : FileInfo) (vl : VersionList) (u : Updated) (b : Bool)
      → KeptList (some (update get_file folder vl device file).0)
      → count local_device_id vl.raw_versions ≤ 1
      → (update get_file folder vl device file).1 ≡ some u
      → bytes_equal device local_device_id ≡ false
      → bytes_equal local_device_id device ≡ false
      → b ≡ locally_needed vl
      → changed_by u (update get_file folder vl device file).0 device b ≡ (
          if u.global_changed
          then locally_needed (update get_file folder vl device file).0
          else locally_needed vl)
  changed_by_other device file vl u b kept once h apart apart' k =
      elim (Bool-cases u.global_changed) [
        | inr e ↦ simp e k
        | inl e ↦
            simp (e, apart)
              (ap (λ x. after_change (had_local u fv) (needs u.new_version fv) x) (k ∙ sym before)
                ∙ after_change_right (had_local u fv) (needs u.new_version fv)
                ∙ now)
      ]
    where
      new : VersionList
      new = (update get_file folder vl device file).0

      fv : Option FileVersion
      fv = get (update get_file folder vl device file).0 local_device_id

      before :
          had_local u (get (update get_file folder vl device file).0 local_device_id)
          ≡ locally_needed vl
      before =
          had_local-needed_of u (get (update get_file folder vl device file).0 local_device_id)
          ∙ ap (λ g. needed_of g (get (update get_file folder vl device file).0 local_device_id))
              ((update-Was get_file folder vl device file u h).global)
          ∙ needed_of_same (get_global vl) _ _ (
              version_got-update_other get_file folder vl device local_device_id file u apart' once
                h)

      now :
          needs u.new_version (get (update get_file folder vl device file).0 local_device_id)
          ≡ locally_needed (update get_file folder vl device file).0
      now =
          (let (g, e) = get_global-full (update get_file folder vl device file).0 kept.0 in
            ap (λ x. needs x (get (update get_file folder vl device file).0 local_device_id))
              ((update-Tells get_file folder vl device file u h).0 ∙ ap version_or_none e)
            ∙ ap (λ x. needed_of x (get (update get_file folder vl device file).0 local_device_id))
                (sym e))

  right_key :
      (device : Bytes) (file : FileInfo) (vl : VersionList) (u : Updated) (b : Bool)
      → KeptList (some (update get_file folder vl device file).0)
      → count local_device_id vl.raw_versions ≤ 1
      → (update get_file folder vl device file).1 ≡ some u
      → b ≡ locally_needed vl
      → changed_by u (update get_file folder vl device file).0 device (
          begun_by
            (had_need u)
            (has_need u file)
            (bytes_equal device local_device_id)
            (ended_by (had_need u) (has_need u file) (bytes_equal device local_device_id) b))
        ≡ right_need device file vl (update get_file folder vl device file).0 u
  right_key device file vl u b kept once h k =
      elim (Bool-cases (bytes_equal device local_device_id)) [
        | inl e ↦
            (let new = (update get_file folder vl device file).0 in
              let here = bytes_equal_sound device local_device_id e in
              let had : b ≡ had_need u =
                k
                ∙ sym (
                    had_need-Was vl local_device_id u (
                      subst (λ d. Was vl d u) here
                        (update-Was get_file folder vl device file u h))) in
              changed_by_own u new device _ e
              ∙ ap
                  (λ x.
                    begun_by (had_need u) (has_need u file) x
                      (ended_by (had_need u) (has_need u file) x b))
                  e
              ∙ ap
                  (λ x.
                    begun_by (had_need u) (has_need u file) true
                      (ended_by (had_need u) (has_need u file) true x))
                  had
              ∙ own_key (had_need u) (has_need u file)
              ∙ simp e refl)
        | inr e ↦
            (let new = (update get_file folder vl device file).0 in
              ap
                (λ x. changed_by u new device (
                  begun_by (had_need u) (has_need u file) x
                    (ended_by (had_need u) (has_need u file) x b)))
                e
              ∙ ap (changed_by u new device) (other_key (had_need u) (has_need u file) b)
              ∙ changed_by_other device file vl u b kept once h e
                  (ground (
                    arith,
                    bytes_equal_iff device local_device_id,
                    bytes_equal_iff local_device_id device,
                  ))
                  k
              ∙ simp e refl)
      ]

  -- If the list is well kept, the update of the version list succeeds, and the key of the local need
  -- was as `Need` says of the local device and the old list, then after an update that ends the key
  -- is as `Need` says: for the file, if it is the local device's; for the local device and the new
  -- list, if another device's file changes the global version; and as before otherwise.
  pub update_global-HasNeed :
      (device : Bytes) (file : FileInfo) (s : Entry) (u : Updated)
      → KeptList s.list
      → (update get_file folder (list_or_empty s.list) device file).1 ≡ some u
      → s.local_need ≡ locally_needed (list_or_empty s.list)
      → HasNeed
          (right_need device file
            (list_or_empty s.list)
            (update get_file folder (list_or_empty s.list) device file).0
            u)
          (update_global get_file folder device file s)
  unfolding update_global
  update_global-HasNeed device file s u k h b =
      let vl = list_or_empty s.list in
      let kept = list_or_empty-Kept s.list k in
      let new = (update get_file folder vl device file).0 in
      subst
        (λ x.
          HasNeed x
            (after_update get_file folder device file s (update get_file folder vl device file)))
        (right_key device file vl u s.local_need
          (update-Kept get_file folder device file vl u kept h) (kept.once local_device_id) h b)
        (subst
          (λ o.
            HasNeed
              (changed_by u new device (
                begun_by (had_need u) (has_need u file) (bytes_equal device local_device_id) (
                  ended_by (had_need u) (has_need u file) (bytes_equal device local_device_id)
                    s.local_need)))
              (after_update get_file folder device file s (new, o)))
          (sym h) (after_update-HasNeed get_file folder device file s new u))
