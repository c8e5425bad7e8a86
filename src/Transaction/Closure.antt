-- ===== src/Transaction/Closure.antt =====
-- What `updateGlobal` and `removeFromGlobal` of back/lib/db/transactions.go keep, from what each of
-- their changes keeps.
use vaporcito.Base.{
  List, [], ◌∷◌, Bool, true, false, not, Option, none, some, ◌≡◌, Bool-cases, either, inl, inr,
}
use vaporcito.Base.Bytes.{Bytes, bytes_equal}
use vaporcito.DeviceId.{local_device_id, global_device_id}
use vaporcito.FileInfo.{FileInfo}
use vaporcito.Meta.{MetadataTracker, add_file, remove_file, add_needed, remove_needed}
use vaporcito.VersionList.{
  FileVersion, VersionList, get, get_global, empty, Popped, Lookup, Updated, update,
  version_or_none,
}
use vaporcito.Transaction.State.{
  Entry, Run, ends, errs, needs, needed_old, is_there, update_local_need, with_meta, end_need,
  loading,
}
use vaporcito.Transaction.Update.{
  change_need, change_local_need, change_needs, change_all_needs, end_own_need, begin_own_need,
  had_need, has_need, list_or_empty, with_new_global, with_old_global, with_own_need, after_update,
  update_global,
}
use vaporcito.Transaction.Remove.{
  begins_need, should_remove_need, drop_needs, drop_all_needs, left_over, without_old_global,
  with_removed_need,
}

-- A predicate that every change to an entry other than one of its list keeps.
pub record Closed (P : Entry → Type 0) : Type 0 where
  pub ending :
      (s : Entry) (dev : Bytes) (f : FileInfo) → P s → P (with_meta s (remove_needed s.meta dev f))
  pub beginning :
      (s : Entry) (dev : Bytes) (f : FileInfo) → P s → P (with_meta s (add_needed s.meta dev f))
  pub uncounting :
      (s : Entry) (dev : Bytes) (f : FileInfo) → P s → P (with_meta s (remove_file s.meta dev f))
  pub counting :
      (s : Entry) (dev : Bytes) (f : FileInfo) → P s → P (with_meta s (add_file s.meta dev f))
  pub writing : (s : Entry) (b : Bool) → P s → P (update_local_need b s)

-- A predicate that every change of a need keeps.
pub record ClosedNeeds (P : Entry → Type 0) : Type 0 where
  pub ending :
      (s : Entry) (dev : Bytes) (f : FileInfo) → P s → P (with_meta s (remove_needed s.meta dev f))
  pub beginning :
      (s : Entry) (dev : Bytes) (f : FileInfo) → P s → P (with_meta s (add_needed s.meta dev f))
  pub writing : (s : Entry) (b : Bool) → P s → P (update_local_need b s)

closed_needs : {P : Entry → Type 0} → Closed P → ClosedNeeds P
closed_needs closed = record {
  ending = closed.ending;
  beginning = closed.beginning;
  writing = closed.writing;
}

-- What holds at the end of a run, or of the tracker after an error.
abbrev pub After : (Entry → Type 0) → (MetadataTracker → Type 0) → Run Entry → Type 0
After P Q (ends s) = P s
After P Q (errs m) = Q m

module _ (P : Entry → Type 0) (closed : ClosedNeeds P) where
  end_need-keeps :
      (dev : Bytes) (old : Option (FileVersion × FileInfo)) (s : Entry)
      → P s
      → P (end_need dev old s)
  end_need-keeps dev none s r = r
  end_need-keeps dev (some (fv, f)) s r = closed.ending s dev f r

  change_need-keeps :
      (dev : Bytes) (old : Option (FileVersion × FileInfo)) (new : FileVersion) (f : FileInfo)
      (fv : Option FileVersion) (s : Entry)
      → P s
      → P (change_need dev old new f fv s)
  change_need-keeps dev old new f fv s r =
      let ended =
        either P (needed_old old (is_there fv) (version_or_none fv).version)
          (end_need-keeps dev old s r) r in
      either P (needs new fv) (closed.beginning _ dev f ended) ended

  change_local_need-keeps :
      (old : Option (FileVersion × FileInfo)) (new : FileVersion) (f : FileInfo)
      (fv : Option FileVersion) (s : Entry)
      → P s
      → P (change_local_need old new f fv s)
  change_local_need-keeps old new f fv s r =
      let c = change_need-keeps local_device_id old new f fv s r in
      either P _ (closed.writing _ false c) (either P _ (closed.writing _ true c) c)

  change_needs-keeps :
      (device : Bytes) (old : Option (FileVersion × FileInfo)) (new : FileVersion) (f : FileInfo)
      (vl : VersionList) (devs : List Bytes) (s : Entry)
      → P s
      → P (change_needs device old new f vl devs s)
  unfolding change_needs
  change_needs-keeps device old new f vl [] s r = r
  change_needs-keeps device old new f vl (dev ∷ devs) s r =
      change_needs-keeps device old new f vl devs _
        (either P (bytes_equal dev device) r (change_need-keeps dev old new f (get vl dev) s r))

  pub change_all_needs-keeps :
      (device : Bytes) (old : Option (FileVersion × FileInfo)) (new : FileVersion) (f : FileInfo)
      (vl : VersionList) (s : Entry)
      → P s
      → P (change_all_needs device old new f vl s)
  unfolding change_all_needs
  change_all_needs-keeps device old new f vl s r = change_needs-keeps device old new f vl _ _ (
      either P (not (bytes_equal device local_device_id))
        (change_local_need-keeps old new f (get vl local_device_id) s r) r)

  pub end_own_need-keeps :
      (device : Bytes) (now : Bool) (f : FileInfo) (s : Entry)
      → P s
      → P (end_own_need device now f s)
  end_own_need-keeps device now f s r =
      let e = closed.ending s device f r in either P _ (closed.writing _ false e) e

  pub begin_own_need-keeps :
      (device : Bytes) (before : Bool) (f : FileInfo) (s : Entry)
      → P s
      → P (begin_own_need device before f s)
  begin_own_need-keeps device before f s r =
      let e = closed.beginning s device f r in either P _ (closed.writing _ true e) e

  drop_needs-keeps :
      (device : Bytes) (old : FileVersion) (f : FileInfo) (vl : VersionList) (devs : List Bytes)
      (s : Entry)
      → P s
      → P (drop_needs device old f vl devs s)
  unfolding drop_needs
  drop_needs-keeps device old f vl [] s r = r
  drop_needs-keeps device old f vl (dev ∷ devs) s r = drop_needs-keeps device old f vl devs _ (
      either P (bytes_equal dev device) r (
        either P (should_remove_need old (get_global vl) (get vl dev)) (closed.ending s dev f r) r))

  pub drop_all_needs-keeps :
      (device : Bytes) (old : FileVersion) (f : FileInfo) (vl : VersionList) (s : Entry)
      → P s
      → P (drop_all_needs device old f vl s)
  unfolding drop_all_needs
  drop_all_needs-keeps device old f vl s r = drop_needs-keeps device old f vl _ _ (
      either P (should_remove_need old (get_global vl) (get vl local_device_id))
        (closed.writing _ false (closed.ending s local_device_id f r)) r)

module _ (P : Entry → Type 0) (Q : MetadataTracker → Type 0) (closed : Closed P)
    (fails : (s : Entry) → P s → Q s.meta) where
  loading-After :
      (R : Entry → Type 0) (s : Entry) (o : Option FileInfo) (go : FileInfo → Run Entry)
      → P s
      → ((f : FileInfo) → After R Q (go f))
      → After R Q (loading s o go)
  unfolding loading
  loading-After R s none go r h = fails s r
  loading-After R s (some f) go r h = h f

  module _ (get_file : Bytes → Bytes → Bytes → Lookup) (folder : Bytes) where
    with_new_global-After :
        (device : Bytes) (file : FileInfo) (u : Updated) (vl : VersionList)
        (old : Option (FileVersion × FileInfo)) (got : Option FileInfo) (s : Entry)
        → P s
        → After P Q (with_new_global get_file folder device file u vl old got s)
    with_new_global-After device file u vl old got s r = loading-After P s _ _ r λ f.
        change_all_needs-keeps P (closed_needs closed) device old u.new_version f vl _
          (closed.counting s global_device_id f r)

    with_old_global-After :
        (device : Bytes) (file : FileInfo) (u : Updated) (vl : VersionList)
        (got_old got : Option FileInfo) (s : Entry)
        → P s
        → After P Q (with_old_global get_file folder device file u vl got_old got s)
    with_old_global-After device file u vl got_old got s r =
        either (After P Q) (not u.global_changed) r (
          either (After P Q) u.have_old_global
            (loading-After P s _ _ r λ f.
              with_new_global-After device file u vl _ got _
                (closed.uncounting s global_device_id f r))
            (with_new_global-After device file u vl none got s r))

    with_own_need-After :
        (device : Bytes) (file : FileInfo) (u : Updated) (vl : VersionList)
        (got_old : Option FileInfo) (s : Entry)
        → P s
        → After P Q (with_own_need get_file folder device file u vl got_old s)
    with_own_need-After device file u vl got_old s r =
        either (After P Q) (has_need u file)
          (loading-After P s _ _ r λ f.
            with_old_global-After device file u vl got_old (some f) _
              (begin_own_need-keeps P (closed_needs closed) device (had_need u) f s r))
          (with_old_global-After device file u vl got_old none s r)

    after_update-After :
        (device : Bytes) (file : FileInfo) (s : Entry) (r : VersionList × Option Updated)
        → P (record s { list = some r.0 })
        → Q s.meta
        → After P Q (after_update get_file folder device file s r)
    after_update-After device file s (vl, none) p q = q
    after_update-After device file s (vl, some u) p q =
        either (After P Q) (had_need u)
          (loading-After P _ _ _ p λ f.
            with_own_need-After device file u vl (some f) _
              (end_own_need-keeps P (closed_needs closed) device (has_need u file) f _ p))
          (with_own_need-After device file u vl none _ p)

    -- An update, from the entry with the new list.
    pub update_global-After :
        (device : Bytes) (file : FileInfo) (s : Entry)
        → P (record s { list = some (update get_file folder (list_or_empty s.list) device file).0 })
        → Q s.meta
        → After P Q (update_global get_file folder device file s)
    unfolding update_global
    update_global-After device file s p q = after_update-After device file s _ p q

    -- A removal, up to the point at which the list is written.
    module _ (R : Entry → Type 0) (vl : VersionList)
        (gone : (s : Entry) → empty vl ≡ true → P s → R (record s { list = none }))
        (put : (s : Entry) → empty vl ≡ false → P s → R (record s { list = some vl })) where
      left_over-After :
          (name : Bytes) (got : Option FileInfo) (s : Entry)
          → P s
          → After R Q (left_over get_file folder name vl got s)
      left_over-After name got s r = elim (Bool-cases (empty vl)) [
        | inl e ↦ rw e (gone s e r)
        | inr e ↦
            rw e (loading-After R s _ _ r λ f. put _ e (closed.counting s global_device_id f r))
      ]

      without_old_global-After :
          (device name : Bytes) (old : FileVersion) (popped : Popped) (got : Option FileInfo)
          (s : Entry)
          → (popped.global_changed ≡ false → empty vl ≡ false)
          → P s
          → After R Q (without_old_global get_file folder device name old popped vl got s)
      without_old_global-After device name old popped got s full r =
          elim (Bool-cases popped.global_changed) [
            | inl e ↦ rw e (
                loading-After R s _ _ r λ f. left_over-After name got _ (
                  drop_all_needs-keeps P (closed_needs closed) device old f vl _
                    (closed.uncounting s global_device_id f r)))
            | inr e ↦ rw e (put s (full e) r)
          ]

      pub with_removed_need-After :
          (device name : Bytes) (old : FileVersion) (popped : Popped) (s : Entry)
          → (popped.global_changed ≡ false → empty vl ≡ false)
          → P s
          → After R Q (with_removed_need get_file folder device name old popped vl s)
      with_removed_need-After device name old popped s full r =
          either (After R Q) (begins_need old popped (get_global vl))
            (loading-After R s _ _ r λ f.
              without_old_global-After device name old popped (some f) _ full
                (begin_own_need-keeps P (closed_needs closed) device false f s r))
            (without_old_global-After device name old popped none s full r)
