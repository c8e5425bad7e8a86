-- ===== src/Transaction/Globals.antt =====
-- How `updateGlobal` of back/lib/db/transactions.go counts the global version.
use vaporcito.Base.{
  Bool, true, false, not, Option, none, some, ◌≡◌, ◌⊎◌, refl, sym, ap, ◌∙◌, either, either_if,
  arith, inl, inr, if◌then◌else◌,
}
use vaporcito.Base.Bytes.{Bytes}
use vaporcito.DeviceId.{global_device_id}
use vaporcito.Vector.{vector_equal}
use vaporcito.FileInfo.{FileInfo}
use vaporcito.Meta.{MetadataTracker, add_file, remove_file, add_needed, remove_needed}
use vaporcito.VersionList.{FileVersion, VersionList, Lookup, Updated, update}
use vaporcito.Transaction.State.{
  Entry, Run, loading, got_or, get_global_from_file_version, with_meta,
}
use vaporcito.Transaction.Update.{
  list_or_empty, had_need, has_need, with_new_global, with_old_global, with_own_need, after_update,
  update_global,
}
use vaporcito.Transaction.Closure.{
  ClosedNeeds, After, change_all_needs-keeps, end_own_need-keeps, begin_own_need-keeps,
}

-- Needs begin and end, and nothing else is done to the tracker.
pub data NeedSteps (m : MetadataTracker) : MetadataTracker → Type 0 where
  stays : NeedSteps m m
  begins :
      {t : MetadataTracker} (dev : Bytes) (f : FileInfo)
      → NeedSteps m t
      → NeedSteps m (add_needed t dev f)
  ceases :
      {t : MetadataTracker} (dev : Bytes) (f : FileInfo)
      → NeedSteps m t
      → NeedSteps m (remove_needed t dev f)

-- An entry that has the list, and a tracker that differs by needs.
abbrev Needing : Option VersionList → MetadataTracker → Entry → Type 0
Needing l m s = (s.list ≡ l) × NeedSteps m s.meta

Needing-ClosedNeeds : (l : Option VersionList) (m : MetadataTracker) → ClosedNeeds (Needing l m)
Needing-ClosedNeeds l m = record {
  ending = λ s dev f p. (p.0, NeedSteps.ceases dev f p.1);
  beginning = λ s dev f p. (p.0, NeedSteps.begins dev f p.1);
  writing = λ s b p. p;
}

-- A file that is loaded already is the one that the database has.
abbrev Got : Option FileInfo → Option FileInfo → Type 0
Got load none = Unit
Got load (some f) = load ≡ some f

abbrev or_file : FileInfo → Option FileInfo → FileInfo
or_file file none = file
or_file file (some f) = f

not-true : (b : Bool) → not b ≡ true → b ≡ false
not-true b h = ground (arith, h)

not-false : (b : Bool) → not b ≡ false → b ≡ true
not-false b h = ground (arith, h)

abbrev pub Anything : MetadataTracker → Type 0
Anything m = Unit

Got-load :
    (got load : Option FileInfo) (f : FileInfo)
    → Got load got
    → got_or got load ≡ some f
    → load ≡ some f
Got-load none load f g h = h
Got-load (some x) load f g h = g ∙ h

loading-Loaded :
    (K : Entry → Type 0) (s : Entry) (o : Option FileInfo) (go : FileInfo → Run Entry)
    → ((f : FileInfo) → o ≡ some f → After K Anything (go f))
    → After K Anything (loading s o go)
unfolding loading
loading-Loaded K s none go h = tt
loading-Loaded K s (some f) go h = h f refl

module _ (get_file : Bytes → Bytes → Bytes → Lookup) (folder : Bytes) (file : FileInfo)
    (u : Updated) where
  abbrev load_old : Option FileInfo
  load_old = get_global_from_file_version get_file folder file.name u.old_version

  abbrev load_new : Option FileInfo
  load_new = get_global_from_file_version get_file folder file.name u.new_version

  -- The file of the new global version: the one of the update, if that has the version, or what the
  -- database has.
  abbrev pub IsNew : FileInfo → Type 0
  IsNew f =
      ((vector_equal u.new_version.version file.version ≡ true) × (file ≡ f)) ⊎ (load_new ≡ some f)

  -- The global version is counted once if it is new, and the old one, if there was one, is counted
  -- no longer; all else that is done to the tracker are needs.
  pub data Moved (m : MetadataTracker) : MetadataTracker → Type 0 where
    unmoved : {t : MetadataTracker} → u.global_changed ≡ false → NeedSteps m t → Moved m t
    first :
        {b t : MetadataTracker} (f : FileInfo)
        → u.global_changed ≡ true
        → u.have_old_global ≡ false
        → IsNew f
        → NeedSteps m b
        → NeedSteps (add_file b global_device_id f) t
        → Moved m t
    replaced :
        {b t : MetadataTracker} (old f : FileInfo)
        → u.global_changed ≡ true
        → u.have_old_global ≡ true
        → load_old ≡ some old
        → IsNew f
        → NeedSteps m b
        → NeedSteps (add_file (remove_file b global_device_id old) global_device_id f) t
        → Moved m t

  -- The entry of a list after the update.
  abbrev pub MovedTo : VersionList → MetadataTracker → Entry → Type 0
  MovedTo vl m t = (t.list ≡ some vl) × Moved m t.meta

  Got-IsNew :
      (got : Option FileInfo) (b : Bool) (f : FileInfo)
      → b ≡ vector_equal u.new_version.version file.version
      → Got load_new got
      → got_or got (if b then some file else load_new) ≡ some f
      → IsNew f
  Got-IsNew (some x) b f e g h = inr (g ∙ h)
  Got-IsNew none true f e g h = inl (sym e, ap (or_file file) h)
  Got-IsNew none false f e g h = inr h

  with_new_global-Moved :
      (device : Bytes) (vl : VersionList) (old : Option (FileVersion × FileInfo))
      (got : Option FileInfo) (s : Entry) (m : MetadataTracker)
      → s.list ≡ some vl
      → Got load_new got
      → ((f : FileInfo) (t : MetadataTracker)
          → IsNew f
          → NeedSteps (add_file s.meta global_device_id f) t
          → Moved m t)
      → After (MovedTo vl m) Anything (with_new_global get_file folder device file u vl old got s)
  with_new_global-Moved device vl old got s m l g k = loading-Loaded (MovedTo vl m) s _ _ λ f h.
      let n =
        change_all_needs-keeps (Needing (some vl) (add_file s.meta global_device_id f))
          (Needing-ClosedNeeds _ _) device old u.new_version f vl
          (with_meta s (add_file s.meta global_device_id f)) (l, NeedSteps.stays) in
      (n.0, k f _ (Got-IsNew got _ f refl g h) n.1)

  with_old_global-Moved :
      (device : Bytes) (vl : VersionList) (got_old got : Option FileInfo) (s : Entry)
      (m : MetadataTracker)
      → Needing (some vl) m s
      → Got load_old got_old
      → Got load_new got
      → After
          (MovedTo vl m)
          Anything
          (with_old_global get_file folder device file u vl got_old got s)
  with_old_global-Moved device vl got_old got s m p old new =
      either_if (After (MovedTo vl m) Anything) (not u.global_changed)
        (λ e. (p.0, unmoved (not-true _ e) p.1))
        (λ e.
          either_if (After (MovedTo vl m) Anything) u.have_old_global
            (λ h. loading-Loaded (MovedTo vl m) s _ _ λ f k.
              with_new_global-Moved device vl _ got
                (with_meta s (remove_file s.meta global_device_id f)) m p.0 new
                λ n t is_new steps.
                  replaced f n (not-false _ e) h (Got-load got_old load_old f old k) is_new p.1
                    steps)
            (λ h.
              with_new_global-Moved device vl none got s m p.0 new
                λ n t is_new steps. first n (not-false _ e) h is_new p.1 steps))

  with_own_need-Moved :
      (device : Bytes) (vl : VersionList) (got_old : Option FileInfo) (s : Entry)
      (m : MetadataTracker)
      → Needing (some vl) m s
      → Got load_old got_old
      → After (MovedTo vl m) Anything (with_own_need get_file folder device file u vl got_old s)
  with_own_need-Moved device vl got_old s m p old =
      either (After (MovedTo vl m) Anything) (has_need u file)
        (loading-Loaded (MovedTo vl m) s _ _ λ f h.
          with_old_global-Moved device vl got_old (some f) _ m
            (begin_own_need-keeps (Needing (some vl) m) (Needing-ClosedNeeds _ m) device
              (had_need u) f s p)
            old h)
        (with_old_global-Moved device vl got_old none s m p old tt)

  after_update-Moved :
      (device : Bytes) (s : Entry) (vl : VersionList)
      → After (MovedTo vl s.meta) Anything (after_update get_file folder device file s (vl, some u))
  after_update-Moved device s0 vl =
      let s : Entry = record s0 { list = some vl } in
      let p : Needing (some vl) s0.meta s = (refl, NeedSteps.stays) in
      either (After (MovedTo vl s0.meta) Anything) (had_need u)
        (loading-Loaded (MovedTo vl s0.meta) s _ _ λ f h.
          with_own_need-Moved device vl (some f) _ s0.meta
            (end_own_need-keeps (Needing (some vl) s0.meta) (Needing-ClosedNeeds _ s0.meta) device
              (has_need u file) f s p)
            h)
        (with_own_need-Moved device vl none s s0.meta p tt)

-- If the version list takes the update, then an update that ends leaves that list. If the global
-- version has not changed, only needs are changed in the tracker; if it has, then between changes of
-- needs the file of the old one, if there was one, is taken from the global counts once, and the
-- file of the new one is added to them once.
pub update_global-Moved :
    (get_file : Bytes → Bytes → Bytes → Lookup) (folder device : Bytes) (file : FileInfo)
    (s : Entry) (vl : VersionList) (u : Updated)
    → update get_file folder (list_or_empty s.list) device file ≡ (vl, some u)
    → After
        (MovedTo get_file folder file u vl s.meta)
        Anything
        (update_global get_file folder device file s)
unfolding update_global
update_global-Moved get_file folder device file s vl u h =
    rw h (after_update-Moved get_file folder file u device s vl)
