-- ===== src/Transaction/NeedKey.antt =====
-- How the key of the local need goes through `updateGlobal` of back/lib/db/transactions.go.
use vaporcito.Base.{
  List, [], ◌∷◌, Bool, true, false, ◌&&◌, not, Option, none, some, ◌≡◌, refl, subst, ◌∙◌,
  if◌then◌else◌, either, Bool-cases, inl, inr,
}
use vaporcito.Base.Bytes.{Bytes, bytes_equal}
use vaporcito.DeviceId.{local_device_id, global_device_id}
use vaporcito.FileInfo.{FileInfo}
use vaporcito.Meta.{add_file, remove_file, remove_needed}
use vaporcito.VersionList.{FileVersion, VersionList, get, Lookup, Updated, version_or_none}
use vaporcito.Transaction.State.{
  Entry, Run, ends, errs, needs, needed_old, is_there, update_local_need, with_meta, end_need,
  begin_need, loading,
}
use vaporcito.Transaction.Update.{
  change_need, change_local_need, change_needs, change_all_needs, end_own_need, begin_own_need,
  had_need, has_need, with_new_global, with_old_global, with_own_need, after_update,
}

-- The key has the value, unless the run fails.
abbrev pub HasNeed : Bool → Run Entry → Type 0
HasNeed b (ends s) = s.local_need ≡ b
HasNeed b (errs m) = Unit {0}

loading-HasNeed :
    (b : Bool) (s : Entry) (o : Option FileInfo) (go : FileInfo → Run Entry)
    → ((f : FileInfo) → HasNeed b (go f))
    → HasNeed b (loading s o go)
unfolding loading
loading-HasNeed b s none go h = tt
loading-HasNeed b s (some f) go h = h f

-- The key after a change from a need to another.
abbrev pub after_change : Bool → Bool → Bool → Bool
after_change before now b =
    if before && not now then false else if now && not before then true else b

pub after_change_right : (before now : Bool) → after_change before now before ≡ now
after_change_right true true = refl
after_change_right true false = refl
after_change_right false true = refl
after_change_right false false = refl

end_need_key :
    (dev : Bytes) (old : Option (FileVersion × FileInfo)) (s : Entry)
    → (end_need dev old s).local_need ≡ s.local_need
end_need_key dev none s = refl
end_need_key dev (some (fv, f)) s = refl

change_need_key :
    (dev : Bytes) (old : Option (FileVersion × FileInfo)) (new : FileVersion) (f : FileInfo)
    (fv : Option FileVersion) (s : Entry)
    → (change_need dev old new f fv s).local_need ≡ s.local_need
change_need_key dev old new f fv s =
    let same : Entry → Type 0 = λ t. t.local_need ≡ s.local_need in
    let ended =
      either same (needed_old old (is_there fv) (version_or_none fv).version)
        (end_need_key dev old s) refl in
    either same (needs new fv) ended ended

change_needs_key :
    (device : Bytes) (old : Option (FileVersion × FileInfo)) (new : FileVersion) (f : FileInfo)
    (vl : VersionList) (devs : List Bytes) (s : Entry)
    → (change_needs device old new f vl devs s).local_need ≡ s.local_need
unfolding change_needs
change_needs_key device old new f vl [] s = refl
change_needs_key device old new f vl (dev ∷ devs) s =
    change_needs_key device old new f vl devs _
    ∙ either (λ (t : Entry). t.local_need ≡ s.local_need) (bytes_equal dev device) refl
        (change_need_key dev old new f (get vl dev) s)

changed_key :
    (before now : Bool) (s : Entry) (b : Bool)
    → s.local_need ≡ b
    → (if before && not now
        then update_local_need false s
        else if now && not before
        then update_local_need true s
        else s).local_need
      ≡ after_change before now b
changed_key true true s b h = h
changed_key true false s b h = refl
changed_key false true s b h = refl
changed_key false false s b h = h

either_key :
    (b : Bool) (s t : Entry) (c d : Bool)
    → s.local_need ≡ c
    → t.local_need ≡ d
    → (if b then s else t).local_need ≡ (if b then c else d)
either_key true s t c d h k = h
either_key false s t c d h k = k

change_local_need_key :
    (old : Option (FileVersion × FileInfo)) (new : FileVersion) (f : FileInfo)
    (fv : Option FileVersion) (s : Entry)
    → (change_local_need old new f fv s).local_need
      ≡ after_change
          (needed_old old (is_there fv) (version_or_none fv).version)
          (needs new fv)
          s.local_need
change_local_need_key old new f fv s =
    changed_key (needed_old old (is_there fv) (version_or_none fv).version) (needs new fv)
      (change_need local_device_id old new f fv s) s.local_need
      (change_need_key local_device_id old new f fv s)

change_all_needs_key :
    (device : Bytes) (old : Option (FileVersion × FileInfo)) (new : FileVersion) (f : FileInfo)
    (vl : VersionList) (s : Entry)
    → (change_all_needs device old new f vl s).local_need ≡ (
        if not (bytes_equal device local_device_id)
        then after_change
            (needed_old old
              (is_there (get vl local_device_id))
              (version_or_none (get vl local_device_id)).version)
            (needs new (get vl local_device_id))
            s.local_need
        else s.local_need)
unfolding change_all_needs
change_all_needs_key device old new f vl s =
    change_needs_key device old new f vl _ _
    ∙ either_key (not (bytes_equal device local_device_id))
        (change_local_need old new f (get vl local_device_id) s) s _ _
        (change_local_need_key old new f (get vl local_device_id) s) refl

-- Whether the local device needed the old global version, from what it has.
abbrev pub had_local : Updated → Option FileVersion → Bool
had_local u fv = u.have_old_global && needs u.old_version fv

-- The key after the change of the global version, if it has changed.
abbrev pub changed_by : Updated → VersionList → Bytes → Bool → Bool
changed_by u vl device b =
    if not u.global_changed
    then b
    else if not (bytes_equal device local_device_id)
    then after_change (had_local u (get vl local_device_id))
        (needs u.new_version (get vl local_device_id)) b
    else b

-- The key after the needs of the device itself.
abbrev pub ended_by : Bool → Bool → Bool → Bool → Bool
ended_by had has own b = if had then if not has && own then false else b else b

abbrev pub begun_by : Bool → Bool → Bool → Bool → Bool
begun_by had has own b = if has then if not had && own then true else b else b

either_HasNeed :
    (k : Bool → Bool) (c : Bool) (x y : Run Entry) (p q : Bool)
    → HasNeed (k p) x
    → HasNeed (k q) y
    → HasNeed (k (if c then p else q)) (if c then x else y)
either_HasNeed k true x y p q h g = h
either_HasNeed k false x y p q h g = g

module _ (get_file : Bytes → Bytes → Bytes → Lookup) (folder : Bytes) where
  with_new_global-HasNeed :
      (device : Bytes) (file : FileInfo) (u : Updated) (vl : VersionList)
      (old : Option (FileVersion × FileInfo)) (got : Option FileInfo) (s : Entry)
      → HasNeed
          (if not (bytes_equal device local_device_id)
            then after_change
                (needed_old old
                  (is_there (get vl local_device_id))
                  (version_or_none (get vl local_device_id)).version)
                (needs u.new_version (get vl local_device_id))
                s.local_need
            else s.local_need)
          (with_new_global get_file folder device file u vl old got s)
  with_new_global-HasNeed device file u vl old got s = loading-HasNeed _ s _ _ λ f.
      change_all_needs_key device old u.new_version f vl
        (with_meta s (add_file s.meta global_device_id f))

  with_old_global-HasNeed :
      (device : Bytes) (file : FileInfo) (u : Updated) (vl : VersionList)
      (got_old got : Option FileInfo) (s : Entry)
      → HasNeed
          (changed_by u vl device s.local_need)
          (with_old_global get_file folder device file u vl got_old got s)
  with_old_global-HasNeed device file u vl got_old got s = elim (Bool-cases u.global_changed) [
    | inr e ↦ simp e refl
    | inl e ↦ elim (Bool-cases u.have_old_global) [
      | inl o ↦
          simp (e, o)
            (loading-HasNeed _ s _ _ λ f.
              with_new_global-HasNeed device file u vl (some (u.old_version, f)) got
                (with_meta s (remove_file s.meta global_device_id f)))
      | inr o ↦ simp (e, o) (with_new_global-HasNeed device file u vl none got s)
    ]
  ]

  with_own_need-HasNeed :
      (device : Bytes) (file : FileInfo) (u : Updated) (vl : VersionList)
      (got_old : Option FileInfo) (s : Entry) (b : Bool)
      → s.local_need ≡ b
      → HasNeed
          (changed_by u vl device
            (begun_by (had_need u) (has_need u file) (bytes_equal device local_device_id) b))
          (with_own_need get_file folder device file u vl got_old s)
  with_own_need-HasNeed device file u vl got_old s b h =
      either_HasNeed (changed_by u vl device) (has_need u file) _ _ _ _
        (loading-HasNeed _ s _ _ λ f.
          subst
            (λ x. HasNeed (changed_by u vl device x) (
              with_old_global get_file folder device file u vl got_old (some f)
                (begin_own_need device (had_need u) f s)))
            (either_key (not (had_need u) && bytes_equal device local_device_id)
              (update_local_need true (begin_need device f s)) (begin_need device f s) true b refl
              h)
            (with_old_global-HasNeed device file u vl got_old (some f)
              (begin_own_need device (had_need u) f s)))
        (subst
          (λ x.
            HasNeed (changed_by u vl device x)
              (with_old_global get_file folder device file u vl got_old none s))
          h (with_old_global-HasNeed device file u vl got_old none s))

  pub after_update-HasNeed :
      (device : Bytes) (file : FileInfo) (s : Entry) (vl : VersionList) (u : Updated)
      → HasNeed
          (changed_by u vl device (
            begun_by (had_need u) (has_need u file) (bytes_equal device local_device_id) (
              ended_by
                (had_need u)
                (has_need u file)
                (bytes_equal device local_device_id)
                s.local_need)))
          (after_update get_file folder device file s (vl, some u))
  after_update-HasNeed device file s0 vl u =
      let s : Entry = record s0 { list = some vl } in
      either_HasNeed
        (λ b.
          changed_by u vl device
            (begun_by (had_need u) (has_need u file) (bytes_equal device local_device_id) b))
        (had_need u) _ _ _ _
        (loading-HasNeed _ s _ _ λ f.
          with_own_need-HasNeed device file u vl (some f)
            (end_own_need device (has_need u file) f s) _
            (either_key (not (has_need u file) && bytes_equal device local_device_id)
              (update_local_need false (with_meta s (remove_needed s.meta device f)))
              (with_meta s (remove_needed s.meta device f)) false s.local_need refl refl))
        (with_own_need-HasNeed device file u vl none s s.local_need refl)
