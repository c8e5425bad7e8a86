-- ===== src/Transaction/Update.antt =====
-- `updateGlobal` of back/lib/db/transactions.go: a device has another version of a file.
use vaporcito.Base.{List, [], ◌∷◌, Bool, true, false, ◌&&◌, not, Option, none, some, if◌then◌else◌}
use vaporcito.Base.Bytes.{Bytes, bytes_equal}
use vaporcito.DeviceId.{local_device_id, global_device_id}
use vaporcito.Vector.{vector_equal}
use vaporcito.FileInfo.{FileInfo}
use vaporcito.Meta.{add_file, remove_file, remove_needed, devices}
use vaporcito.VersionList.{FileVersion, VersionList, get, Lookup, Updated, update, version_or_none}
use vaporcito.Transaction.State.{
  Entry, Run, begin_need, end_need, get_global_from_file_version, got_or, is_there, loading, need,
  needed_old, needs, update_local_need, with_meta, ends, errs,
}

-- The needs of a device at a change from an old global version to a new one with its file.
abbrev pub change_need :
    Bytes
    → Option (FileVersion × FileInfo)
    → FileVersion
    → FileInfo
    → Option FileVersion
    → Entry
    → Entry
change_need dev old new f fv s =
    let ended =
      if needed_old old (is_there fv) (version_or_none fv).version then end_need dev old s else s in
    if needs new fv then begin_need dev f ended else ended

-- The need of the local device, with its key in the database.
abbrev pub change_local_need :
    Option (FileVersion × FileInfo) → FileVersion → FileInfo → Option FileVersion → Entry → Entry
change_local_need old new f fv s =
    let before = needed_old old (is_there fv) (version_or_none fv).version in
    let now = needs new fv in
    let changed = change_need local_device_id old new f fv s in
    if before && not now
    then update_local_need false changed
    else if now && not before
    then update_local_need true changed
    else changed

-- The loop over the devices but the one that is updated.
unfoldable pub change_needs :
    Bytes
    → Option (FileVersion × FileInfo)
    → FileVersion
    → FileInfo
    → VersionList
    → List Bytes
    → Entry
    → Entry
change_needs device old new f vl [] s = s
change_needs device old new f vl (dev ∷ devs) s =
    let next = if bytes_equal dev device then s else change_need dev old new f (get vl dev) s in
    change_needs device old new f vl devs next

-- The needs of all devices but the one that is updated.
unfoldable pub change_all_needs :
    Bytes → Option (FileVersion × FileInfo) → FileVersion → FileInfo → VersionList → Entry → Entry
change_all_needs device old new f vl s =
    let local =
      if not (bytes_equal device local_device_id)
      then change_local_need old new f (get vl local_device_id) s
      else s in
    change_needs device old new f vl (devices local.meta.counts) local

-- The needs of the device that is updated, with the key of the local one.
abbrev pub end_own_need : Bytes → Bool → FileInfo → Entry → Entry
end_own_need device now f s =
    let ended = with_meta s (remove_needed s.meta device f) in
    if not now && bytes_equal device local_device_id then update_local_need false ended else ended

abbrev pub begin_own_need : Bytes → Bool → FileInfo → Entry → Entry
begin_own_need device before f s =
    let begun = begin_need device f s in
    if not before && bytes_equal device local_device_id then update_local_need true begun else begun

abbrev pub had_need : Updated → Bool
had_need u = u.have_old_global && need u.old_version u.have_removed u.removed.version

abbrev pub has_need : Updated → FileInfo → Bool
has_need u file = need u.new_version true file.version

abbrev pub list_or_empty : Option VersionList → VersionList
list_or_empty none = record { raw_versions = [] }
list_or_empty (some vl) = vl

-- The database is a parameter: the file that a device has under a name in a folder.
module _ (get_file : Bytes → Bytes → Bytes → Lookup) (folder : Bytes) where
  -- With the old global version, if there was one: the counts of the new one, and the needs.
  abbrev pub with_new_global :
      Bytes
      → FileInfo
      → Updated
      → VersionList
      → Option (FileVersion × FileInfo)
      → Option FileInfo
      → Entry
      → Run Entry
  with_new_global device file u vl old got s =
      let load =
        if vector_equal u.new_version.version file.version
        then some file
        else get_global_from_file_version get_file folder file.name u.new_version in
      loading s (got_or got load) λ f. ends (
        change_all_needs device old u.new_version f vl
          (with_meta s (add_file s.meta global_device_id f)))

  abbrev pub with_old_global :
      Bytes
      → FileInfo
      → Updated
      → VersionList
      → Option FileInfo
      → Option FileInfo
      → Entry
      → Run Entry
  with_old_global device file u vl got_old got s =
      let removed =
        loading s
          (got_or got_old (get_global_from_file_version get_file folder file.name u.old_version))
          λ f.
            with_new_global device file u vl (some (u.old_version, f)) got
              (with_meta s (remove_file s.meta global_device_id f)) in
      let first = with_new_global device file u vl none got s in
      if not u.global_changed then ends s else if u.have_old_global then removed else first

  abbrev pub with_own_need :
      Bytes → FileInfo → Updated → VersionList → Option FileInfo → Entry → Run Entry
  with_own_need device file u vl got_old s =
      let begun =
        loading s (get_global_from_file_version get_file folder file.name u.new_version) λ f.
          with_old_global device file u vl got_old (some f)
            (begin_own_need device (had_need u) f s) in
      let unchanged = with_old_global device file u vl got_old none s in
      if has_need u file then begun else unchanged

  abbrev pub after_update : Bytes → FileInfo → Entry → VersionList × Option Updated → Run Entry
  after_update device file s (vl, none) = errs s.meta
  after_update device file s0 (vl, some u) =
      let s : Entry = record s0 { list = some vl } in
      let ended =
        loading s (get_global_from_file_version get_file folder file.name u.old_version) λ f.
          with_own_need device file u vl (some f) (end_own_need device (has_need u file) f s) in
      let unchanged = with_own_need device file u vl none s in
      if had_need u then ended else unchanged

  unfoldable pub update_global : Bytes → FileInfo → Entry → Run Entry
  update_global device file s =
      after_update device file s (update get_file folder (list_or_empty s.list) device file)
