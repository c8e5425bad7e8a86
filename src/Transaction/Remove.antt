-- ===== src/Transaction/Remove.antt =====
-- `removeFromGlobal` of back/lib/db/transactions.go: a device has a file no longer.
use vaporcito.Base.{List, [], ◌∷◌, Bool, false, ◌&&◌, not, Option, none, some, if◌then◌else◌}
use vaporcito.Base.Bytes.{Bytes, bytes_equal}
use vaporcito.DeviceId.{local_device_id, global_device_id}
use vaporcito.FileInfo.{FileInfo}
use vaporcito.Meta.{add_file, remove_file, remove_needed, devices}
use vaporcito.VersionList.{
  FileVersion, VersionList, version_invalid, get, get_global, empty, Popped, pop, Lookup,
}
use vaporcito.Transaction.State.{
  Entry, Run, get_global_from_file_version, get_global_from_version_list, got_or, loading, need,
  needs, no_vector, update_local_need, with_meta, ends,
}
use vaporcito.Transaction.Update.{begin_own_need}

abbrev pub begins_need : FileVersion → Popped → Option FileVersion → Bool
begins_need old popped none = false
begins_need old popped (some new) =
    not (version_invalid new)
    && need new false no_vector
    && not (need old popped.found popped.removed.version)

-- `shouldRemoveNeed`, for a device that has another version now or none.
abbrev pub should_remove_need : FileVersion → Option FileVersion → Option FileVersion → Bool
should_remove_need old none fv = needs old fv
should_remove_need old (some new) fv = needs old fv && not (needs new fv)

abbrev pub drop_need : Bytes → FileInfo → Entry → Entry
drop_need dev f s = with_meta s (remove_needed s.meta dev f)

-- The loop over the devices but the one that is removed.
unfoldable pub drop_needs :
    Bytes → FileVersion → FileInfo → VersionList → List Bytes → Entry → Entry
drop_needs device old f vl [] s = s
drop_needs device old f vl (dev ∷ devs) s =
    let next =
      if bytes_equal dev device
      then s
      else if should_remove_need old (get_global vl) (get vl dev)
      then drop_need dev f s
      else s in
    drop_needs device old f vl devs next

unfoldable pub drop_all_needs : Bytes → FileVersion → FileInfo → VersionList → Entry → Entry
drop_all_needs device old f vl s =
    let local =
      if should_remove_need old (get_global vl) (get vl local_device_id)
      then update_local_need false (drop_need local_device_id f s)
      else s in
    drop_needs device old f vl (devices local.meta.counts) local

-- The database is a parameter: the file that a device has under a name in a folder.
module _ (get_file : Bytes → Bytes → Bytes → Lookup) (folder : Bytes) where
  -- The end of `removeFromGlobal` after the needs have ended: what is left of the list.
  abbrev pub left_over : Bytes → VersionList → Option FileInfo → Entry → Run Entry
  left_over name vl got s =
      let load =
        loading s (got_or got (get_global_from_version_list get_file folder name vl))
          λ f. ends (record s { list = some vl; meta = add_file s.meta global_device_id f }) in
      if empty vl then ends (record s { list = none }) else load

  abbrev pub without_old_global :
      Bytes → Bytes → FileVersion → Popped → VersionList → Option FileInfo → Entry → Run Entry
  without_old_global device name old popped vl got s =
      let changed = loading s (get_global_from_file_version get_file folder name old) λ f.
        left_over name vl got
          (drop_all_needs device old f vl (with_meta s (remove_file s.meta global_device_id f))) in
      if not popped.global_changed then ends (record s { list = some vl }) else changed

  -- The device that is removed may need the new global version.
  abbrev pub with_removed_need :
      Bytes → Bytes → FileVersion → Popped → VersionList → Entry → Run Entry
  with_removed_need device name old popped vl s =
      let begun = loading s (get_global_from_version_list get_file folder name vl) λ f.
        without_old_global device name old popped vl (some f) (begin_own_need device false f s) in
      let unchanged = without_old_global device name old popped vl none s in
      if begins_need old popped (get_global vl) then begun else unchanged

  abbrev pub after_pop : Bytes → Bytes → FileVersion → Popped → Entry → Run Entry
  after_pop device name old popped s =
      if not popped.found
      then ends s
      else with_removed_need device name old popped (record { raw_versions = popped.list }) s

  abbrev pub remove_from_list : Bytes → Bytes → VersionList → Option FileVersion → Entry → Run Entry
  remove_from_list device name vl none s = ends (record s { list = none })
  remove_from_list device name vl (some old) s =
      after_pop device name old (pop vl.raw_versions device) s

  abbrev pub remove_at_key : Bytes → Bytes → Option VersionList → Entry → Run Entry
  remove_at_key device name none s = ends s
  remove_at_key device name (some vl) s = remove_from_list device name vl (get_global vl) s

  unfoldable pub remove_from_global : Bytes → Bytes → Entry → Run Entry
  remove_from_global device name s = remove_at_key device name s.list s
