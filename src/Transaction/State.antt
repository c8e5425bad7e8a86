-- ===== src/Transaction/State.antt =====
-- What the database holds of one file, and what is loaded from it: `Need`, `updateLocalNeed` and the
-- lookups of back/lib/db/transactions.go. The entry is the part of the database about one name in one
-- folder.
use vaporcito.Base.{[], Bool, true, false, ◌&&◌, ◌||◌, not, Option, none, some, if◌then◌else◌}
use vaporcito.Base.Bytes.{Bytes}
use vaporcito.Vector.{Vector, is_empty, greater_equal}
use vaporcito.FileInfo.{FileInfo}
use vaporcito.Meta.{MetadataTracker, add_needed, remove_needed}
use vaporcito.VersionList.{
  FileVersion, VersionList, first_device, version_invalid, get_global, Lookup, found, missing,
  failed, version_or_none,
}

-- The version list of the file, if the database has one, the key of a local need, and the tracker.
pub record Entry : Type 0 where
  pub list : Option VersionList
  pub local_need : Bool
  pub meta : MetadataTracker

-- An error drops what the transaction wrote, but not what it did to the tracker.
pub data Run {ℓ} (A : Type ℓ) : Type ℓ where
  ends : A → Run A
  errs : MetadataTracker → Run A

unfoldable pub need : FileVersion → Bool → Vector → Bool
need global have_local local_version =
    if version_invalid global || is_empty global.version
    then false
    else if global.deleted && not have_local
    then false
    else if have_local && greater_equal local_version global.version
    then false
    else true

abbrev pub no_vector : Vector
no_vector = record { counters = [] }

abbrev pub is_there {ℓ} : {A : Type ℓ} → Option A → Bool
is_there none = false
is_there (some a) = true

-- `Need` of a version for a device that has another one or none.
abbrev pub needs : FileVersion → Option FileVersion → Bool
needs global fv = need global (is_there fv) (version_or_none fv).version

-- `Need` of an old global version, if there is one, which comes with its file.
abbrev pub needed_old : Option (FileVersion × FileInfo) → Bool → Vector → Bool
needed_old none have version = false
needed_old (some (fv, f)) have version = need fv have version

abbrev pub update_local_need : Bool → Entry → Entry
update_local_need add s = record s { local_need = add }

abbrev pub with_meta : Entry → MetadataTracker → Entry
with_meta s m = record s { meta = m }

-- The needs of one device end with the old global version, or begin with the new one.
abbrev pub end_need : Bytes → Option (FileVersion × FileInfo) → Entry → Entry
end_need dev none s = s
end_need dev (some (fv, f)) s = with_meta s (remove_needed s.meta dev f)

abbrev pub begin_need : Bytes → FileInfo → Entry → Entry
begin_need dev f s = with_meta s (add_needed s.meta dev f)

abbrev pub file_of : Lookup → Option FileInfo
file_of (found f) = some f
file_of missing = none
file_of failed = none

-- What `updateGlobal` and `removeFromGlobal` have loaded already, or else load.
abbrev pub got_or {ℓ} : {A : Type ℓ} → Option A → Option A → Option A
got_or none load = load
got_or (some f) load = some f

-- What goes on with a file that is loaded; if it cannot be, there is an error.
unfoldable pub loading : Entry → Option FileInfo → (FileInfo → Run Entry) → Run Entry
loading s none go = errs s.meta
loading s (some f) go = go f

-- The database is a parameter: the file that a device has under a name in a folder.
module _ (get_file : Bytes → Bytes → Bytes → Lookup) (folder : Bytes) where
  abbrev pub file_from : Bytes → Option Bytes → Option FileInfo
  file_from name none = none
  file_from name (some dev) = file_of (get_file folder dev name)

  -- `getGlobalFromFileVersion`: an error is none.
  unfoldable pub get_global_from_file_version : Bytes → FileVersion → Option FileInfo
  get_global_from_file_version name fv = file_from name (first_device fv)

  abbrev pub file_of_global : Bytes → Option FileVersion → Option FileInfo
  file_of_global name none = none
  file_of_global name (some fv) = get_global_from_file_version name fv

  -- `getGlobalFromVersionList`
  unfoldable pub get_global_from_version_list : Bytes → VersionList → Option FileInfo
  get_global_from_version_list name vl = file_of_global name (get_global vl)
