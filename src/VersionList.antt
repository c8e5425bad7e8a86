-- ===== src/VersionList.antt =====
-- The versions of a file that the devices announce, newest first: `VersionList` and `FileVersion` of
-- back/lib/db/structs.go. `insert` reads and writes at its index alone, so the index is the suffix
-- that starts there. An index that is -1 in the source is `none`.
pub mod Count
pub mod Loss
pub mod Pop
pub mod Insert
pub mod Update
pub mod Global
pub mod Last
pub mod Standing
mod Tests
use vaporcito.Base.{
  ℕ, zero, suc, ◌+◌, List, [], ◌∷◌, ◌++◌, Bool, true, false, ◌&&◌, not, Option, none, some, length,
  take, drop, ◌==◌, if◌then◌else◌,
}
use vaporcito.Base.Bytes.{Bytes, bytes_equal}
use vaporcito.Vector.{
  Vector, Ordering, equal, greater, lesser, concurrent_lesser, concurrent_greater, compare,
  is_equal, vector_equal,
}
use vaporcito.Platform.{same_flag}
use vaporcito.FileInfo.{FileInfo, is_invalid, wins_conflict}

pub record FileVersion : Type 0 where
  pub version : Vector
  pub deleted : Bool
  pub devices : List Bytes
  pub invalid_devices : List Bytes

pub record VersionList : Type 0 where
  pub raw_versions : List FileVersion

-- `FileVersion{}`
abbrev pub no_version : FileVersion
no_version = record {
  version = record { counters = [] };
  deleted = false;
  devices = [];
  invalid_devices = [];
}

unfoldable pub new_file_version : Bytes → Vector → Bool → Bool → FileVersion
new_file_version device version invalid deleted =
    if invalid
    then record {
      version = version;
      deleted = deleted;
      devices = [];
      invalid_devices = device ∷ [];
    }
    else record {
      version = version;
      deleted = deleted;
      devices = device ∷ [];
      invalid_devices = [];
    }

unfoldable pub first_device : FileVersion → Option Bytes
first_device fv = elim fv.devices [
  | d ∷ ds ↦ some d
  | [] ↦ elim fv.invalid_devices [ d ∷ ds ↦ some d | [] ↦ none ]
]

-- No device holds the version as valid.
abbrev pub is_nil {ℓ} : {A : Type ℓ} → List A → Bool
is_nil [] = true
is_nil (x ∷ xs) = false

abbrev pub version_invalid : FileVersion → Bool
version_invalid fv = is_nil fv.devices

abbrev pub device_count : FileVersion → ℕ
device_count fv = length fv.devices + length fv.invalid_devices

unfoldable pub device_index : List Bytes → Bytes → Option ℕ
device_index [] device = none
device_index (d ∷ ds) device =
    let rest = device_index ds device in
    if bytes_equal device d then some 0 else elim rest [ none ↦ none | some j ↦ some (suc j) ]

abbrev pub remove_at {ℓ} : {A : Type ℓ} → List A → ℕ → List A
remove_at [] i = []
remove_at (x ∷ xs) zero = xs
remove_at (x ∷ xs) (suc i) = x ∷ remove_at xs i

-- Where a device stands: among the invalid ones or not, in which version, and at which place there.
pub record Place : Type 0 where
  pub invalid : Bool
  pub at_version : ℕ
  pub at_device : ℕ

abbrev pub later : Option Place → Option Place
later none = none
later (some p) = some (record p { at_version = suc p.at_version })

-- The place in one version, among its valid devices or else its invalid ones, or one further on.
abbrev pub first_place : Option ℕ → Option ℕ → Option Place → Option Place
first_place (some j) k rest = some (record { invalid = false; at_version = 0; at_device = j })
first_place none (some k) rest = some (record { invalid = true; at_version = 0; at_device = k })
first_place none none rest = later rest

unfoldable pub find_device : List FileVersion → Bytes → Option Place
unfolding device_index
find_device [] device = none
find_device (v ∷ vs) device =
    first_place (device_index v.devices device) (device_index v.invalid_devices device)
      (find_device vs device)

-- The first version that is not invalid.
pub first_valid : List FileVersion → Option ℕ
first_valid [] = none
first_valid (v ∷ vs) =
    let rest = first_valid vs in
    if not (version_invalid v) then some 0 else elim rest [ none ↦ none | some i ↦ some (suc i) ]

abbrev or_first : Option ℕ → Option ℕ
or_first (some i) = some i
or_first none = some 0

unfoldable pub find_global : List FileVersion → Option ℕ
unfolding first_valid
find_global [] = none
find_global (v ∷ vs) = or_first (first_valid (v ∷ vs))

abbrev pub version_at : List FileVersion → ℕ → FileVersion
version_at [] i = no_version
version_at (v ∷ vs) zero = v
version_at (v ∷ vs) (suc i) = version_at vs i

abbrev pub set_version : List FileVersion → ℕ → FileVersion → List FileVersion
set_version [] i w = []
set_version (v ∷ vs) zero w = w ∷ vs
set_version (v ∷ vs) (suc i) w = v ∷ set_version vs i w

abbrev at_index : List FileVersion → Option ℕ → Option FileVersion
at_index vs none = none
at_index vs (some i) = some (version_at vs i)

abbrev pub at_place : List FileVersion → Option Place → Option FileVersion
at_place vs none = none
at_place vs (some p) = some (version_at vs p.at_version)

unfoldable pub get : VersionList → Bytes → Option FileVersion
unfolding find_device
get vl device = at_place vl.raw_versions (find_device vl.raw_versions device)

unfoldable pub get_global : VersionList → Option FileVersion
unfolding find_global
get_global vl = at_index vl.raw_versions (find_global vl.raw_versions)

unfoldable pub empty : VersionList → Bool
empty vl = is_nil vl.raw_versions

pub record Popped : Type 0 where
  pub list : List FileVersion
  pub removed : FileVersion
  pub found : Bool
  pub global_changed : Bool

abbrev pub same_index : Option ℕ → ℕ → Bool
same_index none i = false
same_index (some j) i = j == i

-- What `pop` does to the version at a place where it found the device.
pub pop_found : List FileVersion → Option ℕ → Place → Popped
pop_found vs global p =
    let i = p.at_version in
    let fv = version_at vs i in
    if device_count fv == 1
    then record {
      list = remove_at vs i;
      removed = fv;
      found = true;
      global_changed = same_index global i;
    }
    else if p.invalid
    then record {
      list =
          set_version vs i
            (record fv { invalid_devices = remove_at fv.invalid_devices p.at_device });
      removed = fv;
      found = true;
      global_changed = false;
    }
    else (let left = remove_at fv.devices p.at_device in
        record {
          list = set_version vs i (record fv { devices = left });
          removed = fv;
          found = true;
          global_changed = is_nil left && same_index global i;
        })

unfoldable pub pop : List FileVersion → Bytes → Popped
unfolding find_device find_global pop_found
pop vs device = elim (find_device vs device) [
  | none ↦ record { list = vs; removed = no_version; found = false; global_changed = false }
  | some p ↦ pop_found vs (find_global vs) p
]

-- What the database answers when it is asked for the file of a device.
pub data Lookup : Type 0 where
  found : FileInfo → Lookup
  missing : Lookup
  failed : Lookup

abbrev pub device_or_nil : Option Bytes → Bytes
device_or_nil none = []
device_or_nil (some d) = d

pub join_version : FileVersion → Bytes → FileInfo → FileVersion
join_version v device file =
    if not (is_invalid file)
    then record v { devices = v.devices ++ device ∷ [] }
    else record v { invalid_devices = v.invalid_devices ++ device ∷ [] }

abbrev pub version_of : Bytes → FileInfo → FileVersion
version_of device file = new_file_version device file.version (is_invalid file) file.deleted

-- What `checkInsertAt` does at the head of the suffix: an error, nothing, or the new suffix.
pub data Inserted : Type 0 where
  fails : Inserted
  passes : Inserted
  adds : List FileVersion → Inserted

pub record Updated : Type 0 where
  pub new_version : FileVersion
  pub old_version : FileVersion
  pub removed : FileVersion
  pub have_old_global : Bool
  pub have_removed : Bool
  pub global_changed : Bool

abbrev pub version_or_none : Option FileVersion → FileVersion
version_or_none none = no_version
version_or_none (some fv) = fv

-- The results of `update` from the global version before and after.
pub updated : Option FileVersion → Popped → Option FileVersion → Updated
updated none popped new = record {
  new_version = version_or_none new;
  old_version = no_version;
  removed = popped.removed;
  have_old_global = false;
  have_removed = popped.found;
  global_changed = true;
}
updated (some old) popped new = record {
  new_version = version_or_none new;
  old_version = old;
  removed = popped.removed;
  have_old_global = true;
  have_removed = popped.found;
  global_changed = not (
      same_flag (version_invalid old) (version_invalid (version_or_none new))
      && vector_equal old.version (version_or_none new).version);
}

-- `update` of an empty list.
abbrev pub first_update : FileVersion → VersionList × Option Updated
first_update nv = (
  record { raw_versions = nv ∷ [] },
  some (record {
    new_version = nv;
    old_version = no_version;
    removed = no_version;
    have_old_global = false;
    have_removed = false;
    global_changed = true;
  }),
)

-- `update` of any other list, from the old global version, what `pop` did and what `insert` did.
abbrev pub later_update :
    Option FileVersion → Popped → Option (List FileVersion) → VersionList × Option Updated
later_update old popped none = (record { raw_versions = popped.list }, none)
later_update old popped (some l) =
    let vl : VersionList = record { raw_versions = l } in
    (vl, some (updated old popped (get_global vl)))

-- The answer of `shouldInsertBefore`, with the new suffix.
abbrev pub decided : Option Bool → List FileVersion → Inserted
decided none l = fails
decided (some true) l = adds l
decided (some false) l = passes

-- The loop of `insert` ends with an error or a new suffix, or goes on behind the version.
abbrev pub go_on : FileVersion → Inserted → Option (List FileVersion) → Option (List FileVersion)
go_on v fails rest = none
go_on v (adds l) rest = some l
go_on v passes none = none
go_on v passes (some l) = some (v ∷ l)

-- The database is a parameter: the file that a device has under a name in a folder.
module _ (get_file : Bytes → Bytes → Bytes → Lookup) (folder : Bytes) where
  -- `none` is an error of the database.
  pub conflict_insert : Bytes → FileInfo → Option Bool
  conflict_insert existing_device file = elim (get_file folder existing_device file.name) [
    | failed ↦ none
    | missing ↦ some true
    | found of ↦ some (wins_conflict file of)
  ]

  pub should_insert_before : Ordering → Bytes → Bool → FileInfo → Option Bool
  unfolding conflict_insert
  should_insert_before lesser existing_device existing_invalid file = some true
  should_insert_before concurrent_lesser existing_device existing_invalid file =
      if not (same_flag existing_invalid (is_invalid file))
      then some existing_invalid
      else conflict_insert existing_device file
  should_insert_before concurrent_greater existing_device existing_invalid file =
      if not (same_flag existing_invalid (is_invalid file))
      then some existing_invalid
      else conflict_insert existing_device file
  should_insert_before equal existing_device existing_invalid file = some false
  should_insert_before greater existing_device existing_invalid file = some false

  pub check_insert_at : FileVersion → List FileVersion → Bytes → FileInfo → Inserted
  check_insert_at v vs device file =
      let ordering = compare v.version file.version in
      if is_equal ordering
      then adds (join_version v device file ∷ vs)
      else decided
          (should_insert_before ordering (device_or_nil (first_device v)) (version_invalid v) file)
          (version_of device file ∷ v ∷ vs)

  -- An error is `none`.
  pub insert : List FileVersion → Bytes → FileInfo → Option (List FileVersion)
  insert [] device file = some (version_of device file ∷ [])
  insert (v ∷ vs) device file = go_on v (check_insert_at v vs device file) (insert vs device file)

  -- The list after `update`, and the results if there was no error.
  pub update : VersionList → Bytes → FileInfo → VersionList × Option Updated
  unfolding empty
  update vl device file =
      let popped = pop vl.raw_versions device in
      if empty vl
      then first_update (version_of device file)
      else later_update (get_global vl) popped (insert popped.list device file)
