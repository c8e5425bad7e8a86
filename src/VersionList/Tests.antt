-- ===== src/VersionList/Tests.antt =====
-- Version lists at concrete inputs.
use vaporcito.Base.{ℕ, ◌++◌, ◌≡◌, refl, [], ◌∷◌, Bool, true, false, arith, some, none}
use vaporcito.Base.Int.{pos}
use vaporcito.Base.Bytes.{Bytes, codes, bytes_equal}
use vaporcito.Platform.{nil}
use vaporcito.Vector.{Vector, compare, judge, vector_equal}
use vaporcito.FileInfo.{FileInfo, file, is_invalid}
use vaporcito.VersionList.{
  VersionList, Lookup, missing, failed, update, pop, get_global, insert, check_insert_at,
  should_insert_before, conflict_insert, updated, empty, join_version, new_file_version,
  first_device, Updated,
}
use vaporcito.VersionList.Count.{count, total, weigh, occurs, any_version}
use vaporcito.VersionList.Update.{total-update, total-update_other, update-Failure}
use vaporcito.VersionList.Insert.{Failure}
use vaporcito.VersionList.Global.{get_global-IsGlobal, IsGlobal}

abbrev alice : Bytes
alice = codes "alice"

abbrev bob : Bytes
bob = codes "bob"

abbrev version_of_2 : ℕ → Vector
version_of_2 n = record { counters = record { id = 2; value = n } ∷ [] }

abbrev notes : FileInfo
notes = record {
  name = codes "notes.txt";
  size = pos 5;
  modified_s = pos 1600;
  modified_by = 2;
  version = version_of_2 4;
  sequence = pos 9;
  blocks = [];
  symlink_target = [];
  blocks_hash = [];
  encrypted = [];
  type = file;
  permissions = 0o644;
  modified_ns = pos 0;
  raw_block_size = pos 0;
  platform = record {
    unix = nil;
    windows = nil;
    linux = nil;
    darwin = nil;
    free_bsd = nil;
    net_bsd = nil;
  };
  local_flags = 0;
  version_hash = [];
  inode_change_ns = pos 0;
  encryption_trailer_size = pos 0;
  deleted = false;
  raw_invalid = false;
  no_permissions = false;
}

-- Both devices have the same old version.
abbrev shared : VersionList
shared = record {
  raw_versions =
      record {
        version = version_of_2 3;
        deleted = false;
        devices = alice ∷ bob ∷ [];
        invalid_devices = [];
      }
      ∷ [];
}

-- Bob has a version that conflicts with the notes.
abbrev conflicting : VersionList
conflicting = record {
  raw_versions =
      record {
        version = record { counters = record { id = 5; value = 1 } ∷ [] };
        deleted = false;
        devices = bob ∷ [];
        invalid_devices = [];
      }
      ∷ [];
}

abbrev no_files : Bytes → Bytes → Bytes → Lookup
no_files folder device name = missing

abbrev broken : Bytes → Bytes → Bytes → Lookup
broken folder device name = failed

abbrev folder : Bytes
folder = codes "default"

-- Valid devices at the version of the notes.
abbrev valid_at_notes : Vector → Bool → Bool
valid_at_notes v valid = elim valid [ true ↦ vector_equal v notes.version | false ↦ false ]

abbrev alice_updated : Updated
alice_updated = record {
  new_version = record {
    version = version_of_2 4;
    deleted = false;
    devices = alice ∷ [];
    invalid_devices = [];
  };
  old_version = record {
    version = version_of_2 3;
    deleted = false;
    devices = alice ∷ bob ∷ [];
    invalid_devices = [];
  };
  removed = record {
    version = version_of_2 3;
    deleted = false;
    devices = alice ∷ bob ∷ [];
    invalid_devices = [];
  };
  have_old_global = true;
  have_removed = true;
  global_changed = true;
}

update_succeeds : (update no_files folder shared alice notes).1 ≡ some alice_updated
unfolding update insert check_insert_at should_insert_before conflict_insert pop get_global updated
    empty new_file_version first_device join_version compare judge vector_equal bytes_equal
    is_invalid
update_succeeds = refl

-- Alice has an older version than the notes besides.
abbrev alice_too : VersionList
alice_too = record {
  raw_versions =
      conflicting.raw_versions
      ++ record {
        version = version_of_2 3;
        deleted = false;
        devices = alice ∷ [];
        invalid_devices = [];
      }
        ∷ [];
}

update_fails : (update broken folder alice_too alice notes).1 ≡ none
unfolding update insert check_insert_at should_insert_before conflict_insert pop get_global updated
    empty new_file_version first_device join_version compare judge vector_equal bytes_equal
    is_invalid
update_fails = refl

total-update_example :
    total any_version alice (update no_files folder shared alice notes).0.raw_versions ≡ 1
unfolding total weigh occurs bytes_equal
total-update_example =
    total-update no_files folder any_version shared alice notes alice_updated (omega arith)
      (λ v b e. refl) update_succeeds

total-update_other_example :
    total any_version bob (update no_files folder shared alice notes).0.raw_versions ≡ 1
unfolding total weigh occurs bytes_equal
total-update_other_example =
    total-update_other no_files folder any_version shared alice bob notes alice_updated refl
      update_succeeds

update-Failure_example :
    Failure broken folder notes
    × (count alice (update broken folder alice_too alice notes).0.raw_versions ≡ 0)
update-Failure_example =
    update-Failure broken folder alice_too alice notes
      (unfold total weigh occurs bytes_equal in omega arith) update_fails

get_global-IsGlobal_example : IsGlobal shared.raw_versions (get_global shared)
get_global-IsGlobal_example = get_global-IsGlobal shared
