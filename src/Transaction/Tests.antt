-- ===== src/Transaction/Tests.antt =====
-- Updates and removals at concrete inputs.
use vaporcito.Base.{
  ◌≤◌, ◌||◌, if◌then◌else◌, arith, Bool-cases, inl, inr, Option, ℕ, [], ◌∷◌, true, false, some,
  none, ◌≡◌, refl, ap,
}
use vaporcito.Base.Bytes.{Bytes, codes, bytes_equal}
use vaporcito.Vector.{Vector, is_empty, greater_equal, compare, judge}
use vaporcito.FileInfo.{FileInfo, is_invalid, is_directory, is_symlink, file_size}
use vaporcito.FileInfo.Sample.{empty_file}
use vaporcito.Meta.{
  new_metadata_tracker, devices, add_needed, remove_needed, add_file, remove_file, counts_ptr,
  update_file_locked, update_seq_locked, add_file_locked, remove_file_locked, find_index, add_kind,
  remove_kind, add_int64, sub_int64, kind, corrected, all_needed_counts,
}
use vaporcito.Base.Int.{◌+ℤ◌, ◌-ℤ◌}
use vaporcito.Meta.Keys.{Keyed}
use vaporcito.VersionList.Count.{count, total, weigh, occurs, tally}
use vaporcito.VersionList.{
  missing, VersionList, Updated, no_version, find_global, Lookup, found, update, get_global, pop,
  empty, first_device, get, find_device,
}
use vaporcito.Transaction.State.{
  Entry, Run, ends, errs, need, needs, loading, get_global_from_file_version,
  get_global_from_version_list,
}
use vaporcito.Transaction.Update.{list_or_empty, update_global}
use vaporcito.Transaction.Remove.{drop_all_needs, drop_needs, remove_from_global}
use vaporcito.Transaction.Steps.{KeptList, Step, Reaches, Reaches-Kept}
use vaporcito.Transaction.NeedKey.{HasNeed}
use vaporcito.Transaction.LocalNeed.{right_need, update_global-HasNeed}
use vaporcito.Transaction.Closure.{After}
use vaporcito.Transaction.Globals.{MovedTo, Anything, update_global-Moved}
use vaporcito.Transaction.Ends.{Ends, update_succeeds, update_global-Ends, remove_from_global-Ends}

abbrev alice : Bytes
alice = codes "alice"

abbrev bob : Bytes
bob = codes "bob"

abbrev version_of_2 : ℕ → Vector
version_of_2 n = record { counters = record { id = 2; value = n } ∷ [] }

abbrev notes : FileInfo
notes = record empty_file { name = codes "notes.txt"; version = version_of_2 3 }

-- The database has the notes for every device.
abbrev has_notes : Bytes → Bytes → Bytes → Lookup
has_notes folder device name = found notes

abbrev new_entry : Entry
new_entry = record { list = none; local_need = false; meta = new_metadata_tracker }

-- Alice alone has a version, which is deleted, and Bob an older one.
abbrev alice_deleted : Entry
alice_deleted = record {
  list = some (record {
    raw_versions =
        record {
          version = version_of_2 4;
          deleted = true;
          devices = alice ∷ [];
          invalid_devices = [];
        }
        ∷ record {
          version = version_of_2 3;
          deleted = false;
          devices = bob ∷ [];
          invalid_devices = [];
        }
        ∷ [];
  });
  local_need = false;
  meta = new_metadata_tracker;
}

abbrev or_new : Run Entry → Entry
or_new (ends s) = s
or_new (errs m) = new_entry

abbrev after_alice : Entry
after_alice = or_new (update_global has_notes [] alice notes new_entry)

abbrev after_removal : Entry
after_removal = or_new (remove_from_global has_notes [] alice notes.name alice_deleted)

has_all : (d : Bytes) → (f : FileInfo) × (has_notes [] d notes.name ≡ found f)
has_all d = (notes, refl)

ends_or_new : (r : Run Entry) → Ends r → r ≡ ends (or_new r)
ends_or_new (ends s) h = refl
ends_or_new (errs m) h = absurd h

after_alice-Reaches : Reaches after_alice
after_alice-Reaches = Reaches.goes_on new_entry after_alice Reaches.starts (
    Step.updates has_notes [] alice notes new_entry after_alice (
      ends_or_new _ (
        update_global-Ends has_notes [] alice notes new_entry tt (λ d c. has_all d)
          (has_all alice))))

Reaches-Kept_example : KeptList after_alice.list × Keyed after_alice.meta
Reaches-Kept_example = Reaches-Kept after_alice after_alice-Reaches

-- Alice alone has the notes, and the database has her file and that of Bob and no other.
abbrev alice_has : Entry
alice_has = record {
  list = some (record {
    raw_versions =
        record {
          version = version_of_2 3;
          deleted = false;
          devices = alice ∷ [];
          invalid_devices = [];
        }
        ∷ [];
  });
  local_need = true;
  meta = new_metadata_tracker;
}

abbrev two_have : Bytes → Bytes → Bytes → Lookup
two_have folder device name =
    if bytes_equal device alice || bytes_equal device bob then found notes else missing

count_alice :
    (d : Bytes) → count d (list_or_empty alice_has.list).raw_versions ≡ tally (bytes_equal d alice)
unfolding total weigh occurs
count_alice d = omega arith

alice_has-KeptList : KeptList alice_has.list
alice_has-KeptList =
    (refl, record { inhabited = (omega arith, tt); once = λ d. ground (arith, count_alice d) })

alice_file :
    (d : Bytes)
    → 1 ≤ count d (list_or_empty alice_has.list).raw_versions
    → (f : FileInfo) × (two_have [] d notes.name ≡ found f)
alice_file d c = elim (Bool-cases (bytes_equal d alice)) [
  | inl e ↦ (notes, rw e refl)
  | inr e ↦ absurd (ground (arith, count_alice d))
]

update_global-Ends_example : Ends (update_global two_have [] bob notes alice_has)
update_global-Ends_example =
    update_global-Ends two_have [] bob notes alice_has alice_has-KeptList alice_file
      (notes, unfold bytes_equal in refl)

remove_from_global-Ends_example : Ends (remove_from_global two_have [] alice notes.name alice_has)
remove_from_global-Ends_example =
    remove_from_global-Ends two_have [] alice notes.name alice_has alice_has-KeptList alice_file

abbrev or_no_update : Option Updated → Updated
or_no_update none = record {
  new_version = no_version;
  old_version = no_version;
  removed = no_version;
  have_old_global = false;
  have_removed = false;
  global_changed = false;
}
or_no_update (some u) = u

some_update : (o : Option Updated) → (u : Updated) × (o ≡ some u) → o ≡ some (or_no_update o)
some_update none (u, h) = cc
some_update (some u) p = refl

abbrev alice_updated : VersionList × Option Updated
alice_updated = update has_notes [] (list_or_empty new_entry.list) alice notes

update_global-Moved_example :
    After
      (MovedTo has_notes [] notes (or_no_update alice_updated.1) alice_updated.0 new_entry.meta)
      Anything
      (update_global has_notes [] alice notes new_entry)
update_global-Moved_example =
    update_global-Moved has_notes [] alice notes new_entry alice_updated.0
      (or_no_update alice_updated.1)
      (ap (λ o. (alice_updated.0, o))
        (some_update alice_updated.1 (
          update_succeeds has_notes [] alice notes (list_or_empty new_entry.list) (λ d c. has_all d)
            tt)))

update_global-HasNeed_example :
    HasNeed
      (right_need alice notes
        (list_or_empty new_entry.list)
        alice_updated.0
        (or_no_update alice_updated.1))
      (update_global has_notes [] alice notes new_entry)
unfolding get_global find_global get find_device
update_global-HasNeed_example =
    update_global-HasNeed has_notes [] alice notes new_entry (or_no_update alice_updated.1) tt
      (some_update alice_updated.1 (
        update_succeeds has_notes [] alice notes (list_or_empty new_entry.list) (λ d c. has_all d)
          tt))
      refl

-- The older version that Bob has becomes the global one, and nobody notes that the local device,
-- which has none, needs it now.
lost_need_run :
    (after_removal.local_need ≡ false)
    × (needs
          (record {
            version = version_of_2 3;
            deleted = false;
            devices = bob ∷ [];
            invalid_devices = [];
          })
          none
        ≡ true)
    × (after_removal.list
        ≡ some (record {
          raw_versions =
              record {
                version = version_of_2 3;
                deleted = false;
                devices = bob ∷ [];
                invalid_devices = [];
              }
              ∷ [];
        }))
unfolding remove_from_global get_global pop empty loading get_global_from_file_version
    get_global_from_version_list first_device need is_empty greater_equal compare judge
    drop_all_needs drop_needs get find_device bytes_equal devices add_needed remove_needed add_file
    remove_file counts_ptr update_file_locked update_seq_locked add_file_locked remove_file_locked
    find_index add_kind remove_kind add_int64 kind is_invalid is_directory is_symlink ◌+ℤ◌ ◌-ℤ◌
    file_size sub_int64 corrected all_needed_counts
lost_need_run = (refl, refl, refl)
