-- ===== src/FileInfo/Flags.antt =====
-- What the setters of flags and of deletion leave behind.
use vaporcito.Base.{ℕ, ◌+◌, ◌^◌, ◌<◌, ◌≡◌, refl, Bool, true, false, []}
use vaporcito.Base.Int.{pos}
use vaporcito.Vector.{counter, compare, greater}
use vaporcito.Vector.Rounds.{IsSorted}
use vaporcito.Vector.Update.{compare-update}
use vaporcito.FileInfo.{
  FileInfo, is_invalid, is_ignored, is_unsupported, must_rescan, should_conflict, file_size,
  set_must_rescan, set_ignored, set_unsupported, set_deleted,
}

-- The five answers that the local flags and the raw invalid bit give.
pub record Answers : Type 0 where
  pub invalid : Bool
  pub unsupported : Bool
  pub ignored : Bool
  pub rescan : Bool
  pub conflict : Bool

abbrev pub answers : FileInfo → Answers
answers f = record {
  invalid = is_invalid f;
  unsupported = is_unsupported f;
  ignored = is_ignored f;
  rescan = must_rescan f;
  conflict = should_conflict f;
}

-- Whatever flags a file had, after each setter it answers as invalid and with the flag that was
-- set and no other; ignored and unsupported files should conflict, those to be rescanned not.
pub answers-set :
    (f : FileInfo)
    → (answers (set_must_rescan f) ≡ record {
      invalid = true;
      unsupported = false;
      ignored = false;
      rescan = true;
      conflict = false;
    })
      × (answers (set_ignored f) ≡ record {
        invalid = true;
        unsupported = false;
        ignored = true;
        rescan = false;
        conflict = true;
      })
      × (answers (set_unsupported f) ≡ record {
        invalid = true;
        unsupported = true;
        ignored = false;
        rescan = false;
        conflict = true;
      })
unfolding is_invalid is_unsupported is_ignored must_rescan should_conflict set_must_rescan
    set_ignored set_unsupported
answers-set f = (refl, refl, refl)

-- A deletion by a device is a newer version than the file's own, provided that the version is
-- ordered and the device's counter is not at its end, and the deleted file has size zero and no
-- blocks.
pub set_deleted_lem :
    (f : FileInfo) (by now : ℕ)
    → IsSorted f.version
    → counter f.version by + 1 < 2 ^ 64
    → (compare (set_deleted f by now).version f.version ≡ greater)
      × (file_size (set_deleted f by now) ≡ pos 0)
      × ((set_deleted f by now).blocks ≡ [])
unfolding set_deleted file_size
set_deleted_lem f by now s h = (compare-update f.version by now s h, refl, refl)
