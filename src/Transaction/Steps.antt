-- ===== src/Transaction/Steps.antt =====
-- Updates and removals one after another: back/lib/db/transactions.go.
use vaporcito.Base.{
  ◌≤◌, List, [], ◌∷◌, false, Option, none, some, ◌≡◌, refl, sym, subst, arith, Bool-cases, inl, inr,
}
use vaporcito.Base.Bytes.{Bytes, bytes_equal, bytes_equal_sound}
use vaporcito.FileInfo.{FileInfo}
use vaporcito.Meta.{MetadataTracker, new_metadata_tracker}
use vaporcito.Meta.Reach.{Reach, Reach-Keyed}
use vaporcito.Meta.Keys.{Keyed}
use vaporcito.VersionList.{FileVersion, VersionList, is_nil, pop, Lookup, Updated, update}
use vaporcito.VersionList.Count.{count, total, any_version}
use vaporcito.VersionList.Pop.{count-pop, total-pop_other, Inhabited, Inhabited-pop}
use vaporcito.VersionList.Update.{Inhabited-update, total-update, total-update_other}
use vaporcito.Transaction.State.{Entry, ends, errs, with_meta}
use vaporcito.Transaction.Update.{list_or_empty, after_update, update_global}
use vaporcito.Transaction.Remove.{remove_from_global}
use vaporcito.Transaction.Closure.{After}
use vaporcito.Transaction.Lists.{
  Follows, left_of, without, update_global-Follows, remove_from_global-Follows,
}

-- Every version has a device, and no device stands in the list twice.
pub record Kept (vs : List FileVersion) : Type 0 where
  pub inhabited : Inhabited vs
  pub once : (d : Bytes) → count d vs ≤ 1

-- The list in the database, if there is one, is such and not empty.
abbrev pub KeptList : Option VersionList → Type 0
KeptList none = Unit {0}
KeptList (some vl) = (is_nil vl.raw_versions ≡ false) × Kept vl.raw_versions

empty-Kept : Kept []
unfolding total
empty-Kept = record { inhabited = tt; once = λ d. omega arith }

pub list_or_empty-Kept : (l : Option VersionList) → KeptList l → Kept (list_or_empty l).raw_versions
list_or_empty-Kept none k = empty-Kept
list_or_empty-Kept (some vl) k = k.1

count-full : (d : Bytes) (vs : List FileVersion) → count d vs ≡ 1 → is_nil vs ≡ false
unfolding total
count-full d [] h = absurd (omega arith)
count-full d (v ∷ vs) h = refl

pub pop-Kept : (d : Bytes) (vs : List FileVersion) → Kept vs → Kept (pop vs d).list
pop-Kept d vs k = record {
  inhabited = Inhabited-pop d vs k.inhabited;
  once = λ e. elim (Bool-cases (bytes_equal e d)) [
    | inl h ↦ rw (bytes_equal_sound e d h) (omega (arith, count-pop d vs, k.once d))
    | inr h ↦ rw (total-pop_other any_version d e vs h) (k.once e)
  ];
}

left_of-Kept : (vs : List FileVersion) → Kept vs → KeptList (left_of vs)
left_of-Kept [] k = tt
left_of-Kept (v ∷ vs) k = (refl, k)

without-Kept : (d : Bytes) (l : Option VersionList) → KeptList l → KeptList (without d l)
without-Kept d none k = tt
without-Kept d (some vl) k = left_of-Kept _ (pop-Kept d vl.raw_versions k.1)

module _ (get_file : Bytes → Bytes → Bytes → Lookup) (folder : Bytes) where
  pub update-Kept :
      (device : Bytes) (file : FileInfo) (vl : VersionList) (u : Updated)
      → Kept vl.raw_versions
      → (update get_file folder vl device file).1 ≡ some u
      → KeptList (some (update get_file folder vl device file).0)
  update-Kept device file vl u k h =
      let one : count device (update get_file folder vl device file).0.raw_versions ≡ 1 =
        total-update get_file folder any_version vl device file u (k.once device) (λ v b e. refl)
          h in
      (
        count-full device _ one,
        record {
          inhabited = Inhabited-update get_file folder vl device file k.inhabited;
          once = λ e. elim (Bool-cases (bytes_equal e device)) [
            | inl z ↦ rw (bytes_equal_sound e device z) (omega (arith, one))
            | inr z ↦
                rw (total-update_other get_file folder any_version vl device e file u z h)
                  (k.once e)
          ];
        },
      )

  update_ends :
      (device : Bytes) (file : FileInfo) (s t : Entry) (r : VersionList × Option Updated)
      → after_update get_file folder device file s r ≡ ends t
      → (u : Updated) × (r.1 ≡ some u)
  update_ends device file s t (vl, none) h = cc
  update_ends device file s t (vl, some u) h = (u, refl)

  update_global-Kept :
      (device : Bytes) (file : FileInfo) (s t : Entry)
      → KeptList s.list
      → update_global get_file folder device file s ≡ ends t
      → KeptList t.list
  unfolding update_global
  update_global-Kept device file s t k h =
      let (u, e) = update_ends device file s t _ h in
      let f =
        subst (After (Follows _ s.meta) (Reach s.meta)) h
          (update_global-Follows get_file folder device file s) in
      subst KeptList (sym f.0)
        (update-Kept device file (list_or_empty s.list) u (list_or_empty-Kept s.list k) e)

-- What happens to the entry: an update or a removal of a device's file, with any answers of the
-- database, that ends or fails, and the operations on the tracker for other files.
pub data Step : Entry → Entry → Type 0 where
  updates :
      (get_file : Bytes → Bytes → Bytes → Lookup) (folder device : Bytes) (file : FileInfo)
      (s t : Entry)
      → update_global get_file folder device file s ≡ ends t
      → Step s t
  fails_update :
      (get_file : Bytes → Bytes → Bytes → Lookup) (folder device : Bytes) (file : FileInfo)
      (s : Entry) (m : MetadataTracker)
      → update_global get_file folder device file s ≡ errs m
      → Step s (with_meta s m)
  removes :
      (get_file : Bytes → Bytes → Bytes → Lookup) (folder device name : Bytes) (s t : Entry)
      → remove_from_global get_file folder device name s ≡ ends t
      → Step s t
  fails_removal :
      (get_file : Bytes → Bytes → Bytes → Lookup) (folder device name : Bytes) (s : Entry)
      (m : MetadataTracker)
      → remove_from_global get_file folder device name s ≡ errs m
      → Step s (with_meta s m)
  counts_others : (s : Entry) (m : MetadataTracker) → Reach s.meta m → Step s (with_meta s m)

pub data Reaches : Entry → Type 0 where
  starts : Reaches (record { list = none; local_need = false; meta = new_metadata_tracker })
  goes_on : (s t : Entry) → Reaches s → Step s t → Reaches t

then_reach : {l m n : MetadataTracker} → Reach l m → Reach m n → Reach l n
then_reach p (Reach.stays m) = p
then_reach p (Reach.steps q s) = Reach.steps (then_reach p q) s

-- The list is well kept, and operations make the tracker of a new one.
pub record WellKept (s : Entry) : Type 0 where
  pub list_kept : KeptList s.list
  pub tracked : Reach new_metadata_tracker s.meta

Step-WellKept : (s t : Entry) → Step s t → WellKept s → WellKept t
Step-WellKept _ _ (Step.updates g folder device file s t h) k =
    let f =
      subst (After (Follows _ s.meta) (Reach s.meta)) h
        (update_global-Follows g folder device file s) in
    record {
      list_kept = update_global-Kept g folder device file s t k.list_kept h;
      tracked = then_reach k.tracked f.1;
    }
Step-WellKept _ _ (Step.fails_update g folder device file s m h) k =
    let f =
      subst (After (Follows _ s.meta) (Reach s.meta)) h
        (update_global-Follows g folder device file s) in
    record { list_kept = k.list_kept; tracked = then_reach k.tracked f }
Step-WellKept _ _ (Step.removes g folder device name s t h) k =
    let f =
      subst (After (Follows _ s.meta) (Reach s.meta)) h
        (remove_from_global-Follows g folder device name s) in
    record {
      list_kept = subst KeptList (sym f.0) (without-Kept device s.list k.list_kept);
      tracked = then_reach k.tracked f.1;
    }
Step-WellKept _ _ (Step.fails_removal g folder device name s m h) k =
    let f =
      subst (After (Follows _ s.meta) (Reach s.meta)) h
        (remove_from_global-Follows g folder device name s) in
    record { list_kept = k.list_kept; tracked = then_reach k.tracked f }
Step-WellKept _ _ (Step.counts_others s m r) k = record {
  list_kept = k.list_kept;
  tracked = then_reach k.tracked r;
}

Reaches-WellKept : (s : Entry) → Reaches s → WellKept s
Reaches-WellKept _ Reaches.starts = record {
  list_kept = tt;
  tracked = Reach.stays new_metadata_tracker;
}
Reaches-WellKept _ (Reaches.goes_on s t r p) = Step-WellKept s t p (Reaches-WellKept s r)

-- Whatever updates and removals there are, with whatever answers of the database, and whether they
-- end or fail: if there is a list, then it is not empty, every version of it has a device and no
-- device stands in it twice; and every key of the tracker's index map points to counts of its
-- device and flag.
pub Reaches-Kept : (s : Entry) → Reaches s → KeptList s.list × Keyed s.meta
Reaches-Kept s r = let k = Reaches-WellKept s r in (k.list_kept, Reach-Keyed k.tracked)
