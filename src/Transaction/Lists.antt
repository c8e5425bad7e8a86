-- ===== src/Transaction/Lists.antt =====
-- The version list and the tracker after `updateGlobal` and `removeFromGlobal` of
-- back/lib/db/transactions.go.
use vaporcito.Base.{
  List, [], ◌∷◌, true, false, Option, none, some, ◌≡◌, ◌≢◌, refl, sym, ap, ◌∙◌, arith, Bool-cases,
  inl, inr,
}
use vaporcito.Base.Bytes.{Bytes}
use vaporcito.FileInfo.{FileInfo}
use vaporcito.Meta.{MetadataTracker}
use vaporcito.Meta.Reach.{Reach, Step}
use vaporcito.VersionList.{
  FileVersion, VersionList, find_device, find_global, get_global, empty, is_nil, pop, Lookup,
  update,
}
use vaporcito.VersionList.Last.{pop_full, pop_not_found, get_global-none}
use vaporcito.Transaction.State.{Entry}
use vaporcito.Transaction.Update.{list_or_empty, update_global}
use vaporcito.Transaction.Remove.{after_pop, remove_from_list, remove_at_key, remove_from_global}
use vaporcito.Transaction.Closure.{Closed, After, update_global-After, with_removed_need-After}

-- An entry with a list and a tracker that operations lead to.
abbrev pub Follows : Option VersionList → MetadataTracker → Entry → Type 0
Follows l m s = (s.list ≡ l) × Reach m s.meta

Follows-Closed : (l : Option VersionList) (m : MetadataTracker) → Closed (Follows l m)
Follows-Closed l m = record {
  ending = λ s dev f p. (p.0, Reach.steps p.1 (Step.removes_needed s.meta dev f));
  beginning = λ s dev f p. (p.0, Reach.steps p.1 (Step.adds_needed s.meta dev f));
  uncounting = λ s dev f p. (p.0, Reach.steps p.1 (Step.removes s.meta dev f));
  counting = λ s dev f p. (p.0, Reach.steps p.1 (Step.adds s.meta dev f));
  writing = λ s b p. p;
}

-- The list that is left in the database without a device.
abbrev pub left_of : List FileVersion → Option VersionList
left_of [] = none
left_of (v ∷ vs) = some (record { raw_versions = v ∷ vs })

abbrev pub without : Bytes → Option VersionList → Option VersionList
without device none = none
without device (some vl) = left_of (pop vl.raw_versions device).list

left_of-full :
    (vs : List FileVersion) → is_nil vs ≡ false → some (record { raw_versions = vs }) ≡ left_of vs
left_of-full [] h = cc
left_of-full (v ∷ vs) h = refl

left_of-empty : (vs : List FileVersion) → is_nil vs ≡ true → none ≡ left_of vs
left_of-empty [] h = refl
left_of-empty (v ∷ vs) h = cc

without_empty :
    (device : Bytes) (vs : List FileVersion)
    → is_nil vs ≡ true
    → none ≡ left_of (pop vs device).list
unfolding pop find_device
without_empty device [] h = refl
without_empty device (v ∷ vs) h = cc

some_global :
    (vl : VersionList) (old : FileVersion)
    → is_nil vl.raw_versions ≡ true
    → get_global vl ≢ some old
unfolding get_global find_global
some_global vl old h g = from vl.raw_versions h g
  where
    from :
        (vs : List FileVersion)
        → is_nil vs ≡ true
        → get_global (record { raw_versions = vs }) ≢ some old
    from [] h g = ground arith
    from (v ∷ vs) h g = cc

module _ (get_file : Bytes → Bytes → Bytes → Lookup) (folder : Bytes) where
  -- An update that ends leaves the list that `update` makes; whether it ends or fails, the tracker
  -- that it leaves is one that operations of the tracker make of the one before.
  pub update_global-Follows :
      (device : Bytes) (file : FileInfo) (s : Entry)
      → After
          (Follows (some (update get_file folder (list_or_empty s.list) device file).0) s.meta)
          (Reach s.meta)
          (update_global get_file folder device file s)
  update_global-Follows device file s =
      update_global-After _ (Reach s.meta) (Follows-Closed _ s.meta) (λ t p. p.1) get_file folder
        device file s (refl, Reach.stays s.meta) (Reach.stays s.meta)

  after_pop-Follows :
      (device name : Bytes) (old : FileVersion) (vl : VersionList) (s : Entry)
      → is_nil vl.raw_versions ≡ false
      → s.list ≡ some vl
      → After
          (Follows (left_of (pop vl.raw_versions device).list) s.meta)
          (Reach s.meta)
          (after_pop get_file folder device name old (pop vl.raw_versions device) s)
  unfolding empty
  after_pop-Follows device name old vl s full h =
      elim (Bool-cases (pop vl.raw_versions device).found) [
        | inl e ↦ simp e (
            with_removed_need-After (Follows (some vl) s.meta) (Reach s.meta)
              (Follows-Closed _ s.meta) (λ t p. p.1) get_file folder
              (Follows (left_of (pop vl.raw_versions device).list) s.meta)
              (record { raw_versions = (pop vl.raw_versions device).list })
              (λ t k p. (left_of-empty _ k, p.1)) (λ t k p. (left_of-full _ k, p.1)) device name old
              (pop vl.raw_versions device) s (pop_full vl.raw_versions device full)
              (h, Reach.stays s.meta))
        | inr e ↦ simp e (
          h
              ∙ left_of-full vl.raw_versions full
              ∙ ap left_of (sym (pop_not_found vl.raw_versions device e)),
          Reach.stays s.meta,
        )
      ]

  remove_from_list-Follows :
      (device name : Bytes) (vl : VersionList) (s : Entry)
      → s.list ≡ some vl
      → (g : Option FileVersion) → get_global vl ≡ g
      → After
          (Follows (without device (some vl)) s.meta)
          (Reach s.meta)
          (remove_from_list get_file folder device name vl g s)
  remove_from_list-Follows device name vl s h none g =
      (without_empty device vl.raw_versions (get_global-none vl g), Reach.stays s.meta)
  remove_from_list-Follows device name vl s h (some old) g =
      after_pop-Follows device name old vl s
        (elim (Bool-cases (is_nil vl.raw_versions)) [
          | inl e ↦ absurd (some_global vl old e g)
          | inr e ↦ e
        ])
        h

  -- A removal that ends leaves the list without the device, or no list if it was the last one;
  -- whether it ends or fails, the tracker that it leaves is one that operations of the tracker make
  -- of the one before.
  pub remove_from_global-Follows :
      (device name : Bytes) (s : Entry)
      → After
          (Follows (without device s.list) s.meta)
          (Reach s.meta)
          (remove_from_global get_file folder device name s)
  unfolding remove_from_global
  remove_from_global-Follows device name s = from s.list refl
    where
      from :
          (l : Option VersionList)
          → s.list ≡ l
          → After
              (Follows (without device l) s.meta)
              (Reach s.meta)
              (remove_at_key get_file folder device name l s)
      from none h = (h, Reach.stays s.meta)
      from (some vl) h = remove_from_list-Follows device name vl s h (get_global vl) refl
