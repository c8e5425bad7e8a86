-- ===== src/VersionList/Last.antt =====
-- When `pop` of back/lib/db/structs.go leaves no version.
use mathlib.Core.Bool.{true≢false}
use mathlib.Core.Option.{some-injective}
use vaporcito.Base.{
  ℕ, zero, suc, ◌≤◌, ◌++◌, ◌∙◌, List, [], ◌∷◌, true, false, Option, none, some, ◌==◌, ◌≡◌, refl,
  sym, subst, arith, Bool, if◌then◌else◌, Bool-cases, either, either_if, Option-cases, inl, inr,
}
use vaporcito.Base.Bytes.{Bytes}
use vaporcito.VersionList.{
  FileVersion, VersionList, find_device, find_global, first_valid, get_global, no_version, is_nil,
  Place, Popped, pop, pop_found, remove_at, set_version, version_at, device_count, same_index,
  first_device, Updated, updated, version_or_none, later_update, first_update, get, at_place,
  version_of, insert, empty, update, Lookup,
}
use vaporcito.VersionList.Count.{total, count}
use vaporcito.VersionList.Insert.{first_device-some, weigh-first_device}
use vaporcito.VersionList.Pop.{Inhabited}
use vaporcito.FileInfo.{FileInfo}
use vaporcito.VersionList.Global.{IsGlobal, get_global-IsGlobal}

is_nil-remove_at :
    (v w : FileVersion) (vs : List FileVersion) (i : ℕ) → is_nil (remove_at (v ∷ w ∷ vs) i) ≡ false
is_nil-remove_at v w vs zero = refl
is_nil-remove_at v w vs (suc i) = refl

is_nil-set_version :
    (vs : List FileVersion) (i : ℕ) (w : FileVersion) → is_nil (set_version vs i w) ≡ is_nil vs
is_nil-set_version [] i w = refl
is_nil-set_version (v ∷ vs) zero w = refl
is_nil-set_version (v ∷ vs) (suc i) w = refl

-- The version at a place of a list that `pop` would empty.
is_nil-remove_last :
    (v : FileVersion) (vs : List FileVersion) (i : ℕ)
    → same_index (find_global (v ∷ vs)) i ≡ false
    → is_nil (remove_at (v ∷ vs) i) ≡ false
unfolding find_global first_valid
is_nil-remove_last v (w ∷ vs) i h = is_nil-remove_at v w vs i
is_nil-remove_last v [] zero h = ground arith
is_nil-remove_last v [] (suc i) h = refl

pop_found_full :
    (v : FileVersion) (vs : List FileVersion) (p : Place)
    → (pop_found (v ∷ vs) (find_global (v ∷ vs)) p).global_changed ≡ false
    → is_nil (pop_found (v ∷ vs) (find_global (v ∷ vs)) p).list ≡ false
unfolding pop_found
pop_found_full v vs p h = elim (Bool-cases (device_count (version_at (v ∷ vs) p.at_version) == 1)) [
  | inl e ↦ rw e (is_nil-remove_last v vs p.at_version (rw e at h))
  | inr e ↦ elim (Bool-cases p.invalid) [
    | inl k ↦ rw (e, k) (is_nil-set_version (v ∷ vs) p.at_version _)
    | inr k ↦ rw (e, k) (is_nil-set_version (v ∷ vs) p.at_version _)
  ]
]

-- What `pop` does by whether it finds the device.
abbrev popped_at : List FileVersion → Option Place → Popped
popped_at vs none = record {
  list = vs;
  removed = no_version;
  found = false;
  global_changed = false;
}
popped_at vs (some p) = pop_found vs (find_global vs) p

pop-popped_at : (vs : List FileVersion) (d : Bytes) → pop vs d ≡ popped_at vs (find_device vs d)
unfolding pop
pop-popped_at vs d = from (find_device vs d)
  where
    from :
        (o : Option Place)
        → elim o [
          | none ↦ record { list = vs; removed = no_version; found = false; global_changed = false }
          | some p ↦ pop_found vs (find_global vs) p
        ]
          ≡ popped_at vs o
    from none = refl
    from (some p) = refl

popped_at_full :
    (vs : List FileVersion) (o : Option Place)
    → is_nil vs ≡ false
    → (popped_at vs o).global_changed ≡ false
    → is_nil (popped_at vs o).list ≡ false
popped_at_full vs none h k = h
popped_at_full [] (some p) h k = cc
popped_at_full (v ∷ vs) (some p) h k = pop_found_full v vs p k

-- The last version of a list goes only together with a change of the global one.
pub pop_full :
    (vs : List FileVersion) (d : Bytes)
    → is_nil vs ≡ false
    → (pop vs d).global_changed ≡ false
    → is_nil (pop vs d).list ≡ false
pop_full vs d h k =
    subst (λ p. is_nil p.list ≡ false) (sym (pop-popped_at vs d))
      (popped_at_full vs (find_device vs d) h
        (subst (λ p. p.global_changed ≡ false) (pop-popped_at vs d) k))

popped_at_not_found :
    (vs : List FileVersion) (o : Option Place)
    → (popped_at vs o).found ≡ false
    → (popped_at vs o).list ≡ vs
unfolding pop_found
popped_at_not_found vs none h = refl
popped_at_not_found vs (some p) h = ground arith

-- `pop` leaves a list without its device alone.
pub pop_not_found :
    (vs : List FileVersion) (d : Bytes) → (pop vs d).found ≡ false → (pop vs d).list ≡ vs
pop_not_found vs d h =
    subst (λ p. p.list ≡ vs) (sym (pop-popped_at vs d))
      (popped_at_not_found vs (find_device vs d)
        (subst (λ p. p.found ≡ false) (pop-popped_at vs d) h))

-- Only the empty list has no global version.
pub get_global-none : (vl : VersionList) → get_global vl ≡ none → is_nil vl.raw_versions ≡ true
get_global-none vl h = from vl.raw_versions (get_global vl) (get_global-IsGlobal vl) h
  where
    from :
        (vs : List FileVersion) (o : Option FileVersion)
        → IsGlobal vs o
        → o ≡ none
        → is_nil vs ≡ true
    from vs none e k = rw e refl
    from vs (some fv) e k = cc

first_at :
    (before after : List FileVersion) (v : FileVersion)
    → Inhabited (before ++ v ∷ after)
    → (d : Bytes) × (1 ≤ count d (before ++ v ∷ after)) × (first_device v ≡ some d)
unfolding total
first_at [] after v h =
    let (d, e) = first_device-some v h.0 in (d, omega (arith, weigh-first_device v d e), e)
first_at (w ∷ before) after v h = let (d, c, e) = first_at before after v h.1 in (d, omega arith, e)

-- If every version has a device, then so has the global one, and the device stands in the list.
pub get_global-device :
    (vl : VersionList) (v : FileVersion)
    → Inhabited vl.raw_versions
    → get_global vl ≡ some v
    → (d : Bytes) × (1 ≤ count d vl.raw_versions) × (first_device v ≡ some d)
get_global-device vl v h g =
    from vl.raw_versions h (subst (IsGlobal vl.raw_versions) g (get_global-IsGlobal vl))
  where
    from :
        (vs : List FileVersion)
        → Inhabited vs
        → IsGlobal vs (some v)
        → (d : Bytes) × (1 ≤ count d vs) × (first_device v ≡ some d)
    from vs h (inl (before, after, e, bad, good)) =
        rw e (first_at before after v (subst Inhabited e h))
    from vs h (inr (bad, (rest, e))) = rw e (first_at [] rest v (subst Inhabited e h))

-- A list that is not empty has a global version.
pub get_global-full :
    (vl : VersionList)
    → is_nil vl.raw_versions ≡ false
    → (v : FileVersion) × (get_global vl ≡ some v)
get_global-full vl h = elim (Option-cases (get_global vl)) [
  | inl e ↦ absurd (true≢false (sym (get_global-none vl e) ∙ h))
  | inr p ↦ p
]

updated-results :
    (old : Option FileVersion) (p : Popped) (new : Option FileVersion)
    → ((updated old p new).new_version ≡ version_or_none new)
      × ((updated old p new).have_old_global ≡ true → old ≡ some (updated old p new).old_version)
unfolding updated
updated-results none p new = (refl, λ e. cc)
updated-results (some old) p new = (refl, λ e. refl)

-- What the results of `update` say of the global versions before and after.
abbrev pub Tells : VersionList → VersionList → Updated → Type 0
Tells old new u =
    (u.new_version ≡ version_or_none (get_global new))
    × (u.have_old_global ≡ true → get_global old ≡ some u.old_version)

get_global_one : (v : FileVersion) → get_global (record { raw_versions = v ∷ [] }) ≡ some v
unfolding get_global find_global first_valid
get_global_one v = ground arith

first_update-Tells :
    (old : VersionList) (v : FileVersion) (u : Updated)
    → (first_update v).1 ≡ some u
    → Tells old (first_update v).0 u
first_update-Tells old v u h =
    subst (Tells old (first_update v).0) (some-injective _ u h)
      (rw (get_global_one v) refl, λ e. cc)

later_update-Tells :
    (old : VersionList) (p : Popped) (l : Option (List FileVersion)) (u : Updated)
    → (later_update (get_global old) p l).1 ≡ some u
    → Tells old (later_update (get_global old) p l).0 u
later_update-Tells old p none u h = cc
later_update-Tells old p (some l) u h =
    subst (Tells old (record { raw_versions = l })) (some-injective _ u h)
      (updated-results (get_global old) p (get_global (record { raw_versions = l })))

pub update-Tells :
    (get_file : Bytes → Bytes → Bytes → Lookup) (folder : Bytes) (vl : VersionList) (device : Bytes)
    (file : FileInfo) (u : Updated)
    → (update get_file folder vl device file).1 ≡ some u
    → Tells vl (update get_file folder vl device file).0 u
unfolding update
update-Tells get_file folder vl device file u h =
    either (λ (r : VersionList × Option Updated). r.1 ≡ some u → Tells vl r.0 u) (empty vl)
      (first_update-Tells vl (version_of device file) u)
      (later_update-Tells vl (pop vl.raw_versions device)
        (insert get_file folder (pop vl.raw_versions device).list device file) u)
      h

abbrev pub old_of : Updated → Option FileVersion
old_of u = if u.have_old_global then some u.old_version else none

abbrev pub is_got : Option FileVersion → Bool
is_got none = false
is_got (some fv) = true

-- What the results of `update` say of the list before it.
pub record Was (old : VersionList) (device : Bytes) (u : Updated) : Type 0 where
  pub global : old_of u ≡ get_global old
  pub had : u.have_removed ≡ is_got (get old device)
  pub removed : u.removed ≡ version_or_none (get old device)

popped_at-at_place :
    (vs : List FileVersion) (o : Option Place)
    → ((popped_at vs o).found ≡ is_got (at_place vs o))
      × ((popped_at vs o).removed ≡ version_or_none (at_place vs o))
unfolding pop_found
popped_at-at_place vs none = (refl, refl)
popped_at-at_place vs (some p) = (ground arith, ground arith)

pop-get :
    (vl : VersionList) (d : Bytes)
    → ((pop vl.raw_versions d).found ≡ is_got (get vl d))
      × ((pop vl.raw_versions d).removed ≡ version_or_none (get vl d))
unfolding get
pop-get vl d =
    subst
      (λ (p : Popped).
        (p.found ≡ is_got (at_place vl.raw_versions (find_device vl.raw_versions d)))
        × (p.removed ≡ version_or_none (at_place vl.raw_versions (find_device vl.raw_versions d))))
      (sym (pop-popped_at vl.raw_versions d))
      (popped_at-at_place vl.raw_versions (find_device vl.raw_versions d))

updated-Was :
    (vl : VersionList) (d : Bytes) (old new : Option FileVersion)
    → get_global vl ≡ old
    → Was vl d (updated old (pop vl.raw_versions d) new)
unfolding updated
updated-Was vl d none new g = record {
  global = sym g;
  had = (pop-get vl d).0;
  removed = (pop-get vl d).1;
}
updated-Was vl d (some old) new g = record {
  global = sym g;
  had = (pop-get vl d).0;
  removed = (pop-get vl d).1;
}

later_update-Was :
    (vl : VersionList) (d : Bytes) (l : Option (List FileVersion)) (u : Updated)
    → (later_update (get_global vl) (pop vl.raw_versions d) l).1 ≡ some u
    → Was vl d u
later_update-Was vl d none u h = cc
later_update-Was vl d (some l) u h =
    subst (Was vl d) (some-injective _ u h) (updated-Was vl d (get_global vl) _ refl)

first_update-Was :
    (vs : List FileVersion) (d : Bytes) (v : FileVersion) (u : Updated)
    → is_nil vs ≡ true
    → (first_update v).1 ≡ some u
    → Was (record { raw_versions = vs }) d u
unfolding get_global find_global get find_device
first_update-Was [] d v u n h =
    subst (Was (record { raw_versions = [] }) d) (some-injective _ u h)
      (record { global = refl; had = refl; removed = refl })
first_update-Was (w ∷ vs) d v u n h = cc

pub update-Was :
    (get_file : Bytes → Bytes → Bytes → Lookup) (folder : Bytes) (vl : VersionList) (device : Bytes)
    (file : FileInfo) (u : Updated)
    → (update get_file folder vl device file).1 ≡ some u
    → Was vl device u
unfolding update empty
update-Was get_file folder vl device file u h =
    either_if (λ (r : VersionList × Option Updated). r.1 ≡ some u → Was vl device u)
      (is_nil vl.raw_versions)
      (λ e. first_update-Was vl.raw_versions device (version_of device file) u e)
      (λ e.
        later_update-Was vl device
          (insert get_file folder (pop vl.raw_versions device).list device file) u)
      h
