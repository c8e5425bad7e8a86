-- ===== src/Upgrade/Compare.antt =====
-- `CompareVersions` in both directions, and when it says that two versions are equal.
use vaporcito.Base.{
  List, [], ◌∷◌, Bool, true, false, Option, none, some, length, ◌≡◌, refl, ap, arith, Bool-cases,
  inl, inr,
}
use vaporcito.Base.Int.{ℤ, pos, ltb_ℤ, ◌==ℤ◌, ltb_ℤ_total}
use vaporcito.Base.Bytes.{Bytes}
use vaporcito.Upgrade.{
  Relation, major_older, older, equal, newer, major_newer, Part, number, text, Parts, bytes_less,
  release_loop, compare_number, major_below, major_above, by_length, by_presence, compare_part,
  or_else, prerelease_loop, or_equal, compare_parts, version_parts, compare_versions,
}

-- The relation seen from the other side.
abbrev pub opposite : Relation → Relation
opposite major_older = major_newer
opposite older = newer
opposite equal = equal
opposite newer = older
opposite major_newer = major_older

abbrev turned : Option Relation → Option Relation
turned none = none
turned (some r) = some (opposite r)

or_else-turned : (a b : Option Relation) → turned (or_else a b) ≡ or_else (turned a) (turned b)
or_else-turned none b = refl
or_else-turned (some r) b = refl

or_equal-turned : (a : Option Relation) → or_equal (turned a) ≡ opposite (or_equal a)
or_equal-turned none = refl
or_equal-turned (some r) = refl

opposite-opposite : (r : Relation) → opposite (opposite r) ≡ r
opposite-opposite major_older = refl
opposite-opposite older = refl
opposite-opposite equal = refl
opposite-opposite newer = refl
opposite-opposite major_newer = refl

ltb_ℤ_asymm : (x y : ℤ) → ltb_ℤ x y ≡ true → ltb_ℤ y x ≡ false
ltb_ℤ_asymm x y h = ground arith

major_turned : (x y : ℤ) → major_above y x ≡ opposite (major_below x y)
major_turned x y = elim (Bool-cases (x ==ℤ pos 0)) [
  | inl h ↦ elim (Bool-cases (y ==ℤ pos 1)) [ inl k ↦ rw (h, k) refl | inr k ↦ rw (h, k) refl ]
  | inr h ↦ elim (Bool-cases (y ==ℤ pos 1)) [ inl k ↦ rw (h, k) refl | inr k ↦ rw (h, k) refl ]
]

compare_number-turned :
    (first : Bool) (x y : ℤ) → compare_number first y x ≡ turned (compare_number first x y)
unfolding compare_number
compare_number-turned true x y = elim (Bool-cases (ltb_ℤ x y)) [
  | inl h ↦ rw (h, ltb_ℤ_asymm x y h) (ap some (major_turned x y))
  | inr h ↦ elim (Bool-cases (ltb_ℤ y x)) [
    | inl k ↦ rw (h, k) (ap some (rw (major_turned y x, opposite-opposite) refl))
    | inr k ↦ rw (h, k) refl
  ]
]
compare_number-turned false x y = elim (Bool-cases (ltb_ℤ x y)) [
  | inl h ↦ rw (h, ltb_ℤ_asymm x y h) refl
  | inr h ↦ elim (Bool-cases (ltb_ℤ y x)) [ inl k ↦ rw (h, k) refl | inr k ↦ rw (h, k) refl ]
]

release_loop-turned :
    (first : Bool) (a b : List ℤ) → release_loop first b a ≡ turned (release_loop first a b)
unfolding release_loop
release_loop-turned first [] [] = refl
release_loop-turned first [] (y ∷ b) = refl
release_loop-turned first (x ∷ a) [] = refl
release_loop-turned first (x ∷ a) (y ∷ b) =
    rw (compare_number-turned first x y, release_loop-turned false a b, or_else-turned) refl

by_length-turned {ℓ} : {A : Type ℓ} (a b : List A) → by_length b a ≡ turned (by_length a b)
by_length-turned a b = ground arith

by_presence-turned : (a b : List Part) → by_presence b a ≡ turned (by_presence a b)
by_presence-turned a b = ground arith

bytes_less_asymm : (a b : Bytes) → bytes_less a b ≡ true → bytes_less b a ≡ false
unfolding bytes_less
bytes_less_asymm a [] h = ground arith
bytes_less_asymm [] (y ∷ b) h = refl
bytes_less_asymm (x ∷ a) (y ∷ b) h = ground (arith, bytes_less_asymm a b)

bytes_less_total : (a b : Bytes) → bytes_less a b ≡ false → bytes_less b a ≡ false → a ≡ b
unfolding bytes_less
bytes_less_total [] [] h k = refl
bytes_less_total (x ∷ a) [] h k = ground arith
bytes_less_total [] (y ∷ b) h k = ground arith
bytes_less_total (x ∷ a) (y ∷ b) h k = ground (arith, bytes_less_total a b)

compare_part-turned : (x y : Part) → compare_part y x ≡ turned (compare_part x y)
compare_part-turned (number x) (number y) = ground arith
compare_part-turned (number x) (text t) = refl
compare_part-turned (text s) (number y) = refl
compare_part-turned (text s) (text t) = ground (arith, bytes_less_asymm s t, bytes_less_asymm t s)

prerelease_loop-turned : (a b : List Part) → prerelease_loop b a ≡ turned (prerelease_loop a b)
unfolding prerelease_loop
prerelease_loop-turned [] [] = refl
prerelease_loop-turned [] (y ∷ b) = refl
prerelease_loop-turned (x ∷ a) [] = refl
prerelease_loop-turned (x ∷ a) (y ∷ b) =
    rw (compare_part-turned x y, prerelease_loop-turned a b, or_else-turned) refl

compare_parts-opposite : (a b : Parts) → compare_parts b a ≡ opposite (compare_parts a b)
unfolding compare_parts
compare_parts-opposite a b =
    rw
      (
        release_loop-turned true a.release b.release,
        by_length-turned a.release b.release,
        by_presence-turned a.prerelease b.prerelease,
        prerelease_loop-turned a.prerelease b.prerelease,
        by_length-turned a.prerelease b.prerelease,
        ← or_else-turned,
        ← or_else-turned,
        ← or_else-turned,
        ← or_else-turned,
        or_equal-turned,
      )
      refl

-- Comparing in the other order gives the opposite relation: newer for older, a major difference for
-- a major difference, and equal for equal, for any two strings.
pub compare_versions-opposite :
    (a b : Bytes) → compare_versions b a ≡ opposite (compare_versions a b)
unfolding compare_versions
compare_versions-opposite a b = compare_parts-opposite (version_parts a) (version_parts b)

compare_number_same : (first : Bool) (x y : ℤ) → compare_number first x y ≡ none → x ≡ y
unfolding compare_number
compare_number_same first x y h = ground (arith, ltb_ℤ_total x y)

release_loop_same :
    (first : Bool) (a b : List ℤ) → release_loop first a b ≡ none → length a ≡ length b → a ≡ b
unfolding release_loop
release_loop_same first [] [] h e = refl
release_loop_same first [] (y ∷ b) h e = absurd (omega arith)
release_loop_same first (x ∷ a) [] h e = absurd (omega arith)
release_loop_same first (x ∷ a) (y ∷ b) h e =
    ground (arith, release_loop_same false a b, compare_number_same first x y)

compare_part_same : (x y : Part) → compare_part x y ≡ none → x ≡ y
compare_part_same (number x) (number y) h = ground (arith, ltb_ℤ_total x y)
compare_part_same (number x) (text t) h = ground arith
compare_part_same (text s) (number y) h = ground arith
compare_part_same (text s) (text t) h = ground (arith, bytes_less_total s t)

prerelease_loop_same : (a b : List Part) → prerelease_loop a b ≡ none → length a ≡ length b → a ≡ b
unfolding prerelease_loop
prerelease_loop_same [] [] h e = refl
prerelease_loop_same [] (y ∷ b) h e = absurd (omega arith)
prerelease_loop_same (x ∷ a) [] h e = absurd (omega arith)
prerelease_loop_same (x ∷ a) (y ∷ b) h e =
    ground (arith, compare_part_same x y, prerelease_loop_same a b)

-- A step of the chain returns no `equal`.
abbrev decisive : Option Relation → Bool
decisive (some equal) = false
decisive _ = true

compare_number-decisive : (first : Bool) (x y : ℤ) → decisive (compare_number first x y) ≡ true
unfolding compare_number
compare_number-decisive first x y = elim first [ true ↦ ground arith | false ↦ ground arith ]

or_else-decisive :
    (o k : Option Relation) → decisive o ≡ true → decisive k ≡ true → decisive (or_else o k) ≡ true
or_else-decisive none k h j = j
or_else-decisive (some r) k h j = h

release_loop-decisive : (first : Bool) (a b : List ℤ) → decisive (release_loop first a b) ≡ true
unfolding release_loop
release_loop-decisive first [] b = refl
release_loop-decisive first (x ∷ a) [] = refl
release_loop-decisive first (x ∷ a) (y ∷ b) =
    or_else-decisive (compare_number first x y) (release_loop false a b)
      (compare_number-decisive first x y) (release_loop-decisive false a b)

compare_part-decisive : (x y : Part) → decisive (compare_part x y) ≡ true
compare_part-decisive (number x) (number y) = ground arith
compare_part-decisive (number x) (text t) = refl
compare_part-decisive (text s) (number y) = refl
compare_part-decisive (text s) (text t) = ground arith

prerelease_loop-decisive : (a b : List Part) → decisive (prerelease_loop a b) ≡ true
unfolding prerelease_loop
prerelease_loop-decisive [] b = refl
prerelease_loop-decisive (x ∷ a) [] = refl
prerelease_loop-decisive (x ∷ a) (y ∷ b) =
    or_else-decisive (compare_part x y) (prerelease_loop a b) (compare_part-decisive x y)
      (prerelease_loop-decisive a b)

by_length-decisive {ℓ} : {A : Type ℓ} (a b : List A) → decisive (by_length a b) ≡ true
by_length-decisive a b = ground arith

by_length_same {ℓ} : {A : Type ℓ} (a b : List A) → by_length a b ≡ none → length a ≡ length b
by_length_same a b h = ground arith

by_presence-decisive : (a b : List Part) → decisive (by_presence a b) ≡ true
by_presence-decisive a b = ground arith

-- A step whose chain says `equal` says nothing, and the rest says `equal`.
or_else_equal :
    (o k : Option Relation)
    → decisive o ≡ true
    → or_equal (or_else o k) ≡ equal
    → (o ≡ none) × (or_equal k ≡ equal)
or_else_equal none k h e = (refl, e)
or_else_equal (some major_older) k h e = ground arith
or_else_equal (some older) k h e = ground arith
or_else_equal (some equal) k h e = ground arith
or_else_equal (some newer) k h e = ground arith
or_else_equal (some major_newer) k h e = ground arith

or_equal-none : (o : Option Relation) → decisive o ≡ true → or_equal o ≡ equal → o ≡ none
or_equal-none none h e = refl
or_equal-none (some r) h e = (or_else_equal (some r) none h e).0

compare_parts_sound :
    (a b : Parts)
    → compare_parts a b ≡ equal
    → (a.release ≡ b.release) × (a.prerelease ≡ b.prerelease)
unfolding compare_parts
compare_parts_sound a b e =
    let s1 = or_else_equal _ _ (release_loop-decisive true a.release b.release) e in
    let s2 = or_else_equal _ _ (by_length-decisive a.release b.release) s1.1 in
    let s3 = or_else_equal _ _ (by_presence-decisive a.prerelease b.prerelease) s2.1 in
    let s4 = or_else_equal _ _ (prerelease_loop-decisive a.prerelease b.prerelease) s3.1 in
    let s5 = or_equal-none _ (by_length-decisive a.prerelease b.prerelease) s4.1 in
    (
      release_loop_same true a.release b.release s1.0 (by_length_same a.release b.release s2.0),
      prerelease_loop_same a.prerelease b.prerelease s4.0
          (by_length_same a.prerelease b.prerelease s5),
    )

-- Two version strings compare as equal only if their release numbers are the same and their
-- prereleases have the same parts.
pub compare_versions_sound :
    (a b : Bytes)
    → compare_versions a b ≡ equal
    → ((version_parts a).release ≡ (version_parts b).release)
      × ((version_parts a).prerelease ≡ (version_parts b).prerelease)
unfolding compare_versions
compare_versions_sound a b e = compare_parts_sound (version_parts a) (version_parts b) e
