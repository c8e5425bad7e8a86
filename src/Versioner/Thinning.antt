-- ===== src/Versioner/Thinning.antt =====
-- What the staggered versioner leaves: `toRemove` of back/lib/versioner/staggered.go.
use vaporcito.Base.{
  List, [], ◌∷◌, Bool, false, ◌||◌, ◌&&◌, Option, none, some, ◌≡◌, inl, inr, refl, arith,
  Bool-cases, Option-cases, if◌then◌else◌,
}
use vaporcito.Base.Int.{ℤ, pos, ltb_ℤ, ◌-ℤ◌}
use vaporcito.Base.{All}
use vaporcito.Base.Bytes.{Bytes}
use vaporcito.Versioner.{
  or_year, new_staggered, used_interval, over_maximum, too_many, to_remove_loop,
  staggered_to_remove,
}

-- A list dealt out to two, in order.
pub data Split : List Bytes → List Bytes → List Bytes → Type 0 where
  over : Split [] [] []
  goes :
      {x : Bytes} {all gone kept : List Bytes}
      → Split all gone kept
      → Split (x ∷ all) (x ∷ gone) kept
  stays :
      {x : Bytes} {all gone kept : List Bytes}
      → Split all gone kept
      → Split (x ∷ all) gone (x ∷ kept)

-- In seconds: half a minute in the first hour, an hour in the first day, a day in the first 30
-- days, and a week from then on.
abbrev pub required_gap : ℤ → ℤ
required_gap age =
    if ltb_ℤ age (pos 3600)
    then pos 30
    else if ltb_ℤ age (pos 86400)
    then pos 3600
    else if ltb_ℤ age (pos 2592000)
    then pos 86400
    else pos 604800

-- Older than the maximum age, where zero is no maximum and a year is meant if there is none.
abbrev pub expired : Option ℤ → ℤ → Bool
expired max_age age = ltb_ℤ (pos 0) (or_year max_age) && ltb_ℤ (or_year max_age) age

-- The version is closer to the one that was kept before it than its age asks.
abbrev pub too_close : Option ℤ → ℤ → Bool
too_close none age = false
too_close (some prev) age = ltb_ℤ (prev -ℤ age) (required_gap age)

pub over_maximum_lem :
    (max_age : Option ℤ) (age : ℤ) → over_maximum (new_staggered max_age) age ≡ expired max_age age
unfolding new_staggered
over_maximum_lem max_age age = refl

too_many_lem :
    (max_age : Option ℤ) (prev : Option ℤ) (age : ℤ)
    → too_many (new_staggered max_age) prev age ≡ too_close prev age
unfolding new_staggered used_interval
too_many_lem max_age none age = refl
too_many_lem max_age (some p) age = ground arith

-- A version that is not younger than the other one, if both have a time.
abbrev pub NotYounger : Option ℤ → Option ℤ → Type 0
NotYounger none b = Unit
NotYounger (some a) none = Unit
NotYounger (some a) (some b) = ltb_ℤ a b ≡ false

module _ (age_of : Bytes → Option ℤ) where
  unfoldable pub OldestFirst : List Bytes → Type 0
  OldestFirst [] = Unit
  OldestFirst (x ∷ xs) = All (λ y. NotYounger (age_of x) (age_of y)) xs × OldestFirst xs

  module _ (max_age : Option ℤ) where
    -- Versions that have not expired and are not too close to the one before them.
    abbrev pub SpacedAt : Option ℤ → Option ℤ → Type 0 → (ℤ → Type 0) → Type 0
    SpacedAt prev none same next = same
    SpacedAt prev (some age) same next =
        (expired max_age age ≡ false) × (too_close prev age ≡ false) × next age

    unfoldable pub Spaced : Option ℤ → List Bytes → Type 0
    Spaced prev [] = Unit
    Spaced prev (x ∷ xs) = SpacedAt prev (age_of x) (Spaced prev xs) (λ age. Spaced (some age) xs)

    pub record Thinned (prev : Option ℤ) (all : List Bytes) : Type 0 where
      pub kept : List Bytes
      pub split : Split all (to_remove_loop age_of (new_staggered max_age) prev all) kept
      spaced : Spaced prev kept
      stable : to_remove_loop age_of (new_staggered max_age) prev kept ≡ []

    pub thinned : (prev : Option ℤ) (all : List Bytes) → Thinned prev all
    unfolding to_remove_loop Spaced
    thinned prev [] = record { kept = []; split = over; spaced = tt; stable = refl }
    thinned prev (x ∷ xs) = elim (Option-cases (age_of x)) [
      | inl e ↦
          (let t = thinned prev xs in
            record {
              kept = x ∷ t.kept;
              split = rw e (stays t.split);
              spaced = rw e t.spaced;
              stable = rw e t.stable;
            })
      | inr (age, e) ↦ elim (Bool-cases (expired max_age age || too_close prev age)) [
        | inl h ↦
            (let t = thinned prev xs in
              record {
                kept = t.kept;
                split =
                    rw (e, over_maximum_lem max_age age, too_many_lem max_age prev age, h)
                      (goes t.split);
                spaced = t.spaced;
                stable = t.stable;
              })
        | inr h ↦
            (let t = thinned (some age) xs in
              record {
                kept = x ∷ t.kept;
                split =
                    rw (e, over_maximum_lem max_age age, too_many_lem max_age prev age, h)
                      (stays t.split);
                spaced = rw e (ground (arith, h), ground (arith, h), t.spaced);
                stable =
                    rw (e, over_maximum_lem max_age age, too_many_lem max_age prev age, h) t.stable;
              })
      ]
    ]

    -- What is left of the versions has not expired and is as far apart as its age asks; the versions
    -- that are removed and those that are left are the sorted ones, in their order; and another run
    -- over what is left removes nothing, provided that sorting leaves a part of a sorted list as it
    -- is.
    pub staggered_to_remove-Spaced :
        (sort : List Bytes → List Bytes) (versions : List Bytes)
        → ((part all rest : List Bytes) → Split (sort all) rest part → sort part ≡ part)
        → (kept : List Bytes) × Split
            (sort versions)
            (staggered_to_remove sort age_of (new_staggered max_age) versions)
            kept
          × Spaced none kept
          × (staggered_to_remove sort age_of (new_staggered max_age) kept ≡ [])
    unfolding staggered_to_remove
    staggered_to_remove-Spaced sort versions sorted =
        let t = thinned none (sort versions) in
        (t.kept, t.split, t.spaced, rw (sorted t.kept versions _ t.split) t.stable)
