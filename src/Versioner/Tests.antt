-- ===== src/Versioner/Tests.antt =====
-- Runs of the versioners.
use vaporcito.Base.{List, [], ◌∷◌, ◌==◌, Option, none, some, ◌≡◌, refl, if◌then◌else◌}
use vaporcito.Base.Int.{ℤ, pos, ◌-ℤ◌}
use vaporcito.Base.Bytes.{Bytes, codes}
use vaporcito.Versioner.{new_staggered, used_interval, to_remove_loop, staggered_to_remove, Simple}
use vaporcito.Versioner.Thinning.{Split, Spaced, OldestFirst, staggered_to_remove-Spaced}
use vaporcito.Versioner.Eldest.{first, later, Elder, staggered_to_remove-Elder}

-- Names of one letter, and their ages in seconds.
abbrev age_of : Bytes → Option ℤ
age_of (c ∷ []) =
    if c == 65
    then some (pos 40000000)
    else if c == 66
    then some (pos 100)
    else if c == 67
    then some (pos 90)
    else if c == 68
    then some (pos 50)
    else none
age_of _ = none

abbrev names : List Bytes
names = codes "A" ∷ codes "B" ∷ codes "C" ∷ codes "D" ∷ codes "E" ∷ []

-- Sorted by a routine that leaves every list as it is, which these names are sorted for.
staggered_to_remove-Spaced_example :
    (kept : List Bytes) × Split names
      (staggered_to_remove (λ vs. vs) age_of (new_staggered none) names)
      kept
    × Spaced age_of none none kept
    × (staggered_to_remove (λ vs. vs) age_of (new_staggered none) kept ≡ [])
staggered_to_remove-Spaced_example =
    staggered_to_remove-Spaced age_of none (λ vs. vs) names λ part all rest split. refl

names_sorted : OldestFirst age_of names
unfolding OldestFirst
names_sorted = (
  (refl, (refl, (refl, (tt, tt)))),
  ((refl, (refl, (tt, tt))), ((refl, (tt, tt)), ((tt, tt), (tt, tt)))),
)

staggered_to_remove-Elder_example :
    (kept : List Bytes) × Split names
      (staggered_to_remove (λ vs. vs) age_of (new_staggered none) names)
      kept
    × Elder age_of none (pos 90) kept
staggered_to_remove-Elder_example =
    staggered_to_remove-Elder age_of none (λ vs. vs) names (codes "C") (pos 90) names_sorted
      (later (later (first refl))) refl refl

-- The first version is over the maximum age, and the third too close to the second.
staggered_to_remove_run :
    staggered_to_remove (λ vs. vs) age_of (new_staggered none) names ≡ codes "A" ∷ codes "C" ∷ []
unfolding staggered_to_remove to_remove_loop new_staggered used_interval ◌-ℤ◌
staggered_to_remove_run = refl

abbrev three : Simple
three = record { keep = pos 3; cleanout_days = pos 0 }
