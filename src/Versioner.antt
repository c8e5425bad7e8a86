-- ===== src/Versioner.antt =====
-- Which archived versions of a file are removed: `toRemove` of back/lib/versioner/staggered.go and of
-- back/lib/versioner/simple.go. The sorting routine is an argument, and so is the age of a version in
-- seconds, which its name and the clock give; a name without a time has none.
pub mod Thinning
pub mod Eldest
pub mod Keeping
mod Tests
use vaporcito.Base.{
  ℕ, ◌+◌, ◌-◌, ◌*◌, List, [], ◌∷◌, ◌++◌, Bool, true, false, ◌&&◌, ◌||◌, Option, none, some, length,
  take, drop, ltb, if◌then◌else◌,
}
use vaporcito.Base.Int.{ℤ, pos, negsuc, ◌-ℤ◌, ◌*ℤ◌, ltb_ℤ}
use vaporcito.Base.Bytes.{Bytes}

pub record Interval : Type 0 where
  pub step : ℤ
  pub end : ℤ

-- The four intervals; the last one also bounds the age.
pub record Staggered : Type 0 where
  pub hour : Interval
  pub day : Interval
  pub month : Interval
  pub last : Interval

-- A maximum age that does not parse is none.
abbrev pub or_year : Option ℤ → ℤ
or_year none = pos 31536000
or_year (some n) = n

unfoldable pub new_staggered : Option ℤ → Staggered
new_staggered max_age = record {
  hour = record { step = pos 30; end = pos 3600 };
  day = record { step = pos 3600; end = pos 86400 };
  month = record { step = pos 86400; end = pos 2592000 };
  last = record { step = pos 604800; end = or_year max_age };
}

-- The loop over the intervals ends with the last one if none fits.
unfoldable pub used_interval : Staggered → ℤ → Interval
used_interval v age =
    if ltb_ℤ age v.hour.end
    then v.hour
    else if ltb_ℤ age v.day.end
    then v.day
    else if ltb_ℤ age v.month.end
    then v.month
    else v.last

abbrev pub over_maximum : Staggered → ℤ → Bool
over_maximum v age = ltb_ℤ (pos 0) v.last.end && ltb_ℤ v.last.end age

-- The age of the version that was kept before; none for the first one, which is always kept.
abbrev pub too_many : Staggered → Option ℤ → ℤ → Bool
too_many v none age = false
too_many v (some prev_age) age = ltb_ℤ (prev_age -ℤ age) (used_interval v age).step

-- A round, by the age of its version; the rest of the loop goes on from the age that is kept.
abbrev pub round_rest :
    Staggered → Option ℤ → Bytes → Option ℤ → (Option ℤ → List Bytes) → List Bytes
round_rest v prev version none rest = rest prev
round_rest v prev version (some age) rest =
    let removed = over_maximum v age || too_many v prev age in
    let remove = rest (if removed then prev else some age) in
    if removed then version ∷ remove else remove

unfoldable pub to_remove_loop : (Bytes → Option ℤ) → Staggered → Option ℤ → List Bytes → List Bytes
to_remove_loop age_of v prev [] = []
to_remove_loop age_of v prev (version ∷ versions) =
    round_rest v prev version (age_of version) λ p. to_remove_loop age_of v p versions

unfoldable pub staggered_to_remove :
    (List Bytes → List Bytes) → (Bytes → Option ℤ) → Staggered → List Bytes → List Bytes
staggered_to_remove sort age_of v versions = to_remove_loop age_of v none (sort versions)

-- `simple`: the number of versions to keep and the days after which they go. A negative number to
-- keep slices behind the end, which is a panic. Ages here are in nanoseconds, and the days are few
-- enough that their nanoseconds fit in int64. What is removed shares the array of the versions, but
-- an append writes only places that the loop has read.
pub record Simple : Type 0 where
  pub keep : ℤ
  pub cleanout_days : ℤ

-- The versions that are too old among the rest.
abbrev pub too_old : ℤ → Option ℤ → Bool
too_old max_age none = false
too_old max_age (some age) = ltb_ℤ max_age age

unfoldable pub remove_old : (Bytes → Option ℤ) → ℤ → List Bytes → List Bytes
remove_old age_of max_age [] = []
remove_old age_of max_age (version ∷ versions) =
    let rest = remove_old age_of max_age versions in
    if too_old max_age (age_of version) then version ∷ rest else rest

abbrev pub day : ℤ
day = pos 86400000000000

unfoldable pub clean_out : (Bytes → Option ℤ) → ℤ → List Bytes → List Bytes
clean_out age_of cleanout_days versions =
    let old = remove_old age_of (cleanout_days *ℤ day) versions in
    if ltb_ℤ (pos 0) cleanout_days then old else []

-- Cutting a sorted list to the number to keep.
abbrev pub cut_to : (Bytes → Option ℤ) → ℤ → ℤ → List Bytes → Option (List Bytes)
cut_to age_of (negsuc n) cleanout_days versions = none
cut_to age_of (pos keep) cleanout_days versions =
    let excess = length versions - keep in
    some (take excess versions ++ clean_out age_of cleanout_days (drop excess versions))

unfoldable pub simple_to_remove :
    (List Bytes → List Bytes) → (Bytes → Option ℤ) → Simple → List Bytes → Option (List Bytes)
simple_to_remove sort age_of v versions = cut_to age_of v.keep v.cleanout_days (sort versions)
