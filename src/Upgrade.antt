-- ===== src/Upgrade.antt =====
-- Version numbers of releases and how they compare: back/lib/upgrade/upgrade_common.go. A string is
-- its bytes; an int is 64 bits wide.
pub mod Compare
mod Tests
use vaporcito.Base.{
  ℕ, ◌+◌, ◌-◌, ◌*◌, ◌^◌, List, [], ◌∷◌, map, Bool, true, false, ◌&&◌, ◌||◌, Option, none, some,
  length, ltb, leb, ◌==◌, if◌then◌else◌,
}
use vaporcito.Base.Int.{ℤ, pos, negsuc, sub_ℕ, ltb_ℤ, ◌==ℤ◌}
use vaporcito.Base.Bytes.{Bytes}

pub data Relation : Type 0 where
  major_older older equal newer major_newer : Relation

-- A part of a prerelease: an int, or a string that is no int.
pub data Part : Type 0 where
  number : ℤ → Part
  text : Bytes → Part

-- `strings.SplitN(s, sep, 2)`: what stands before the first separator, and what follows it.
unfoldable pub cut : ℕ → Bytes → Bytes × Option Bytes
cut sep [] = ([], none)
cut sep (c ∷ s) = let rest = cut sep s in if c == sep then ([], some s) else (c ∷ rest.0, rest.1)

abbrev onto_first : ℕ → List Bytes → List Bytes
onto_first c [] = (c ∷ []) ∷ []
onto_first c (f ∷ fs) = (c ∷ f) ∷ fs

-- `strings.Split(s, sep)`, which has at least one field.
unfoldable pub split : ℕ → Bytes → List Bytes
split sep [] = [] ∷ []
split sep (c ∷ s) = let rest = split sep s in if c == sep then [] ∷ rest else onto_first c rest

-- The number that a string of digits writes, after `n`.
unfoldable pub digits : ℕ → Bytes → Option ℕ
digits n [] = some n
digits n (c ∷ s) =
    let rest = digits (n * 10 + (c - 48)) s in if leb 48 c && leb c 57 then rest else none

pub record Parsed : Type 0 where
  pub value : ℤ
  pub ok : Bool

-- An int that is out of range is the nearest one, with an error.
abbrev in_range : Bool → Option ℕ → Parsed
in_range negative none = record { value = pos 0; ok = false }
in_range false (some n) =
    if ltb n (2 ^ 63)
    then record { value = pos n; ok = true }
    else record { value = pos (2 ^ 63 - 1); ok = false }
in_range true (some n) =
    if leb n (2 ^ 63)
    then record { value = sub_ℕ 0 n; ok = true }
    else record { value = negsuc (2 ^ 63 - 1); ok = false }

abbrev unsigned : Bool → Bytes → Parsed
unsigned negative [] = record { value = pos 0; ok = false }
unsigned negative (c ∷ s) = in_range negative (digits 0 (c ∷ s))

-- `strconv.Atoi`: 43 is plus and 45 is minus.
unfoldable pub atoi : Bytes → Parsed
atoi [] = record { value = pos 0; ok = false }
atoi (c ∷ s) =
    if c == 43
    then unsigned false s
    else if c == 45
    then unsigned true s
    else unsigned false (c ∷ s)

pub record Parts : Type 0 where
  pub release : List ℤ
  pub prerelease : List Part

abbrev part : Bytes → Part
part s = let p = atoi s in if p.ok then number p.value else text s

abbrev prerelease_parts : Option Bytes → List Part
prerelease_parts none = []
prerelease_parts (some s) = map part (split 46 s)

-- 118 and 86 are the letter v.
abbrev strip_v : Bytes → Bytes
strip_v [] = []
strip_v (c ∷ s) = if (c == 118) || (c == 86) then s else c ∷ s

-- 43 is plus, 45 is minus and 46 is the dot.
unfoldable pub version_parts : Bytes → Parts
version_parts v =
    let parts = cut 45 (cut 43 (strip_v v)).0 in
    record {
      release = map (λ s. (atoi s).value) (split 46 parts.0);
      prerelease = prerelease_parts parts.1;
    }

-- `<` of two strings.
unfoldable pub bytes_less : Bytes → Bytes → Bool
bytes_less a [] = false
bytes_less [] (y ∷ b) = true
bytes_less (x ∷ a) (y ∷ b) = let rest = bytes_less a b in ltb x y || ((x == y) && rest)

-- What the code returns before, or else what follows.
abbrev pub or_else : Option Relation → Option Relation → Option Relation
or_else (some r) k = some r
or_else none k = k

-- Majors 0 and 1 are equivalent in majorness.
abbrev pub major_below : ℤ → ℤ → Relation
major_below x y = if (x ==ℤ pos 0) && (y ==ℤ pos 1) then older else major_older

abbrev pub major_above : ℤ → ℤ → Relation
major_above x y = if (x ==ℤ pos 1) && (y ==ℤ pos 0) then newer else major_newer

-- One round over the release parts, which are the major versions in the first round.
unfoldable pub compare_number : Bool → ℤ → ℤ → Option Relation
compare_number first x y =
    if ltb_ℤ x y
    then (if first then some (major_below x y) else some older)
    else if ltb_ℤ y x
    then (if first then some (major_above x y) else some newer)
    else none

-- The loop over both releases: none if it ends without a return.
unfoldable pub release_loop : Bool → List ℤ → List ℤ → Option Relation
release_loop first [] b = none
release_loop first (x ∷ a) [] = none
release_loop first (x ∷ a) (y ∷ b) = or_else (compare_number first x y) (release_loop false a b)

-- The longer list is newer.
abbrev pub by_length {ℓ} : {A : Type ℓ} → List A → List A → Option Relation
by_length a b =
    if ltb (length a) (length b)
    then some older
    else if ltb (length b) (length a)
    then some newer
    else none

-- A prerelease is older than the release.
abbrev pub by_presence : List Part → List Part → Option Relation
by_presence a b =
    if (length a == 0) && ltb 0 (length b)
    then some newer
    else if ltb 0 (length a) && (length b == 0)
    then some older
    else none

-- The comparison of two parts of a prerelease.
abbrev pub compare_part : Part → Part → Option Relation
compare_part (number x) (number y) =
    if ltb_ℤ x y then some older else if ltb_ℤ y x then some newer else none
compare_part (number x) (text t) = some older
compare_part (text s) (number y) = some newer
compare_part (text s) (text t) =
    if bytes_less s t then some older else if bytes_less t s then some newer else none

unfoldable pub prerelease_loop : List Part → List Part → Option Relation
prerelease_loop [] b = none
prerelease_loop (x ∷ a) [] = none
prerelease_loop (x ∷ a) (y ∷ b) = or_else (compare_part x y) (prerelease_loop a b)

abbrev pub or_equal : Option Relation → Relation
or_equal (some r) = r
or_equal none = equal

-- `CompareVersions` from the parts of both versions.
pub compare_parts : Parts → Parts → Relation
compare_parts a b = or_equal (
    or_else (release_loop true a.release b.release) (
      or_else (by_length a.release b.release) (
        or_else (by_presence a.prerelease b.prerelease) (
          or_else (prerelease_loop a.prerelease b.prerelease)
            (by_length a.prerelease b.prerelease)))))

unfoldable pub compare_versions : Bytes → Bytes → Relation
unfolding compare_parts version_parts
compare_versions a b = compare_parts (version_parts a) (version_parts b)
