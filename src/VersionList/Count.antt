-- ===== src/VersionList/Count.antt =====
-- How often a device stands in a version list, and a device found and removed from a list.
use vaporcito.Base.{
  ℕ, zero, suc, ◌+◌, ◌≡◌, refl, List, [], ◌∷◌, ◌++◌, Bool, true, false, none, some, arith, length,
  if◌then◌else◌,
}
use vaporcito.Base.Bytes.{Bytes, bytes_equal, bytes_equal_sound}
use vaporcito.Vector.{Vector}
use vaporcito.VersionList.{FileVersion, device_index, remove_at}

-- 1 if the test holds, and 0 if not.
abbrev pub tally : Bool → ℕ
tally true = 1
tally false = 0

unfoldable pub occurs : Bytes → List Bytes → ℕ
occurs d [] = 0
occurs d (e ∷ ds) = tally (bytes_equal d e) + occurs d ds

-- The occurrences of a device in one version that a test on the version and on validity selects.
unfoldable pub weigh : (Vector → Bool → Bool) → Bytes → FileVersion → ℕ
weigh w d v =
    (if w v.version true then occurs d v.devices else 0)
    + (if w v.version false then occurs d v.invalid_devices else 0)

unfoldable pub total : (Vector → Bool → Bool) → Bytes → List FileVersion → ℕ
total w d [] = 0
total w d (v ∷ vs) = weigh w d v + total w d vs

abbrev pub any_version : Vector → Bool → Bool
any_version v b = true

-- All occurrences of a device.
abbrev pub count : Bytes → List FileVersion → ℕ
count = total any_version

pub occurs-append :
    (d e : Bytes) (ds : List Bytes)
    → occurs d (ds ++ e ∷ []) ≡ occurs d ds + tally (bytes_equal d e)
unfolding occurs
occurs-append d e [] = omega arith
occurs-append d e (x ∷ ds) = omega (arith, occurs-append d e ds)

-- A device that is not found does not occur.
pub occurs-none : (d : Bytes) (ds : List Bytes) → device_index ds d ≡ none → occurs d ds ≡ 0
unfolding occurs device_index
occurs-none d [] h = refl
occurs-none d (e ∷ ds) h = ground (arith, occurs-none d ds)

-- Removing a device where it was found takes one occurrence of that device and of no other.
pub occurs-remove_at :
    (d d' : Bytes) (ds : List Bytes) (j : ℕ)
    → device_index ds d ≡ some j
    → occurs d' (remove_at ds j) + tally (bytes_equal d' d) ≡ occurs d' ds
unfolding occurs device_index
occurs-remove_at d d' [] j h = ground arith
occurs-remove_at d d' (e ∷ ds) zero h = ground (arith, bytes_equal_sound d e)
occurs-remove_at d d' (e ∷ ds) (suc j) h = ground (arith, occurs-remove_at d d' ds j)

pub length-remove_at :
    (d : Bytes) (ds : List Bytes) (j : ℕ)
    → device_index ds d ≡ some j
    → length (remove_at ds j) + 1 ≡ length ds
unfolding device_index
length-remove_at d [] j h = ground arith
length-remove_at d (e ∷ ds) zero h = omega arith
length-remove_at d (e ∷ ds) (suc j) h = ground (arith, length-remove_at d ds j)

-- A list without items holds no device.
pub occurs-empty : (d : Bytes) (ds : List Bytes) → length ds ≡ 0 → occurs d ds ≡ 0
unfolding occurs
occurs-empty d [] h = refl
occurs-empty d (e ∷ ds) h = absurd (omega arith)
