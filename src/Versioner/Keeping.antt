-- ===== src/Versioner/Keeping.antt =====
-- What the simple versioner leaves: `toRemove` of back/lib/versioner/simple.go.
use vaporcito.Base.{List, All, false, ◌&&◌, Option, ◌≡◌}
use vaporcito.Base.Int.{ℤ, pos, ◌*ℤ◌, ltb_ℤ}
use vaporcito.Base.Bytes.{Bytes}
use vaporcito.Versioner.{too_old, day}
use vaporcito.Versioner.Thinning.{Split}

module _ (age_of : Bytes → Option ℤ) where
  -- No version is left that a positive number of days makes too old.
  abbrev pub Young : ℤ → List Bytes → Type 0
  Young cleanout_days =
      All (λ x. ltb_ℤ (pos 0) cleanout_days && too_old (cleanout_days *ℤ day) (age_of x) ≡ false)

  record Left (days : ℤ) (all gone : List Bytes) : Type 0 where
    kept : List Bytes
    split : Split all gone kept
    young : Young days kept
