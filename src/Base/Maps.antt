-- ===== src/Base/Maps.antt =====
-- Go maps with string keys as association lists. A write replaces the first entry of its key in
-- place, and a removal takes out every entry of its key.
use mathlib.Core.Bool.{Bool}
use mathlib.Core.Path.{◌≡◌, refl}
use mathlib.Core.List.{List, [], ◌∷◌}
use mathlib.Core.Option.{Option, none, some}
use native.Mathlib.Omega.{arith}
use vaporcito.Base.Tests.{if◌then◌else◌}
use vaporcito.Base.Bytes.{Bytes, bytes_equal, bytes_equal_iff}

abbrev pub Map {ℓ} : Type ℓ → Type ℓ
Map V = List (Bytes × V)

-- Whether an entry is that of a name.
abbrev pub is_at {ℓ} : {V : Type ℓ} → Bytes → Bytes × V → Bool
is_at name entry = bytes_equal entry.0 name

module _ {ℓ} {V : Type ℓ} where
  unfoldable pub lookup : Bytes → Map V → Option V
  lookup name [] = none
  lookup name (entry ∷ entries) =
      let later = lookup name entries in if is_at name entry then some entry.1 else later

  unfoldable pub insert : Bytes → V → Map V → Map V
  insert name new [] = (name, new) ∷ []
  insert name new (entry ∷ entries) =
      let later = insert name new entries in
      if is_at name entry then (name, new) ∷ entries else entry ∷ later

  unfoldable pub erase : Bytes → Map V → Map V
  erase name [] = []
  erase name (entry ∷ entries) =
      let later = erase name entries in if is_at name entry then later else entry ∷ later

  pub lookup-insert :
      (set name : Bytes) (new : V) (entries : Map V)
      → lookup name (insert set new entries)
        ≡ (if bytes_equal set name then some new else lookup name entries)
  unfolding lookup insert
  lookup-insert set name new [] = refl
  lookup-insert set name new (entry ∷ entries) =
      let later = lookup-insert set name new entries in
      ground (
        arith,
        bytes_equal_iff entry.0 name,
        bytes_equal_iff set name,
        bytes_equal_iff entry.0 set,
        later,
      )

  pub lookup-erase :
      (gone name : Bytes) (entries : Map V)
      → lookup name (erase gone entries)
        ≡ (if bytes_equal gone name then none else lookup name entries)
  unfolding lookup erase
  lookup-erase gone name [] = ground arith
  lookup-erase gone name (entry ∷ entries) =
      let later = lookup-erase gone name entries in
      ground (
        arith,
        bytes_equal_iff entry.0 name,
        bytes_equal_iff gone name,
        bytes_equal_iff entry.0 gone,
        later,
      )
