-- ===== src/Base/Bytes.antt =====
-- Byte strings as lists of numbers, and Boolean equality.
use Prim.Native.Nat.{ℕ}
use Prim.Native.Char.{code}
use Prim.Native.String.{String}
use mathlib.Core.Path.{◌≡◌, refl}
use mathlib.Core.Logic.{◌↔◌}
use mathlib.Core.Bool.{Bool, true, false, ◌&&◌}
use mathlib.Core.List.{List, [], ◌∷◌}
use native.Mathlib.Omega.{arith}
use vaporcito.Base.Tests.{◌==◌}

abbrev pub Bytes : Type 0
Bytes = List ℕ

-- The code points of a text, which are its bytes when it is ASCII.
abbrev pub codes : String → Bytes
codes String.[] = []
codes (String.◌∷◌ c s) = code c ∷ codes s

unfoldable pub bytes_equal : Bytes → Bytes → Bool
bytes_equal [] [] = true
bytes_equal [] (y ∷ b) = false
bytes_equal (x ∷ a) [] = false
bytes_equal (x ∷ a) (y ∷ b) = (x == y) && bytes_equal a b

pub bytes_equal_comm : (a b : Bytes) → bytes_equal a b ≡ bytes_equal b a
unfolding bytes_equal
bytes_equal_comm [] [] = refl
bytes_equal_comm [] (y ∷ b) = refl
bytes_equal_comm (x ∷ a) [] = refl
bytes_equal_comm (x ∷ a) (y ∷ b) = ground (arith, bytes_equal_comm a b)

pub bytes_equal_refl : (a : Bytes) → bytes_equal a a ≡ true
unfolding bytes_equal
bytes_equal_refl [] = refl
bytes_equal_refl (x ∷ a) = ground (arith, bytes_equal_refl a)

pub bytes_equal_sound : (a b : Bytes) → bytes_equal a b ≡ true → a ≡ b
unfolding bytes_equal
bytes_equal_sound [] [] h = refl
bytes_equal_sound [] (y ∷ b) h = ground arith
bytes_equal_sound (x ∷ a) [] h = ground arith
bytes_equal_sound (x ∷ a) (y ∷ b) h = ground (arith, bytes_equal_sound a b)

pub bytes_equal_iff : (a b : Bytes) → (bytes_equal a b ≡ true) ↔ (a ≡ b)
bytes_equal_iff a b = (bytes_equal_sound a b, λ e. rw e (bytes_equal_refl b))
