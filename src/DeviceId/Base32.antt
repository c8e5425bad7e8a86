-- ===== src/DeviceId/Base32.antt =====
-- `base32.StdEncoding`: the bits of the bytes, five to a digit.
use vaporcito.Base.{
  ℕ, ◌+◌, ◌-◌, ◌/◌, ◌%◌, List, [], ◌∷◌, ◌++◌, map, Bool, false, ◌&&◌, Option, none, some, ltb, leb,
  ◌==◌, if◌then◌else◌,
}
use vaporcito.Base.Bytes.{Bytes}

abbrev pub bit : ℕ → ℕ → Bool
bit n k = (n / k) % 2 == 1

abbrev pub weight : Bool → ℕ → ℕ
weight b k = if b then k else 0

-- The bits of a byte and of a digit, the highest first.
unfoldable pub byte_bits : ℕ → List Bool
byte_bits n =
    bit n 128 ∷ bit n 64 ∷ bit n 32 ∷ bit n 16 ∷ bit n 8 ∷ bit n 4 ∷ bit n 2 ∷ bit n 1 ∷ []

unfoldable pub digit_bits : ℕ → List Bool
digit_bits n = bit n 16 ∷ bit n 8 ∷ bit n 4 ∷ bit n 2 ∷ bit n 1 ∷ []

unfoldable pub digit_value : Bool → Bool → Bool → Bool → Bool → ℕ
digit_value a b c d e = weight a 16 + weight b 8 + weight c 4 + weight d 2 + weight e 1

unfoldable pub byte_value : Bool → Bool → Bool → Bool → Bool → Bool → Bool → Bool → ℕ
byte_value a b c d e f g h =
    weight a 128
    + weight b 64
    + weight c 32
    + weight d 16
    + weight e 8
    + weight f 4
    + weight g 2
    + weight h 1

unfoldable pub to_bits : Bytes → List Bool
to_bits [] = []
to_bits (b ∷ bs) = byte_bits b ++ to_bits bs

-- The last digit is filled with zeros.
unfoldable pub to_digits : List Bool → List ℕ
to_digits [] = []
to_digits (a ∷ []) = digit_value a false false false false ∷ []
to_digits (a ∷ b ∷ []) = digit_value a b false false false ∷ []
to_digits (a ∷ b ∷ c ∷ []) = digit_value a b c false false ∷ []
to_digits (a ∷ b ∷ c ∷ d ∷ []) = digit_value a b c d false ∷ []
to_digits (a ∷ b ∷ c ∷ d ∷ e ∷ r) = digit_value a b c d e ∷ to_digits r

unfoldable pub from_digits : List ℕ → List Bool
from_digits [] = []
from_digits (n ∷ ns) = digit_bits n ++ from_digits ns

-- Bits that fill no byte are dropped.
unfoldable pub to_bytes : List Bool → Bytes
to_bytes (a ∷ b ∷ c ∷ d ∷ e ∷ f ∷ g ∷ h ∷ r) = byte_value a b c d e f g h ∷ to_bytes r
to_bytes _ = []

-- The alphabet: A to Z and 2 to 7.
unfoldable pub char_of : ℕ → ℕ
char_of n = if ltb n 26 then n + 65 else n + 24

unfoldable pub value_of : ℕ → Option ℕ
value_of c =
    if leb 65 c && leb c 90
    then some (c - 65)
    else if leb 50 c && leb c 55
    then some (c - 24)
    else none

-- The digits, without the padding that `String` trims.
unfoldable pub encode : Bytes → Bytes
encode bs = map char_of (to_digits (to_bits bs))

abbrev pub value_cons : Option ℕ → Option (List ℕ) → Option (List ℕ)
value_cons none r = none
value_cons (some n) none = none
value_cons (some n) (some r) = some (n ∷ r)

unfoldable pub values : Bytes → Option (List ℕ)
values [] = some []
values (c ∷ s) = value_cons (value_of c) (values s)

abbrev bytes_of : Option (List ℕ) → Option Bytes
bytes_of none = none
bytes_of (some ns) = some (to_bytes (from_digits ns))

-- The decoding of digits whose padding is put back.
unfoldable pub decode : Bytes → Option Bytes
decode s = bytes_of (values s)
