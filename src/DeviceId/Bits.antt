-- ===== src/DeviceId/Bits.antt =====
-- Decoding an encoding gives back the bytes, with what its digits are like.
use vaporcito.Base.{
  ℕ, ◌+◌, ◌*◌, ◌/◌, ◌%◌, ◌<◌, List, [], ◌∷◌, ◌++◌, map, All, Bool, true, false, ◌&&◌, ◌||◌, some,
  length, leb, ◌≡◌, refl, ap, arith,
}
use vaporcito.Base.Bytes.{Bytes}
use vaporcito.Base.Slices.{length-map}
use vaporcito.DeviceId.{
  bit, weight, byte_bits, digit_bits, digit_value, byte_value, to_bits, to_digits, from_digits,
  to_bytes, char_of, value_of, encode, values, decode,
}

-- A byte string holds bytes.
abbrev pub AreBytes : Bytes → Type 0
AreBytes = All (λ b. b < 256)

-- The characters of the alphabet.
abbrev pub in_alphabet : ℕ → Bool
in_alphabet c = (leb 65 c && leb c 90) || (leb 50 c && leb c 55)

abbrev pub InAlphabet : Bytes → Type 0
InAlphabet = All (λ c. in_alphabet c ≡ true)

weight-bit : (n k : ℕ) → weight (bit n k) k ≡ n / k % 2 * k
weight-bit n k = ground arith

-- The binary digits of a byte make up the byte.
value-byte_bits :
    (n : ℕ)
    → n < 256
    → byte_value
        (bit n 128)
        (bit n 64)
        (bit n 32)
        (bit n 16)
        (bit n 8)
        (bit n 4)
        (bit n 2)
        (bit n 1)
      ≡ n
unfolding byte_value
value-byte_bits n h =
    rw
      (
        weight-bit n 128,
        weight-bit n 64,
        weight-bit n 32,
        weight-bit n 16,
        weight-bit n 8,
        weight-bit n 4,
        weight-bit n 2,
        weight-bit n 1,
      )
      (omega arith)

digit_bits-digit_value :
    (a b c d e : Bool) → digit_bits (digit_value a b c d e) ≡ a ∷ b ∷ c ∷ d ∷ e ∷ []
unfolding digit_bits digit_value
digit_bits-digit_value a b c d e = ground arith

digit_value-lt : (a b c d e : Bool) → digit_value a b c d e < 32
unfolding digit_value
digit_value-lt a b c d e = ground arith

to_bytes_short : (pad : List Bool) → length pad < 8 → to_bytes pad ≡ []
unfolding to_bytes
to_bytes_short [] h = refl
to_bytes_short (a ∷ []) h = refl
to_bytes_short (a ∷ b ∷ []) h = refl
to_bytes_short (a ∷ b ∷ c ∷ []) h = refl
to_bytes_short (a ∷ b ∷ c ∷ d ∷ []) h = refl
to_bytes_short (a ∷ b ∷ c ∷ d ∷ e ∷ []) h = refl
to_bytes_short (a ∷ b ∷ c ∷ d ∷ e ∷ f ∷ []) h = refl
to_bytes_short (a ∷ b ∷ c ∷ d ∷ e ∷ f ∷ g ∷ []) h = refl
to_bytes_short (a ∷ b ∷ c ∷ d ∷ e ∷ f ∷ g ∷ x ∷ r) h = absurd (omega arith)

to_bytes-to_bits :
    (bs : Bytes) (pad : List Bool)
    → AreBytes bs
    → length pad < 8
    → to_bytes (to_bits bs ++ pad) ≡ bs
unfolding to_bytes to_bits byte_bits
to_bytes-to_bits [] pad h short = to_bytes_short pad short
to_bytes-to_bits (b ∷ bs) pad h short =
    rw (to_bytes-to_bits bs pad h.1 short) (ap (λ x. x ∷ bs) (value-byte_bits b h.0))

-- What the digits hold: the bits, filled with fewer than five zeros.
from_digits-to_digits :
    (bs : List Bool)
    → (pad : List Bool) × (from_digits (to_digits bs) ≡ bs ++ pad) × (length pad < 8)
unfolding from_digits to_digits
from_digits-to_digits [] = ([], refl, omega arith)
from_digits-to_digits (a ∷ []) = (
  false ∷ false ∷ false ∷ false ∷ [],
  rw (digit_bits-digit_value a false false false false) refl,
  omega arith,
)
from_digits-to_digits (a ∷ b ∷ []) = (
  false ∷ false ∷ false ∷ [],
  rw (digit_bits-digit_value a b false false false) refl,
  omega arith,
)
from_digits-to_digits (a ∷ b ∷ c ∷ []) =
    (false ∷ false ∷ [], rw (digit_bits-digit_value a b c false false) refl, omega arith)
from_digits-to_digits (a ∷ b ∷ c ∷ d ∷ []) =
    (false ∷ [], rw (digit_bits-digit_value a b c d false) refl, omega arith)
from_digits-to_digits (a ∷ b ∷ c ∷ d ∷ e ∷ r) =
    let rest = from_digits-to_digits r in
    (rest.0, rw (digit_bits-digit_value a b c d e, rest.1) refl, rest.2)

to_digits-lt : (bs : List Bool) → All (λ n. n < 32) (to_digits bs)
unfolding to_digits
to_digits-lt [] = tt
to_digits-lt (a ∷ []) = (digit_value-lt a false false false false, tt)
to_digits-lt (a ∷ b ∷ []) = (digit_value-lt a b false false false, tt)
to_digits-lt (a ∷ b ∷ c ∷ []) = (digit_value-lt a b c false false, tt)
to_digits-lt (a ∷ b ∷ c ∷ d ∷ []) = (digit_value-lt a b c d false, tt)
to_digits-lt (a ∷ b ∷ c ∷ d ∷ e ∷ r) = (digit_value-lt a b c d e, to_digits-lt r)

value_of-char_of : (n : ℕ) → n < 32 → value_of (char_of n) ≡ some n
unfolding value_of char_of
value_of-char_of n h = ground arith

pub char_of-in_alphabet : (n : ℕ) → n < 32 → in_alphabet (char_of n) ≡ true
unfolding char_of
char_of-in_alphabet n h = ground arith

values-char_of : (ns : List ℕ) → All (λ n. n < 32) ns → values (map char_of ns) ≡ some ns
unfolding values
values-char_of [] h = refl
values-char_of (n ∷ ns) h = rw (value_of-char_of n h.0, values-char_of ns h.1) refl

map-char_of-InAlphabet : (ns : List ℕ) → All (λ n. n < 32) ns → InAlphabet (map char_of ns)
map-char_of-InAlphabet [] h = tt
map-char_of-InAlphabet (n ∷ ns) h = (char_of-in_alphabet n h.0, map-char_of-InAlphabet ns h.1)

pub encode-InAlphabet : (bs : Bytes) → InAlphabet (encode bs)
unfolding encode
encode-InAlphabet bs = map-char_of-InAlphabet (to_digits (to_bits bs)) (to_digits-lt (to_bits bs))

pub decode-encode : (bs : Bytes) → AreBytes bs → decode (encode bs) ≡ some bs
unfolding decode encode
decode-encode bs h =
    let ds = to_digits (to_bits bs) in
    let (pad, filled, short) = from_digits-to_digits (to_bits bs) in
    rw (values-char_of ds (to_digits-lt (to_bits bs)), filled, to_bytes-to_bits bs pad h short) refl

length-to_bits : (bs : Bytes) → length (to_bits bs) ≡ 8 * length bs
unfolding to_bits byte_bits
length-to_bits [] = refl
length-to_bits (b ∷ bs) = omega (arith, length-to_bits bs)

length-to_digits : (bs : List Bool) → length (to_digits bs) ≡ (length bs + 4) / 5
unfolding to_digits
length-to_digits [] = refl
length-to_digits (a ∷ []) = refl
length-to_digits (a ∷ b ∷ []) = refl
length-to_digits (a ∷ b ∷ c ∷ []) = refl
length-to_digits (a ∷ b ∷ c ∷ d ∷ []) = refl
length-to_digits (a ∷ b ∷ c ∷ d ∷ e ∷ r) = omega (arith, length-to_digits r)

-- 32 bytes take 52 digits.
pub length-encode : (bs : Bytes) → length bs ≡ 32 → length (encode bs) ≡ 52
unfolding encode
length-encode bs h = omega (
  arith,
  length-map char_of (to_digits (to_bits bs)),
  length-to_digits (to_bits bs),
  length-to_bits bs,
)
