-- ===== src/DeviceId/Tests.antt =====
-- Runs of the writing and reading of device ids.
use vaporcito.Base.{ℕ, zero, suc, ◌∷◌, ◌++◌, ◌<◌, ◌≢◌, Option, some, none, ◌≡◌, refl, arith}
use vaporcito.Base.Bytes.{Bytes, codes, bytes_equal}
use vaporcito.DeviceId.{
  short, big_endian, string, unmarshal_text, by_length, unchunkify, remove_all, untypeoify,
  trim_right, trim_left, to_upper, luhn32, luhn_loop, codepoint32, char_of, luhnify, luhnify_loop,
  unluhnify, unluhnify_loop, chunkify, chunkify_loop, encode, decode, to_digits, to_bits, to_bytes,
  from_digits, byte_bits, digit_bits, digit_value, byte_value, values, value_of, repeated,
}
use vaporcito.DeviceId.Bits.{AreBytes}
use vaporcito.DeviceId.RoundTrip.{unmarshal_text-string}
use vaporcito.DeviceId.Detection.{luhn32_differs}

abbrev some_id : Bytes
some_id = 218 ∷ 1 ∷ repeated 30 119

repeated-AreBytes : (n v : ℕ) → v < 256 → AreBytes (repeated n v)
repeated-AreBytes zero v h = tt
repeated-AreBytes (suc n) v h = (h, repeated-AreBytes n v h)

some_id-AreBytes : AreBytes some_id
some_id-AreBytes = (omega arith, (omega arith, repeated-AreBytes 30 119 (omega arith)))

unmarshal_text-string_example :
    (t : Bytes) × (string some_id ≡ some t) × (unmarshal_text t ≡ some some_id)
unmarshal_text-string_example = unmarshal_text-string some_id some_id-AreBytes refl

luhn32_differs_example :
    luhn32 (codes "AB" ++ 67 ∷ codes "D2") ≢ luhn32 (codes "AB" ++ 68 ∷ codes "D2")
luhn32_differs_example =
    luhn32_differs (codes "AB") (codes "D2") 67 68 (refl, (refl, tt)) (refl, (refl, tt)) refl refl
      (λ e. omega arith)

some_id-short : short some_id ≢ 0
unfolding short big_endian
some_id-short e = omega arith

-- The vectors of luhn_test.go and deviceid_test.go.
luhn32_run : luhn32 (codes "AB725E4GHIQPL3ZFGT") ≡ some 71
unfolding luhn32 luhn_loop codepoint32 char_of
luhn32_run = refl

luhn32_run_none : luhn32 (codes "3734EJEKMRHWPZQTWYQ1") ≡ none
unfolding luhn32 luhn_loop codepoint32
luhn32_run_none = refl

abbrev shown : Bytes
shown = codes "P56IOI7-MZJNU2Y-IQGDREY-DM2MGTI-MGL3BXN-PQ6W5BM-TBBZ4TJ-XZWICQ2"

abbrev mistyped : Bytes
mistyped = codes "p561017mzjnu2iqgdreydm2mgtmgl3bxnpq6w5btbbz4tjxzwicq=="

abbrev shown_again : Option Bytes → Option Bytes
shown_again none = none
shown_again (some n) = string n

reading_run : shown_again (unmarshal_text mistyped) ≡ some shown
unfolding string unmarshal_text by_length unchunkify remove_all untypeoify trim_right trim_left
    to_upper luhn32 luhn_loop codepoint32 char_of luhnify luhnify_loop unluhnify unluhnify_loop
    chunkify chunkify_loop encode decode to_digits to_bits to_bytes from_digits byte_bits digit_bits
    digit_value byte_value values value_of bytes_equal
reading_run = refl
