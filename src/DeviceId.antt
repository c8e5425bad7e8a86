-- ===== src/DeviceId.antt =====
-- Device ids and how they are written: back/lib/protocol/deviceid.go and back/lib/protocol/luhn.go.
-- An id is 32 bytes. A string is its bytes, here ASCII without line breaks or inner padding. A panic
-- or an error is none.
mod Base32
pub mod Bits
pub mod Luhn
pub mod Chunks
pub mod RoundTrip
pub mod Detection
pub mod Short
mod Tests
unfoldable pub use Base32.*
use vaporcito.Base.{
  ℕ, zero, suc, ◌+◌, ◌-◌, ◌*◌, ◌/◌, ◌%◌, List, [], ◌∷◌, ◌++◌, map, Bool, true, false, ◌&&◌, ◌||◌,
  not, Option, none, some, length, take, drop, ltb, leb, ◌==◌, if◌then◌else◌,
}
use vaporcito.Base.Bytes.{Bytes, bytes_equal}

-- The place of a digit in the alphabet; -1 is none. 65 is A, 90 is Z, 50 is 2 and 55 is 7.
unfoldable pub codepoint32 : ℕ → Option ℕ
codepoint32 b =
    if leb 65 b && leb b 90
    then some (b - 65)
    else if leb 50 b && leb b 55
    then some (b + 26 - 50)
    else none

-- A character outside the alphabet ends the loop with an error.
abbrev and_digit : Option ℕ → (ℕ → Option ℕ) → Option ℕ
and_digit none k = none
and_digit (some c) k = k c

-- The loop of `luhn32`: the sum, from the factor and the sum so far.
unfoldable pub luhn_loop : Bytes → ℕ → ℕ → Option ℕ
luhn_loop [] factor sum = some sum
luhn_loop (b ∷ s) factor sum = and_digit (codepoint32 b) λ codepoint.
    luhn_loop s (if factor == 2 then 1 else 2)
      (sum + (factor * codepoint / 32 + factor * codepoint % 32))

abbrev pub check_digit : Option ℕ → Option ℕ
check_digit none = none
check_digit (some sum) = some (char_of ((32 - sum % 32) % 32))

unfoldable pub luhn32 : Bytes → Option ℕ
luhn32 s = check_digit (luhn_loop s 1 0)

-- The part, its check digit and what follows.
abbrev pub with_digit : Bytes → Option ℕ → Option Bytes → Option Bytes
with_digit p none rest = none
with_digit p (some l) none = none
with_digit p (some l) (some r) = some (p ++ l ∷ r)

-- The rounds of `luhnify` that are left.
unfoldable pub luhnify_loop : ℕ → Bytes → Option Bytes
luhnify_loop zero s = some []
luhnify_loop (suc n) s = with_digit (take 13 s) (luhn32 (take 13 s)) (luhnify_loop n (drop 13 s))

unfoldable pub luhnify : Bytes → Option Bytes
luhnify s = if not (length s == 52) then none else luhnify_loop 4 s

-- The part without its check digit, if that is the right one.
abbrev pub checked : Bytes → Option ℕ → Bytes → Option Bytes → Option Bytes
checked p none after rest = none
checked p (some l) [] rest = none
checked p (some l) (c ∷ after) none = none
checked p (some l) (c ∷ after) (some r) = if not (c == l) then none else some (p ++ r)

-- The rounds of `unluhnify` that are left.
unfoldable pub unluhnify_loop : ℕ → Bytes → Option Bytes
unluhnify_loop zero s = some []
unluhnify_loop (suc n) s =
    checked (take 13 s) (luhn32 (take 13 s)) (drop 13 s) (unluhnify_loop n (drop 14 s))

unfoldable pub unluhnify : Bytes → Option Bytes
unluhnify s = if not (length s == 56) then none else unluhnify_loop 4 s

-- The rounds of `chunkify` that are left, behind the first one. 45 is the dash.
unfoldable pub chunkify_loop : ℕ → Bytes → Bytes
chunkify_loop zero s = []
chunkify_loop (suc n) s = 45 ∷ (take 7 s ++ chunkify_loop n (drop 7 s))

unfoldable pub chunkify : Bytes → Option Bytes
chunkify s =
    if length s / 7 == 0
    then none
    else some (take 7 s ++ chunkify_loop (length s / 7 - 1) (drop 7 s))

-- `strings.ReplaceAll` of one byte by nothing.
unfoldable pub remove_all : ℕ → Bytes → Bytes
remove_all c [] = []
remove_all c (b ∷ s) = let rest = remove_all c s in if b == c then rest else b ∷ rest

unfoldable pub unchunkify : Bytes → Bytes
unchunkify s = remove_all 32 (remove_all 45 s)

-- `strings.ReplaceAll` of one byte by another.
abbrev pub replace : ℕ → ℕ → ℕ → ℕ
replace old new b = if b == old then new else b

-- 0 becomes O, 1 becomes I and 8 becomes B.
unfoldable pub untypeoify : Bytes → Bytes
untypeoify s = map (replace 56 66) (map (replace 49 73) (map (replace 48 79) s))

-- `strings.ToUpper`.
unfoldable pub to_upper : ℕ → ℕ
to_upper b = if leb 97 b && leb b 122 then b - 32 else b

-- `strings.Trim(s, "=")`.
unfoldable pub trim_left : Bytes → Bytes
trim_left [] = []
trim_left (b ∷ s) = let rest = trim_left s in if b == 61 then rest else b ∷ s

abbrev is_nil : Bytes → Bool
is_nil [] = true
is_nil (b ∷ s) = false

unfoldable pub trim_right : Bytes → Bytes
trim_right [] = []
trim_right (b ∷ s) = let rest = trim_right s in if (b == 61) && is_nil rest then [] else b ∷ rest

abbrev pub repeated : ℕ → ℕ → Bytes
repeated zero v = []
repeated (suc n) v = v ∷ repeated n v

abbrev pub empty_device_id : Bytes
empty_device_id = repeated 32 0

abbrev pub global_device_id : Bytes
global_device_id = repeated 32 0xf8

abbrev pub local_device_id : Bytes
local_device_id = repeated 32 0xff

abbrev and_chunkify : Option Bytes → Option Bytes
and_chunkify none = none
and_chunkify (some s) = chunkify s

-- `String`: the encoding without its padding, with check digits and dashes.
unfoldable pub string : Bytes → Option Bytes
string n =
    if bytes_equal n empty_device_id
    then some []
    else and_chunkify (luhnify (trim_right (trim_left (encode n))))

abbrev and_decode : Option Bytes → Option Bytes
and_decode none = none
and_decode (some id) = decode id

-- What `UnmarshalText` does with a text, by its length.
unfoldable pub by_length : Bytes → Option Bytes
by_length id =
    if length id == 0
    then some empty_device_id
    else if length id == 56
    then and_decode (unluhnify id)
    else if length id == 52
    then decode id
    else none

unfoldable pub unmarshal_text : Bytes → Option Bytes
unmarshal_text bs = by_length (unchunkify (untypeoify (map to_upper (trim_right (trim_left bs)))))

pub device_id_from_bytes : Bytes → Option Bytes
device_id_from_bytes bs = if not (length bs == 32) then none else some bs

-- Big-endian numbers, as `encoding/binary` reads and writes them.
unfoldable pub big_endian : ℕ → Bytes → ℕ
big_endian acc [] = acc
big_endian acc (b ∷ bs) = big_endian (acc * 256 + b) bs

unfoldable pub put_big_endian : ℕ → ℕ → Bytes → Bytes
put_big_endian zero n rest = rest
put_big_endian (suc k) n rest = put_big_endian k (n / 256) (n % 256 ∷ rest)

-- `Short`, and `String` of a short id.
unfoldable pub short : Bytes → ℕ
short n = big_endian 0 (take 8 n)

unfoldable pub short_string : ℕ → Bytes
short_string s = if s == 0 then [] else take 7 (encode (put_big_endian 8 s []))

-- The methods for the protobuf marshaller: the buffer after `MarshalTo`, and the id after `Unmarshal`.
unfoldable pub marshal_to : Bytes → Bytes → Option Bytes
marshal_to n bs = if ltb (length bs) 32 then none else some (n ++ drop 32 bs)

unfoldable pub unmarshal : Bytes → Option Bytes
unmarshal bs = if ltb (length bs) 32 then none else some (take 32 bs)
