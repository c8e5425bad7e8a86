-- ===== src/DeviceId/Short.antt =====
-- Short ids and ids on the wire: `Short`, `ShortID.String`, `MarshalTo` and `Unmarshal` of
-- back/lib/protocol/deviceid.go.
use vaporcito.Base.{
  ℕ, zero, suc, ◌+◌, ◌*◌, ◌/◌, ◌%◌, ◌<◌, ◌≤◌, [], ◌∷◌, ◌++◌, some, length, length-append, take,
  drop, ltb, ◌==◌, false, ◌≡◌, ◌≢◌, append-nil, refl, ap, subst, ◌∙◌, arith,
}
use vaporcito.Base.Bytes.{Bytes}
use vaporcito.Base.Slices.{take_front, length-take}
use vaporcito.DeviceId.{
  byte_bits, to_bits, to_digits, encode, big_endian, put_big_endian, short, short_string,
  marshal_to, unmarshal,
}
use vaporcito.DeviceId.Bits.{AreBytes}

put_step :
    (k acc b : ℕ) (rest : Bytes)
    → b < 256
    → put_big_endian (suc k) (acc * 256 + b) rest ≡ put_big_endian k acc (b ∷ rest)
unfolding put_big_endian
put_step k acc b rest h =
    let d : (acc * 256 + b) / 256 ≡ acc = omega arith in
    let m : (acc * 256 + b) % 256 ≡ b = omega arith in rw (d, m) refl

put-big_endian :
    (bs : Bytes) (j acc : ℕ) (rest : Bytes)
    → AreBytes bs
    → put_big_endian (length bs + j) (big_endian acc bs) rest ≡ put_big_endian j acc (bs ++ rest)
unfolding big_endian
put-big_endian [] j acc rest h = let z : 0 + j ≡ j = omega arith in rw z refl
put-big_endian (b ∷ bs) j acc rest h =
    let z : suc (length bs) + j ≡ length bs + suc j = omega arith in
    rw (z, put-big_endian bs (suc j) (acc * 256 + b) rest h.1) (put_step j acc b (bs ++ rest) h.0)

-- Seven digits are made of the first eight bytes.
first_seven :
    (a b c d e f g i : ℕ) (rest : Bytes)
    → take 7 (encode (a ∷ b ∷ c ∷ d ∷ e ∷ f ∷ g ∷ i ∷ []))
      ≡ take 7 (encode (a ∷ b ∷ c ∷ d ∷ e ∷ f ∷ g ∷ i ∷ rest))
unfolding encode to_bits to_digits byte_bits
first_seven a b c d e f g i rest = refl

take_seven : (n : Bytes) → 8 ≤ length n → take 7 (encode (take 8 n)) ≡ take 7 (encode n)
take_seven (a ∷ b ∷ c ∷ d ∷ e ∷ f ∷ g ∷ i ∷ rest) h = first_seven a b c d e f g i rest
take_seven [] h = absurd (omega arith)
take_seven (a ∷ []) h = absurd (omega arith)
take_seven (a ∷ b ∷ []) h = absurd (omega arith)
take_seven (a ∷ b ∷ c ∷ []) h = absurd (omega arith)
take_seven (a ∷ b ∷ c ∷ d ∷ []) h = absurd (omega arith)
take_seven (a ∷ b ∷ c ∷ d ∷ e ∷ []) h = absurd (omega arith)
take_seven (a ∷ b ∷ c ∷ d ∷ e ∷ f ∷ []) h = absurd (omega arith)
take_seven (a ∷ b ∷ c ∷ d ∷ e ∷ f ∷ g ∷ []) h = absurd (omega arith)

AreBytes-take : (k : ℕ) (n : Bytes) → AreBytes n → AreBytes (take k n)
AreBytes-take zero n h = tt
AreBytes-take (suc k) [] h = tt
AreBytes-take (suc k) (b ∷ n) h = (h.0, AreBytes-take k n h.1)

put_eight : (bs : Bytes) → length bs ≡ 8 → AreBytes bs → put_big_endian 8 (big_endian 0 bs) [] ≡ bs
unfolding put_big_endian
put_eight bs k h =
    let z : length bs + 0 ≡ 8 = omega arith in
    subst (λ j. put_big_endian j (big_endian 0 bs) [] ≡ bs) z
      (put-big_endian bs 0 0 [] h ∙ append-nil bs)

-- For an id of 32 bytes whose short id is not zero, the text of the short id is the first seven
-- characters of the encoded id.
pub short_string-short :
    (n : Bytes)
    → AreBytes n
    → length n ≡ 32
    → short n ≢ 0
    → short_string (short n) ≡ take 7 (encode n)
unfolding short_string short
short_string-short n h k ne =
    let e : (big_endian 0 (take 8 n) == 0) ≡ false = ground (arith, ne) in
    let eight : length (take 8 n) ≡ 8 = length-take 8 n (omega arith) in
    rw (e, put_eight (take 8 n) eight (AreBytes-take 8 n h)) (take_seven n (omega arith))

-- An id of 32 bytes that was marshalled into a buffer of at least that size is read back from it.
pub unmarshal-marshal_to :
    (n bs : Bytes)
    → length n ≡ 32
    → 32 ≤ length bs
    → (r : Bytes) × (marshal_to n bs ≡ some r) × (unmarshal r ≡ some n)
unfolding marshal_to unmarshal
unmarshal-marshal_to n bs h k =
    let e : ltb (length bs) 32 ≡ false = ground arith in
    let f : ltb (length (n ++ drop 32 bs)) 32 ≡ false =
      ground (arith, length-append n (drop 32 bs)) in
    (n ++ drop 32 bs, rw e refl, rw f (ap some (take_front n (drop 32 bs) 32 h)))
