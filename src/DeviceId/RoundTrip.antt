-- ===== src/DeviceId/RoundTrip.antt =====
-- Reading what `String` writes: `String` and `UnmarshalText` of back/lib/protocol/deviceid.go.
use vaporcito.Base.{[], length, some, ◌≡◌, refl, Bool-cases, inl, inr, false}
use vaporcito.Base.Bytes.{Bytes, bytes_equal, bytes_equal_refl, bytes_equal_iff}
use vaporcito.DeviceId.{
  encode, unchunkify, remove_all, untypeoify, trim_left, trim_right, string, by_length,
  unmarshal_text, empty_device_id,
}
use vaporcito.DeviceId.Bits.{AreBytes, decode-encode, encode-InAlphabet, length-encode}
use vaporcito.DeviceId.Luhn.{unluhnify-luhnify}
use vaporcito.DeviceId.Chunks.{chunkify-IsWritten, reading-written, trim-InAlphabet}

string_empty :
    (n : Bytes)
    → n ≡ empty_device_id
    → (t : Bytes) × (string n ≡ some t) × (unmarshal_text t ≡ some n)
unfolding string unmarshal_text by_length unchunkify remove_all untypeoify trim_right trim_left
string_empty n e = ([], rw (e, bytes_equal_refl empty_device_id) refl, rw e refl)

string-some :
    (n : Bytes)
    → AreBytes n
    → length n ≡ 32
    → bytes_equal n empty_device_id ≡ false
    → (t : Bytes) × (string n ≡ some t) × (unmarshal_text t ≡ some n)
unfolding string unmarshal_text by_length
string-some n h k ne =
    let fits = encode-InAlphabet n in
    let (s, put, off, len, in_s) = unluhnify-luhnify (encode n) (length-encode n k) fits in
    let (t, chunked, written, joined) = chunkify-IsWritten s in_s len in
    (
      t,
      rw (ne, trim-InAlphabet (encode n) fits, put) chunked,
      rw (reading-written t s written in_s joined, len, off) (decode-encode n h),
    )

-- The text of a device id, of 32 bytes, is read back as that id; writing it does not panic.
pub unmarshal_text-string :
    (n : Bytes)
    → AreBytes n
    → length n ≡ 32
    → (t : Bytes) × (string n ≡ some t) × (unmarshal_text t ≡ some n)
unmarshal_text-string n h k = elim (Bool-cases (bytes_equal n empty_device_id)) [
  | inl e ↦ string_empty n ((bytes_equal_iff n empty_device_id).0 e)
  | inr e ↦ string-some n h k e
]
