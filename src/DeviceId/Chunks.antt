-- ===== src/DeviceId/Chunks.antt =====
-- Dashes between the chunks of an id, and what reading does to a text.
use vaporcito.Base.{
  ℕ, zero, suc, ◌*◌, [], ◌∷◌, ◌++◌, map, All, true, false, ◌||◌, some, length, take, drop, ◌==◌,
  ◌≡◌, refl, arith,
}
use vaporcito.Base.Bytes.{Bytes}
use vaporcito.Base.Slices.{take-drop, length-drop}
use vaporcito.DeviceId.{
  chunkify_loop, chunkify, remove_all, unchunkify, replace, untypeoify, to_upper, trim_left,
  trim_right,
}
use vaporcito.DeviceId.Bits.{in_alphabet, InAlphabet}
use vaporcito.DeviceId.Luhn.{InAlphabet-take, InAlphabet-drop}

-- The characters of a written id: the alphabet and the dash.
abbrev IsWritten : Bytes → Type 0
IsWritten = All (λ c. in_alphabet c || (c == 45) ≡ true)

InAlphabet-IsWritten : (s : Bytes) → InAlphabet s → IsWritten s
InAlphabet-IsWritten [] h = tt
InAlphabet-IsWritten (c ∷ s) h = (ground (arith, h.0), InAlphabet-IsWritten s h.1)

IsWritten-append : (s t : Bytes) → IsWritten s → IsWritten t → IsWritten (s ++ t)
IsWritten-append [] t h k = k
IsWritten-append (c ∷ s) t h k = (h.0, IsWritten-append s t h.1 k)

chunkify_loop-IsWritten : (n : ℕ) (s : Bytes) → InAlphabet s → IsWritten (chunkify_loop n s)
unfolding chunkify_loop
chunkify_loop-IsWritten zero s h = tt
chunkify_loop-IsWritten (suc n) s h = (
  refl,
  IsWritten-append (take 7 s) (chunkify_loop n (drop 7 s))
      (InAlphabet-IsWritten (take 7 s) (InAlphabet-take 7 s h))
      (chunkify_loop-IsWritten n (drop 7 s) (InAlphabet-drop 7 s h)),
)

map_same :
    (f : ℕ → ℕ) (s : Bytes)
    → ((c : ℕ) → in_alphabet c || (c == 45) ≡ true → f c ≡ c)
    → IsWritten s
    → map f s ≡ s
map_same f [] same h = refl
map_same f (c ∷ s) same h = rw (same c h.0, map_same f s same h.1) refl

trim_left-written : (s : Bytes) → IsWritten s → trim_left s ≡ s
unfolding trim_left
trim_left-written [] h = refl
trim_left-written (c ∷ s) h = ground (arith, h.0)

trim_right-written : (s : Bytes) → IsWritten s → trim_right s ≡ s
unfolding trim_right
trim_right-written [] h = refl
trim_right-written (c ∷ s) h =
    let e : (c == 61) ≡ false = ground (arith, h.0) in rw (e, trim_right-written s h.1) refl

to_upper-written : (s : Bytes) → IsWritten s → map to_upper s ≡ s
unfolding to_upper
to_upper-written s h = map_same to_upper s (λ c w. ground (arith, w)) h

untypeoify-written : (s : Bytes) → IsWritten s → untypeoify s ≡ s
unfolding untypeoify
untypeoify-written s h =
    rw
      (
        map_same (replace 48 79) s (λ c w. ground (arith, w)) h,
        map_same (replace 49 73) s (λ c w. ground (arith, w)) h,
        map_same (replace 56 66) s (λ c w. ground (arith, w)) h,
      )
      refl

remove_all-append : (c : ℕ) (s t : Bytes) → remove_all c (s ++ t) ≡ remove_all c s ++ remove_all c t
unfolding remove_all
remove_all-append c [] t = refl
remove_all-append c (b ∷ s) t = rw (remove_all-append c s t) (ground arith)

remove_all_dash : (s : Bytes) → InAlphabet s → remove_all 45 s ≡ s
unfolding remove_all
remove_all_dash [] h = refl
remove_all_dash (b ∷ s) h =
    let e : (b == 45) ≡ false = ground (arith, h.0) in rw (e, remove_all_dash s h.1) refl

remove_all_space : (s : Bytes) → InAlphabet s → remove_all 32 s ≡ s
unfolding remove_all
remove_all_space [] h = refl
remove_all_space (b ∷ s) h =
    let e : (b == 32) ≡ false = ground (arith, h.0) in rw (e, remove_all_space s h.1) refl

remove_all-chunkify_loop :
    (n : ℕ) (s : Bytes) → InAlphabet s → length s ≡ 7 * n → remove_all 45 (chunkify_loop n s) ≡ s
unfolding chunkify_loop remove_all
remove_all-chunkify_loop zero [] h k = refl
remove_all-chunkify_loop zero (c ∷ s) h k = absurd (omega arith)
remove_all-chunkify_loop (suc n) s h k =
    rw
      (
        remove_all-append 45 (take 7 s) (chunkify_loop n (drop 7 s)),
        remove_all_dash (take 7 s) (InAlphabet-take 7 s h),
        remove_all-chunkify_loop n (drop 7 s) (InAlphabet-drop 7 s h)
            (omega (arith, length-drop 7 s)),
      )
      (take-drop 7 s)

-- A text of 56 characters of the alphabet is written in chunks as one of 63, with dashes.
pub chunkify-IsWritten :
    (s : Bytes)
    → InAlphabet s
    → length s ≡ 56
    → (t : Bytes) × (chunkify s ≡ some t) × IsWritten t × (remove_all 45 t ≡ s)
unfolding chunkify
chunkify-IsWritten s h k = (
  take 7 s ++ chunkify_loop 7 (drop 7 s),
  rw k refl,
  IsWritten-append (take 7 s) (chunkify_loop 7 (drop 7 s))
      (InAlphabet-IsWritten (take 7 s) (InAlphabet-take 7 s h))
      (chunkify_loop-IsWritten 7 (drop 7 s) (InAlphabet-drop 7 s h)),
  rw
      (
        remove_all-append 45 (take 7 s) (chunkify_loop 7 (drop 7 s)),
        remove_all_dash (take 7 s) (InAlphabet-take 7 s h),
        remove_all-chunkify_loop 7 (drop 7 s) (InAlphabet-drop 7 s h)
            (omega (arith, length-drop 7 s)),
      )
      (take-drop 7 s),
)

-- What reading a text does before it looks at the length: it takes the dashes out again.
pub reading-written :
    (t s : Bytes)
    → IsWritten t
    → InAlphabet s
    → remove_all 45 t ≡ s
    → unchunkify (untypeoify (map to_upper (trim_right (trim_left t)))) ≡ s
unfolding unchunkify
reading-written t s w h e =
    rw
      (
        trim_left-written t w,
        trim_right-written t w,
        to_upper-written t w,
        untypeoify-written t w,
        e,
      )
      (remove_all_space s h)

pub trim-InAlphabet : (s : Bytes) → InAlphabet s → trim_right (trim_left s) ≡ s
trim-InAlphabet s h =
    let w = InAlphabet-IsWritten s h in rw (trim_left-written s w) (trim_right-written s w)
