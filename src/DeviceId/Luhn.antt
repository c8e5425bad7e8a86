-- ===== src/DeviceId/Luhn.antt =====
-- Check digits: putting them in and checking them, and what they detect.
use vaporcito.Base.{
  ℕ, zero, suc, ◌+◌, ◌-◌, ◌*◌, ◌/◌, ◌%◌, ◌<◌, [], ◌∷◌, ◌++◌, true, some, length, length-append,
  take, drop, leb, ◌==◌, ◌≡◌, refl, ap, subst, arith, if◌then◌else◌,
}
use vaporcito.Base.Bytes.{Bytes}
use vaporcito.Base.Slices.{
  take_front, drop_front, drop_front_one, take-drop, length-take, length-drop,
}
use vaporcito.DeviceId.{
  char_of, codepoint32, luhn_loop, luhn32, luhnify_loop, luhnify, unluhnify_loop, unluhnify,
}
use vaporcito.DeviceId.Bits.{in_alphabet, InAlphabet, char_of-in_alphabet}

-- The place of a character of the alphabet.
abbrev pub place : ℕ → ℕ
place b = if leb 65 b then b - 65 else b - 24

pub codepoint32-place :
    (b : ℕ) → in_alphabet b ≡ true → (codepoint32 b ≡ some (place b)) × (place b < 32)
unfolding codepoint32
codepoint32-place b h = ground arith

-- What a character adds to the sum.
abbrev pub addend : ℕ → ℕ → ℕ
addend factor b = factor * place b / 32 + factor * place b % 32

abbrev pub other : ℕ → ℕ
other factor = if factor == 2 then 1 else 2

unfoldable pub total : Bytes → ℕ → ℕ
total [] factor = 0
total (b ∷ s) factor = addend factor b + total s (other factor)

luhn_loop_total :
    (s : Bytes) (factor sum : ℕ)
    → InAlphabet s
    → luhn_loop s factor sum ≡ some (sum + total s factor)
unfolding luhn_loop total
luhn_loop_total [] factor sum h = ap some (omega arith)
luhn_loop_total (b ∷ s) factor sum h =
    rw ((codepoint32-place b h.0).0, luhn_loop_total s (other factor) (sum + addend factor b) h.1)
      (ap some (omega arith))

pub luhn32_lem : (s : Bytes) → InAlphabet s → luhn32 s ≡ some (char_of ((32 - total s 1 % 32) % 32))
unfolding luhn32
luhn32_lem s h =
    rw (luhn_loop_total s 1 0 h) (ap (λ n. some (char_of ((32 - n % 32) % 32))) (omega arith))

pub InAlphabet-take : (n : ℕ) (s : Bytes) → InAlphabet s → InAlphabet (take n s)
InAlphabet-take zero s h = tt
InAlphabet-take (suc n) [] h = tt
InAlphabet-take (suc n) (c ∷ s) h = (h.0, InAlphabet-take n s h.1)

pub InAlphabet-drop : (n : ℕ) (s : Bytes) → InAlphabet s → InAlphabet (drop n s)
InAlphabet-drop zero s h = h
InAlphabet-drop (suc n) [] h = tt
InAlphabet-drop (suc n) (c ∷ s) h = InAlphabet-drop n s h.1

pub InAlphabet-append : (s t : Bytes) → InAlphabet s → InAlphabet t → InAlphabet (s ++ t)
InAlphabet-append [] t h k = k
InAlphabet-append (c ∷ s) t h k = (h.0, InAlphabet-append s t h.1 k)

self_equal : (n : ℕ) → (n == n) ≡ true
self_equal n = ground arith

-- A string with its check digits.
record Luhned (n : ℕ) (s r : Bytes) : Type 0 where
  put : luhnify_loop n s ≡ some r
  checks : unluhnify_loop n r ≡ some s
  size : length r ≡ 14 * n
  fits : InAlphabet r

-- One round: the part of 13 characters, its digit and the rest.
Luhned-round :
    (n : ℕ) (p s r : Bytes) (l : ℕ)
    → length p ≡ 13
    → luhn32 p ≡ some l
    → in_alphabet l ≡ true
    → InAlphabet p
    → Luhned n s r
    → Luhned (suc n) (p ++ s) (p ++ l ∷ r)
unfolding luhnify_loop unluhnify_loop
Luhned-round n p s r l len digit ok fits rest = record {
  put = rw (take_front p s 13 len, drop_front p s 13 len, digit, rest.put) refl;
  checks =
      rw
        (
          take_front p (l ∷ r) 13 len,
          drop_front p (l ∷ r) 13 len,
          drop_front_one p r l 13 len,
          digit,
          rest.checks,
          self_equal l,
        )
        refl;
  size = omega (arith, length-append p (l ∷ r), len, rest.size);
  fits = InAlphabet-append p (l ∷ r) fits (ok, rest.fits);
}

luhned : (n : ℕ) (s : Bytes) → length s ≡ 13 * n → InAlphabet s → (r : Bytes) × Luhned n s r
unfolding luhnify_loop unluhnify_loop
luhned zero [] h fits = ([], record { put = refl; checks = refl; size = refl; fits = tt })
luhned zero (c ∷ s) h fits = absurd (omega arith)
luhned (suc n) s h fits =
    let p = take 13 s in
    let len : length p ≡ 13 = length-take 13 s (omega arith) in
    let left : length (drop 13 s) ≡ 13 * n = omega (arith, length-drop 13 s) in
    let (r, rest) = luhned n (drop 13 s) left (InAlphabet-drop 13 s fits) in
    let l = char_of ((32 - total p 1 % 32) % 32) in
    (
      p ++ l ∷ r,
      subst (λ t. Luhned (suc n) t (p ++ l ∷ r)) (take-drop 13 s)
          (Luhned-round n p (drop 13 s) r l len (luhn32_lem p (InAlphabet-take 13 s fits))
            (char_of-in_alphabet _ (omega arith)) (InAlphabet-take 13 s fits) rest),
    )

-- A string of 52 characters of the alphabet gets its check digits, 56 characters of the alphabet in
-- all, and has them taken off again.
pub unluhnify-luhnify :
    (s : Bytes)
    → length s ≡ 52
    → InAlphabet s
    → (r : Bytes) × (luhnify s ≡ some r) × (unluhnify r ≡ some s) × (length r ≡ 56) × InAlphabet r
unfolding luhnify unluhnify
unluhnify-luhnify s h fits =
    let (r, l) = luhned 4 s h fits in
    (r, rw (h, l.put) refl, rw (l.size, l.checks) refl, l.size, l.fits)
