-- ===== src/DeviceId/Detection.antt =====
-- What a check digit detects: `luhn32` of back/lib/protocol/luhn.go.
use vaporcito.Base.{
  ℕ, ◌+◌, ◌-◌, ◌*◌, ◌/◌, ◌%◌, ◌<◌, [], ◌∷◌, ◌++◌, true, some, ◌≡◌, ◌≢◌, ◌⊎◌, inl, inr, refl, sym,
  subst, ◌∙◌, arith,
}
use vaporcito.Base.Bytes.{Bytes}
use vaporcito.DeviceId.{char_of, luhn32}
use vaporcito.DeviceId.Bits.{in_alphabet, InAlphabet}
use vaporcito.DeviceId.Luhn.{
  place, addend, other, total, codepoint32-place, luhn32_lem, InAlphabet-append,
}

-- The factor is one of two.
abbrev IsFactor : ℕ → Type 0
IsFactor f = (f ≡ 1) ⊎ (f ≡ 2)

IsFactor-other : (f : ℕ) → IsFactor f → IsFactor (other f)
IsFactor-other f (inl h) = inr (rw h refl)
IsFactor-other f (inr h) = inl (rw h refl)

total-append :
    (s : Bytes) (factor : ℕ)
    → IsFactor factor
    → (f : ℕ) × IsFactor f × ((u : Bytes) → total (s ++ u) factor ≡ total s factor + total u f)
unfolding total
total-append [] factor h = (factor, h, λ u. omega arith)
total-append (c ∷ s) factor h =
    let (f, is, e) = total-append s (other factor) (IsFactor-other factor h) in
    (f, is, λ u. omega (arith, e u))

place-apart : (c d : ℕ) → in_alphabet c ≡ true → in_alphabet d ≡ true → place c ≡ place d → c ≡ d
place-apart c d hc hd e = ground arith

-- What a place adds, by the factor.
abbrev share : ℕ → ℕ → ℕ
share f p = f * p / 32 + f * p % 32

share-apart : (f p q : ℕ) → IsFactor f → p < 32 → q < 32 → share f p ≡ share f q → p ≡ q
share-apart f p q (inl h) hp hq e = omega (arith, subst (λ n. share n p ≡ share n q) h e)
share-apart f p q (inr h) hp hq e = omega (arith, subst (λ n. share n p ≡ share n q) h e)

share-lt : (f p : ℕ) → IsFactor f → p < 32 → share f p < 32
share-lt f p (inl h) hp = rw h (omega arith)
share-lt f p (inr h) hp = rw h (omega arith)

-- Both factors keep the characters of the alphabet apart.
addend-apart :
    (f c d : ℕ)
    → IsFactor f
    → in_alphabet c ≡ true
    → in_alphabet d ≡ true
    → addend f c ≡ addend f d
    → c ≡ d
addend-apart f c d is hc hd e =
    place-apart c d hc hd
      (share-apart f (place c) (place d) is (codepoint32-place c hc).1 (codepoint32-place d hd).1 e)

addend-lt : (f c : ℕ) → IsFactor f → in_alphabet c ≡ true → addend f c < 32
addend-lt f c is hc = share-lt f (place c) is (codepoint32-place c hc).1

char_of-apart : (m n : ℕ) → m < 32 → n < 32 → char_of m ≡ char_of n → m ≡ n
unfolding char_of
char_of-apart m n hm hn e = ground arith

complement-apart :
    (x a b r : ℕ)
    → a < 32
    → b < 32
    → (32 - (x + (a + r)) % 32) % 32 ≡ (32 - (x + (b + r)) % 32) % 32
    → a ≡ b
complement-apart x a b r ha hb e = omega arith

some_equal : (m n : ℕ) → some m ≡ some n → m ≡ n
some_equal m n e = ground arith

-- Changing one character of a text of the alphabet into another one changes its check digit.
pub luhn32_differs :
    (s t : Bytes) (c d : ℕ)
    → InAlphabet s
    → InAlphabet t
    → in_alphabet c ≡ true
    → in_alphabet d ≡ true
    → c ≢ d
    → luhn32 (s ++ c ∷ t) ≢ luhn32 (s ++ d ∷ t)
unfolding total
luhn32_differs s t c d hs ht hc hd ne e =
    let (f, is, split) = total-append s 1 (inl refl) in
    let digits = some_equal _ _ (
      (sym (luhn32_lem (s ++ c ∷ t) (InAlphabet-append s (c ∷ t) hs (hc, ht))) ∙ e)
      ∙ luhn32_lem (s ++ d ∷ t) (InAlphabet-append s (d ∷ t) hs (hd, ht))) in
    let places = char_of-apart _ _ (omega arith) (omega arith) digits in
    ne (
      addend-apart f c d is hc hd (
        complement-apart (total s 1) (addend f c) (addend f d) (total t (other f))
          (addend-lt f c is hc) (addend-lt f d is hd)
          (subst (λ n. (32 - n % 32) % 32 ≡ (32 - (total s 1 + total (d ∷ t) f) % 32) % 32)
            (split (c ∷ t))
            (subst (λ n. (32 - total (s ++ c ∷ t) 1 % 32) % 32 ≡ (32 - n % 32) % 32) (split (d ∷ t))
              places))))
