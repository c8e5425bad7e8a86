-- ===== src/Pulling/Indexes.antt =====
-- The chunks of indexes: the loops over indexes of `Reorder`, back/lib/model/blockpullreorderer.go.
use mathlib.Core.List.{Perm, Permᴰ, Perm-prop, perm_append_comm}
use mathlib.Core.List.Perm
use mathlib.Core.Logic.{∥∥₁_elim}
use mathlib.Core.Bool.{Bool-set}
use vaporcito.Base.{
  ℕ, zero, suc, ◌+◌, ◌≤◌, ◌<◌, List, [], ◌∷◌, ◌++◌, append_assoc, Bool, true, false, ◌&&◌, Option,
  none, some, length, get_elem?, drop, ltb, leb, ◌==◌, ==_iff, ◌≡◌, refl, sym, subst, ◌∙◌, arith,
  if◌then◌else◌, Bool-cases, inl, inr,
}
use vaporcito.Base.Slices.{drop_all}
use vaporcito.Pulling.{other_indexes, append_chunks}
use vaporcito.Pulling.Chunks.{joined}

unfoldable pub all_below : ℕ → List ℕ → Bool
all_below n [] = true
all_below n (i ∷ is) = ltb i n && all_below n is

Permᴰ-all_below : {is js : List ℕ} (n : ℕ) → Permᴰ is js → all_below n is ≡ all_below n js
unfolding all_below
Permᴰ-all_below n Permᴰ.nil = refl
Permᴰ-all_below n (Permᴰ.cons e p) = rw (e, Permᴰ-all_below n p) refl
Permᴰ-all_below n (Permᴰ.swap e f) = rw (e, f) (ground arith)
Permᴰ-all_below n (Permᴰ.trans p q) = Permᴰ-all_below n p ∙ Permᴰ-all_below n q

pub Perm-all_below :
    {is js : List ℕ} (n : ℕ) → Perm is js → all_below n js ≡ true → all_below n is ≡ true
Perm-all_below n p h = ∥∥₁_elim p (Bool-set _ _) (λ d. Permᴰ-all_below n d ∙ h)

pub all_below-other_indexes : (n i my k : ℕ) → i + n ≤ k → all_below k (other_indexes n i my) ≡ true
unfolding all_below other_indexes
all_below-other_indexes zero i my k h = refl
all_below-other_indexes (suc n) i my k h =
    ground (arith, all_below-other_indexes n (suc i) my k (omega arith))

module _ {ℓ} {Block : Type ℓ} where
  abbrev pub or_nil : Option (List Block) → List Block
  or_nil none = []
  or_nil (some c) = c

  exchange : (xs ys zs : List Block) → Perm (xs ++ (ys ++ zs)) (ys ++ (xs ++ zs))
  exchange xs ys zs =
      rw (← append_assoc xs ys zs, ← append_assoc ys xs zs)
        (Perm.append_right zs (perm_append_comm xs ys))

  -- The chunk of an index, and the chunks of indexes one after another.
  abbrev pub chunk_at : List (List Block) → ℕ → List Block
  chunk_at cs i = or_nil (get_elem? cs i)

  pub chunks_at : List (List Block) → List ℕ → List Block
  chunks_at cs [] = []
  chunks_at cs (i ∷ is) = chunk_at cs i ++ chunks_at cs is

  pub get_elem-chunk_at :
      (cs : List (List Block)) (i : ℕ) → i < length cs → get_elem? cs i ≡ some (chunk_at cs i)
  get_elem-chunk_at [] i h = absurd (omega arith)
  get_elem-chunk_at (c ∷ cs) zero h = refl
  get_elem-chunk_at (c ∷ cs) (suc i) h = get_elem-chunk_at cs i (omega arith)

  pub append_chunks-chunks_at :
      (cs : List (List Block)) (is : List ℕ)
      → all_below (length cs) is ≡ true
      → append_chunks cs is ≡ some (chunks_at cs is)
  unfolding append_chunks chunks_at all_below
  append_chunks-chunks_at cs [] h = refl
  append_chunks-chunks_at cs (i ∷ is) h =
      rw (get_elem-chunk_at cs i (ground arith), append_chunks-chunks_at cs is (ground arith)) refl

  -- The chunks of indexes in another order are the same blocks in another order.
  Perm-chunks_at :
      (cs : List (List Block)) {is js : List ℕ}
      → Permᴰ is js
      → Perm (chunks_at cs is) (chunks_at cs js)
  unfolding chunks_at
  Perm-chunks_at cs Permᴰ.nil = Perm.nil
  Perm-chunks_at cs (Permᴰ.cons {b = b} e p) =
      rw e (Perm.append_left (chunk_at cs b) (Perm-chunks_at cs p))
  Perm-chunks_at cs (Permᴰ.swap {a' = c} {b' = d} {l = is} e f) =
      rw (e, f) (exchange (chunk_at cs d) (chunk_at cs c) (chunks_at cs is))
  Perm-chunks_at cs (Permᴰ.trans p q) = Perm.trans (Perm-chunks_at cs p) (Perm-chunks_at cs q)

  pub Perm-shuffled :
      (cs : List (List Block)) {is js : List ℕ}
      → Perm is js
      → Perm (chunks_at cs is) (chunks_at cs js)
  Perm-shuffled cs p = ∥∥₁_elim p Perm-prop (λ d. Perm-chunks_at cs d)

  joined-drop :
      (cs : List (List Block)) (i : ℕ)
      → i < length cs
      → joined (drop i cs) ≡ chunk_at cs i ++ joined (drop (suc i) cs)
  unfolding joined
  joined-drop [] i h = absurd (omega arith)
  joined-drop (c ∷ cs) zero h = refl
  joined-drop (c ∷ cs) (suc i) h = joined-drop cs i (omega arith)

  -- The own chunk, if its index is among those from `i` on.
  abbrev pub own_from : List (List Block) → ℕ → ℕ → List Block
  own_from cs my i = if leb i my && ltb my (length cs) then chunk_at cs my else []

  own_from-at : (cs : List (List Block)) (i : ℕ) → i < length cs → own_from cs i i ≡ chunk_at cs i
  own_from-at cs i h = let t : leb i i && ltb i (length cs) ≡ true = ground arith in rw t refl

  own_from-behind : (cs : List (List Block)) (my : ℕ) → own_from cs my (suc my) ≡ []
  own_from-behind cs my =
      let t : leb (suc my) my && ltb my (length cs) ≡ false = ground arith in rw t refl

  own_from-other :
      (cs : List (List Block)) (my i : ℕ)
      → (i == my) ≡ false
      → own_from cs my i ≡ own_from cs my (suc i)
  own_from-other cs my i h = let t : leb i my ≡ leb (suc i) my = ground arith in rw t refl

  -- The own chunk and the others make up all blocks.
  pub chunks_at-other_indexes :
      (cs : List (List Block)) (my n i : ℕ)
      → i + n ≡ length cs
      → Perm (own_from cs my i ++ chunks_at cs (other_indexes n i my)) (joined (drop i cs))
  unfolding chunks_at other_indexes joined
  chunks_at-other_indexes cs my zero i h =
      let t : leb i my && ltb my (length cs) ≡ false = ground arith in
      rw (t, drop_all i cs (omega arith)) Perm.nil
  chunks_at-other_indexes cs my (suc n) i h =
      let lt : i < length cs = omega arith in
      let later = chunks_at-other_indexes cs my n (suc i) (omega arith) in
      elim (Bool-cases (i == my)) [
        | inl e ↦
            rw
              (
                e,
                subst (λ k. own_from cs k i ≡ chunk_at cs i) ((==_iff i my).0 e)
                    (own_from-at cs i lt),
                joined-drop cs i lt,
              )
              (Perm.append_left (chunk_at cs i) (
                subst
                  (λ own.
                    Perm (own ++ chunks_at cs (other_indexes n (suc i) my))
                      (joined (drop (suc i) cs)))
                  (subst (λ k. own_from cs my (suc k) ≡ []) (sym ((==_iff i my).0 e))
                    (own_from-behind cs my))
                  later))
        | inr e ↦
            rw (e, own_from-other cs my i e, joined-drop cs i lt)
              (Perm.trans
                (exchange (own_from cs my (suc i)) (chunk_at cs i)
                  (chunks_at cs (other_indexes n (suc i) my)))
                (Perm.append_left (chunk_at cs i) later))
      ]
