-- ===== src/Versioner/Eldest.antt =====
-- The oldest version that the staggered versioner leaves.
use vaporcito.Base.{
  List, [], ◌∷◌, true, false, Option, none, some, ◌≡◌, inl, inr, refl, subst, sym, arith,
  Bool-cases, Option-cases, All, ◌∙◌, ap, ◌≢◌,
}
use vaporcito.Base.Int.{ℤ, ltb_ℤ}
use vaporcito.Base.Bytes.{Bytes}
use vaporcito.Versioner.{or_year, new_staggered, to_remove_loop, staggered_to_remove}
use vaporcito.Versioner.Thinning.{
  Split, goes, stays, expired, over_maximum_lem, OldestFirst, NotYounger, thinned,
}

pub data Has (x : Bytes) : List Bytes → Type 0 where
  first : {y : Bytes} {ys : List Bytes} → y ≡ x → Has x (y ∷ ys)
  later : {y : Bytes} {ys : List Bytes} → Has x ys → Has x (y ∷ ys)

All-Has {ℓ} : (P : Bytes → Type ℓ) {x : Bytes} {xs : List Bytes} → All P xs → Has x xs → P x
All-Has P all (first e) = subst P e all.0
All-Has P all (later h) = All-Has P all.1 h

module _ (age_of : Bytes → Option ℤ) (max_age : Option ℤ) where
  -- A version of the list that has not expired and is at least as old.
  abbrev pub Elder : ℤ → List Bytes → Type 0
  Elder age ys =
      (y : Bytes) × (b : ℤ) × Has y ys
      × (age_of y ≡ some b)
      × (expired max_age b ≡ false)
      × (ltb_ℤ b age ≡ false)

  record Left (age : ℤ) (all : List Bytes) : Type 0 where
    kept : List Bytes
    split : Split all (to_remove_loop age_of (new_staggered max_age) none all) kept
    elder : Elder age kept

  not_first :
      (x y : Bytes) (ys : List Bytes) (age : ℤ)
      → age_of x ≡ some age
      → age_of y ≢ some age
      → Has x (y ∷ ys)
      → Has x ys
  not_first x y ys age at differ (first e) = absurd (differ (ap age_of e ∙ at))
  not_first x y ys age at differ (later h) = h

  none_differs : (o : Option ℤ) (age : ℤ) → o ≡ none → o ≢ some age
  none_differs o age e k = ground (arith, e, k)

  expired_differs :
      (o : Option ℤ) (a age : ℤ)
      → o ≡ some a
      → expired max_age a ≡ true
      → expired max_age age ≡ false
      → o ≢ some age
  expired_differs o a age e h k same =
      let a_same : a ≡ age = ap or_year (sym e ∙ same) in
      let clash : expired max_age age ≡ true = subst (λ b. expired max_age b ≡ true) a_same h in
      ground (arith, clash, k)

  not_older :
      (x y : Bytes) (ys : List Bytes) (a age : ℤ)
      → age_of x ≡ some age
      → age_of y ≡ some a
      → All (λ z. NotYounger (age_of y) (age_of z)) ys
      → Has x (y ∷ ys)
      → ltb_ℤ a age ≡ false
  not_older x y ys a age at_x at_y all (first e) =
      let a_same : a ≡ age = ap or_year (sym at_y ∙ ap age_of e ∙ at_x) in rw a_same (ground arith)
  not_older x y ys a age at_x at_y all (later h) =
      let at = All-Has (λ z. NotYounger (age_of y) (age_of z)) all h in
      subst (λ o. NotYounger o (some age)) at_y (subst (λ o. NotYounger (age_of y) o) at_x at)

  left :
      (all : List Bytes) (x : Bytes) (age : ℤ)
      → OldestFirst age_of all
      → Has x all
      → age_of x ≡ some age
      → expired max_age age ≡ false
      → Left age all
  unfolding OldestFirst to_remove_loop
  left [] x age sorted has at_x fresh = elim has [ ]
  left (y ∷ ys) x age sorted has at_x fresh = elim (Option-cases (age_of y)) [
    | inl e ↦
        (let t =
            left ys x age sorted.1 (not_first x y ys age at_x (none_differs _ age e) has) at_x
              fresh in
          let el = t.elder in
          record {
            kept = y ∷ t.kept;
            split = rw e (stays t.split);
            elder = (el.0, el.1, later el.2, el.3, el.4, el.5);
          })
    | inr (a, e) ↦ elim (Bool-cases (expired max_age a)) [
      | inl h ↦
          (let t =
              left ys x age sorted.1
                (not_first x y ys age at_x (expired_differs _ a age e h fresh) has) at_x fresh in
            record {
              kept = t.kept;
              split = rw (e, over_maximum_lem max_age a, h) (goes t.split);
              elder = t.elder;
            })
      | inr h ↦
          (let t = thinned age_of max_age (some a) ys in
            record {
              kept = y ∷ t.kept;
              split = rw (e, over_maximum_lem max_age a, h) (stays t.split);
              elder = (y, a, first refl, e, h, not_older x y ys a age at_x e sorted.0 has);
            })
    ]
  ]

  -- For each version that has not expired, one that has not expired and is at least as old is left,
  -- if no sorted version is older than one before it.
  pub staggered_to_remove-Elder :
      (sort : List Bytes → List Bytes) (versions : List Bytes) (x : Bytes) (age : ℤ)
      → OldestFirst age_of (sort versions)
      → Has x (sort versions)
      → age_of x ≡ some age
      → expired max_age age ≡ false
      → (kept : List Bytes) × Split
          (sort versions)
          (staggered_to_remove sort age_of (new_staggered max_age) versions)
          kept
        × Elder age kept
  unfolding staggered_to_remove
  staggered_to_remove-Elder sort versions x age sorted has at fresh =
      let t = left (sort versions) x age sorted has at fresh in (t.kept, t.split, t.elder)
