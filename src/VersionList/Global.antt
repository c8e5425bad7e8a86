-- ===== src/VersionList/Global.antt =====
-- `GetGlobal`: the newest version that some device holds as valid, or else the newest of all.
use vaporcito.Base.{
  ℕ, zero, suc, ◌≡◌, refl, ap, ◌⊎◌, inl, inr, List, [], ◌∷◌, ◌++◌, true, false, Option, none, some,
  arith, All,
}
use vaporcito.VersionList.{
  FileVersion, VersionList, version_invalid, version_at, first_valid, find_global, get_global,
  at_index, or_first,
}

abbrev pub Invalid : FileVersion → Type 0
Invalid v = version_invalid v ≡ true

-- The first valid version of a list splits it, with invalid versions alone in front.
abbrev pub FirstValid : FileVersion → List FileVersion → Type 0
FirstValid fv vs =
    (before : List FileVersion) × (after : List FileVersion) × (vs ≡ before ++ fv ∷ after)
    × All Invalid before
    × (version_invalid fv ≡ false)

-- The second and third of the ways in which `GetGlobal` answers.
abbrev pub Newest : FileVersion → List FileVersion → Type 0
Newest fv vs = All Invalid vs × ((rest : List FileVersion) × (vs ≡ fv ∷ rest))

first_valid-some :
    (vs : List FileVersion) (i : ℕ) → first_valid vs ≡ some i → FirstValid (version_at vs i) vs
unfolding first_valid
first_valid-some [] i h = cc
first_valid-some (v ∷ vs) zero h = ([], vs, refl, tt, ground arith)
first_valid-some (v ∷ vs) (suc i) h =
    let (before, after, e, bad, good) = first_valid-some vs i (ground arith) in
    (v ∷ before, after, ap (◌∷◌ v) e, (ground arith, bad), good)

first_valid-none : (vs : List FileVersion) → first_valid vs ≡ none → All Invalid vs
unfolding first_valid
first_valid-none [] h = tt
first_valid-none (v ∷ vs) h = ground (arith, first_valid-none vs)

-- The answers that are right for a list of versions.
abbrev pub IsGlobal : List FileVersion → Option FileVersion → Type 0
IsGlobal vs none = vs ≡ []
IsGlobal vs (some fv) = FirstValid fv vs ⊎ Newest fv vs

IsGlobal-of : (vs : List FileVersion) → IsGlobal vs (get_global (record { raw_versions = vs }))
unfolding get_global find_global
IsGlobal-of [] = refl
IsGlobal-of (v ∷ vs) = from (first_valid (v ∷ vs)) refl
  where
    from :
        (o : Option ℕ)
        → first_valid (v ∷ vs) ≡ o
        → IsGlobal (v ∷ vs) (at_index (v ∷ vs) (or_first o))
    from (some i) e = inl (first_valid-some (v ∷ vs) i e)
    from none e = inr (first_valid-none (v ∷ vs) e, (vs, refl))

-- `GetGlobal` answers nothing only for the empty list; otherwise it answers the first valid
-- version, which has invalid versions alone in front, or the first of all if every one is invalid.
pub get_global-IsGlobal : (vl : VersionList) → IsGlobal vl.raw_versions (get_global vl)
get_global-IsGlobal vl = IsGlobal-of vl.raw_versions
