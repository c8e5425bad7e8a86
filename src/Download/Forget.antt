-- ===== src/Download/Forget.antt =====
-- The second loop of the sender's `update`, and `destroy`: the receiver drops what the sender drops.
use vaporcito.Base.{
  [], ◌∷◌, Bool, true, false, none, some, ◌≡◌, refl, sym, ap, subst, ◌∙◌, arith, ◌⊎◌, inl, inr,
  Bool-cases, if◌then◌else◌,
}
use vaporcito.Base.Bytes.{Bytes, bytes_equal, bytes_equal_refl, bytes_equal_sound}
use vaporcito.Base.Maps.{Map, lookup}
use vaporcito.Download.Device
use vaporcito.Download.Device.{FileState, ProgressUpdate, forgets, update_one}
use vaporcito.Download.Sent.{SentState, forget_update, forget_loop}
use vaporcito.Download.Mirror.{
  Mirrors, seen_as, vector_equal_refl, forget_one, forget_other, forget_absent,
}

module _ (seen : Bytes → Bool) where
  -- For the names that are not seen the receiver has nothing, or what is still to be forgotten.
  Left : Map SentState → Map FileState → Type 0
  Left files got =
      (name : Bytes)
      → seen name ≡ false
      → (lookup name got ≡ none) ⊎ (lookup name got ≡ seen_as (lookup name files))

  differ : (a b : Bytes) → seen a ≡ true → seen b ≡ false → bytes_equal a b ≡ false
  differ a b h k = elim (Bool-cases (bytes_equal a b)) [
    | inl e ↦
        let same : seen a ≡ seen b = ap seen (bytes_equal_sound a b e) in
        let clash : true ≡ false = sym h ∙ same ∙ k in cc
    | inr e ↦ e
  ]

  differ' : (a b : Bytes) → seen a ≡ false → seen b ≡ true → bytes_equal a b ≡ false
  differ' a b h k = elim (Bool-cases (bytes_equal a b)) [
    | inl e ↦
        let same : seen a ≡ seen b = ap seen (bytes_equal_sound a b e) in
        let clash : false ≡ true = sym h ∙ same ∙ k in cc
    | inr e ↦ e
  ]

  -- What the forget of an entry leaves, for the names that are not seen.
  forget_next :
      (k : Bytes) (i : SentState) (files : Map SentState) (got : Map FileState)
      → seen k ≡ false
      → Left ((k, i) ∷ files) got
      → Left files (update_one got (forget_update k i.version))
  unfolding Left lookup
  forget_next k i files got unseen left name h = elim (left k unseen) [
    | inl e ↦ rw (forget_absent got k i.version e) (elim (Bool-cases (bytes_equal k name)) [
      | inl b ↦ inl (subst (λ n. lookup n got ≡ none) (bytes_equal_sound k name b) e)
      | inr b ↦ elim (left name h) [ inl x ↦ inl x | inr x ↦ inr (x ∙ ap seen_as (rw b refl)) ]
    ])
    | inr e ↦
        let own : lookup k ((k, i) ∷ files) ≡ some i = rw (bytes_equal_refl k) refl in
        let there : lookup k got ≡ seen_as (some i) = e ∙ ap seen_as own in
        let forgotten = forget_one got k i.version name (rw there (vector_equal_refl i.version)) in
        elim (Bool-cases (bytes_equal k name)) [
          | inl b ↦ inl (forgotten ∙ rw b refl)
          | inr b ↦ elim (left name h) [
            | inl x ↦ inl (forgotten ∙ rw b x)
            | inr x ↦ inr (forgotten ∙ rw b (x ∙ ap seen_as (rw b refl)))
          ]
        ]
  ]

  lookup-forget_loop_kept :
      (files : Map SentState) (got : Map FileState) (name : Bytes)
      → seen name ≡ true
      → lookup name (Device.folder_update got (forget_loop seen files).1) ≡ lookup name got
  unfolding Device.folder_update forget_loop
  lookup-forget_loop_kept [] got name h = refl
  lookup-forget_loop_kept ((k, i) ∷ files) got name h = elim (Bool-cases (seen k)) [
    | inl b ↦ rw b (lookup-forget_loop_kept files got name h)
    | inr b ↦ rw b (
        lookup-forget_loop_kept files (update_one got (forget_update k i.version)) name h
        ∙ forget_other got k i.version name (differ' k name b h))
  ]

  lookup-forget_loop_gone :
      (files : Map SentState) (got : Map FileState) (name : Bytes)
      → Left files got
      → seen name ≡ false
      → lookup name (Device.folder_update got (forget_loop seen files).1) ≡ none
  unfolding Device.folder_update forget_loop Left lookup
  lookup-forget_loop_gone [] got name left h = elim (left name h) [ inl e ↦ e | inr e ↦ e ]
  lookup-forget_loop_gone ((k, i) ∷ files) got name left h = elim (Bool-cases (seen k)) [
    | inl b ↦ rw b (
        lookup-forget_loop_gone files got name
          (λ n u. elim (left n u) [
            | inl x ↦ inl x
            | inr x ↦ inr (x ∙ ap seen_as (rw (differ k n b u) refl))
          ])
          h)
    | inr b ↦ rw b (
        lookup-forget_loop_gone files (update_one got (forget_update k i.version)) name
          (forget_next k i files got b left) h)
  ]

  pub lookup-forget_loop :
      (files : Map SentState) (name : Bytes)
      → lookup name (forget_loop seen files).0 ≡ (if seen name then lookup name files else none)
  unfolding forget_loop lookup
  lookup-forget_loop [] name = ground arith
  lookup-forget_loop ((k, i) ∷ files) name = elim (Bool-cases (bytes_equal k name)) [
    | inl e ↦
        let same : seen k ≡ seen name = ap seen (bytes_equal_sound k name e) in
        elim (Bool-cases (seen k)) [
          | inl b ↦ rw (b, e, sym same ∙ b) refl
          | inr b ↦ rw (b, lookup-forget_loop files name, sym same ∙ b) refl
        ]
    | inr e ↦ elim (Bool-cases (seen k)) [
      | inl b ↦ rw (b, e, lookup-forget_loop files name) refl
      | inr b ↦ rw (b, e, lookup-forget_loop files name) refl
    ]
  ]

  -- After the loop the receiver still has the sender's files.
  pub forget_loop-Mirrors :
      (files : Map SentState) (got : Map FileState)
      → Mirrors files got
      → Mirrors (forget_loop seen files).0 (Device.folder_update got (forget_loop seen files).1)
  unfolding Mirrors
  forget_loop-Mirrors files got h name = elim (Bool-cases (seen name)) [
    | inl b ↦
        rw (lookup-forget_loop files name, b) (lookup-forget_loop_kept files got name b ∙ h name)
    | inr b ↦
        rw (lookup-forget_loop files name, b)
          (lookup-forget_loop_gone files got name (unfold Left in λ n u. inr (h n)) b)
  ]
