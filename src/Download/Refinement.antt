-- ===== src/Download/Refinement.antt =====
-- The whole of the sender's `update` and of the receiver's: the receiver mirrors the sender.
use vaporcito.Base.{
  List, [], ◌∷◌, ◌++◌, false, ◌&&◌, ◌||◌, not, Option, none, some, length, drop, ltb, ◌≡◌, refl,
  sym, ap, subst, ◌∙◌, arith, append-nil, inl, inr, Bool-cases, Option-cases,
}
use vaporcito.Base.Int.{ℤ, ◌==ℤ◌}
use vaporcito.Base.Bytes.{Bytes, bytes_equal, bytes_equal_refl, bytes_equal_sound}
use vaporcito.Base.Maps.{Map, lookup, insert, lookup-insert, lookup-erase}
use vaporcito.Vector.{vector_equal}
use vaporcito.Puller.{SharedPullerState}
use vaporcito.Download.Device
use vaporcito.Download.Device.{FileState, ProgressUpdate, appended, forgets, update_one}
use vaporcito.Download.Sent
use vaporcito.Download.Sent.{
  SentState, sent_of, append_update, forget_update, round_new, round_known, round, sent_before,
  and_then, update_loop, is_seen, forget_loop, destroy,
}
use vaporcito.Download.Mirror.{
  Mirrors, seen_as, vector_equal_refl, folder_update-append, insert-Mirrors, erase-insert-Mirrors,
}
use vaporcito.Download.Forget.{forget_loop-Mirrors, lookup-forget_loop}

-- The receiver mirrors the sender after what the sender answers; a panic answers nothing.
abbrev Mirrored : Map FileState → Option (Map SentState × List ProgressUpdate) → Type 0
Mirrored got none = Unit
Mirrored got (some (after, sent)) = Mirrors after (Device.folder_update got sent)

Mirrors-lookup :
    (files : Map SentState) (got : Map FileState) (name : Bytes) (o : Option SentState)
    → Mirrors files got
    → lookup name files ≡ o
    → lookup name got ≡ seen_as o
unfolding Mirrors
Mirrors-lookup files got name o h e = h name ∙ ap seen_as e

nothing_new {ℓ} : {A : Type ℓ} (xs : List A) → ltb 0 (length xs) ≡ false → xs ≡ []
nothing_new [] h = refl
nothing_new (x ∷ xs) h = ground arith

-- A file that is new to the sender.
round_new-Mirrored :
    (name : Bytes) (now : SentState) (files : Map SentState) (got : Map FileState)
    → Mirrors files got
    → lookup name files ≡ none
    → Mirrored got (round_new name now files)
unfolding round_new Device.folder_update update_one
round_new-Mirrored name now files got h absent =
    let absent' : lookup name got ≡ none = Mirrors-lookup files got name none h absent in
    elim (Bool-cases (ltb 0 (length now.block_indexes))) [
      | inl b ↦ rw (b, absent') (insert-Mirrors files got name now _ refl h)
      | inr b ↦ rw b h
    ]

module _ (name : Bytes) (now local : SentState) (files : Map SentState) (got : Map FileState)
    (h : Mirrors files got) (there : lookup name files ≡ some local) where
  there' : lookup name got ≡ seen_as (some local)
  there' = Mirrors-lookup files got name (some local) h there

  -- The old file is forgotten and the new one announced.
  replaced-Mirrors :
      Mirrors
        (insert name now files)
        (Device.folder_update got (forget_update name local.version ∷ append_update name now ∷ []))
  unfolding Device.folder_update update_one
  replaced-Mirrors =
      rw (there', vector_equal_refl local.version)
        (rw (lookup-erase name name got, bytes_equal_refl name)
          (erase-insert-Mirrors files got name now _ refl h))

  -- Only the new blocks are announced.
  extended-Mirrors :
      (blocks : List ℤ) (updated : ℤ)
      → Mirrors
          (insert name
            (record local { block_indexes = local.block_indexes ++ blocks; updated = updated })
            files)
          (Device.folder_update got (
            append_update name (record now { version = local.version; block_indexes = blocks })
            ∷ []))
  unfolding Device.folder_update update_one
  extended-Mirrors blocks updated =
      rw (there', vector_equal_refl local.version) (insert-Mirrors files got name _ _ refl h)

  -- A write that the receiver cannot see.
  unseen-Mirrors :
      (s : SentState) → seen_as (some s) ≡ seen_as (some local) → Mirrors (insert name s files) got
  unfolding Mirrors
  unseen-Mirrors s e n = elim (Bool-cases (bytes_equal name n)) [
    | inl b ↦
        rw (lookup-insert name n s files, b)
          (subst (λ k. lookup k got ≡ seen_as (some local)) (bytes_equal_sound name n b) there'
            ∙ sym e)
    | inr b ↦ rw (lookup-insert name n s files, b) (h n)
  ]

  round_known-Mirrored : Mirrored got (round_known name now local files)
  unfolding round_known Device.folder_update
  round_known-Mirrored =
      let unchanged = (now.updated ==ℤ local.updated) && vector_equal now.version local.version in
      let other =
        not (vector_equal now.version local.version) || not (now.created ==ℤ local.created) in
      let new_blocks = drop (length local.block_indexes) now.block_indexes in
      elim (Bool-cases unchanged) [
        | inl a ↦ simp a h
        | inr a ↦ elim (Bool-cases other) [
          | inl b ↦ simp (a, b) replaced-Mirrors
          | inr b ↦
              elim (Bool-cases (ltb (length now.block_indexes) (length local.block_indexes))) [
                | inl c ↦ simp (a, b, c) tt
                | inr c ↦ elim (Bool-cases (ltb 0 (length new_blocks))) [
                  | inl d ↦ simp (a, b, c, d) (extended-Mirrors new_blocks now.updated)
                  | inr d ↦
                      simp (a, b, c, d)
                        (unseen-Mirrors _ (rw (nothing_new new_blocks d, append-nil) refl))
                ]
              ]
        ]
      ]

round-Mirrored :
    (name : Bytes) (now : SentState) (files : Map SentState) (got : Map FileState)
    → Mirrors files got
    → Mirrored got (round name now (lookup name files) files)
round-Mirrored name now files got h = elim (Option-cases (lookup name files)) [
  | inl e ↦ rw e (round_new-Mirrored name now files got h e)
  | inr (local, e) ↦ rw e (round_known-Mirrored name now local files got h e)
]

sent_before-Mirrored :
    (got : Map FileState) (sent : List ProgressUpdate)
    (o : Option (Map SentState × List ProgressUpdate))
    → Mirrored (Device.folder_update got sent) o
    → Mirrored got (sent_before sent o)
sent_before-Mirrored got sent none h = tt
sent_before-Mirrored got sent (some (after, more)) h = rw (folder_update-append got sent more) h

and_then-Mirrored :
    (got : Map FileState) (o : Option (Map SentState × List ProgressUpdate))
    (k : Map SentState → Option (Map SentState × List ProgressUpdate))
    → ((files : Map SentState) (seen : Map FileState)
        → Mirrors files seen
        → Mirrored seen (k files))
    → Mirrored got o
    → Mirrored got (and_then o k)
and_then-Mirrored got none k all h = tt
and_then-Mirrored got (some (files, sent)) k all h =
    sent_before-Mirrored got sent (k files) (all files (Device.folder_update got sent) h)

update_loop-Mirrored :
    (pullers : List SharedPullerState) (files : Map SentState) (got : Map FileState)
    → Mirrors files got
    → Mirrored got (update_loop files pullers)
unfolding update_loop Device.folder_update
update_loop-Mirrored [] files got h = h
update_loop-Mirrored (p ∷ pullers) files got h =
    and_then-Mirrored got _ _ (λ after seen m. update_loop-Mirrored pullers after seen m)
      (round-Mirrored p.file.name (sent_of p) files got h)

folder_update-Mirrored :
    (files : Map SentState) (got : Map FileState) (pullers : List SharedPullerState)
    → Mirrors files got
    → Mirrored got (Sent.folder_update files pullers)
unfolding Sent.folder_update
folder_update-Mirrored files got pullers h =
    and_then-Mirrored got _ _ (λ after seen m. forget_loop-Mirrors (is_seen pullers) after seen m)
      (update_loop-Mirrored pullers files got h)

-- If the receiver has the sender's files and blocks, and the sender makes its updates from its
-- pullers, then the receiver has the sender's files and blocks again once it has applied them.
pub folder_update-Mirrors :
    (files after : Map SentState) (got : Map FileState) (pullers : List SharedPullerState)
    (sent : List ProgressUpdate)
    → Mirrors files got
    → Sent.folder_update files pullers ≡ some (after, sent)
    → Mirrors after (Device.folder_update got sent)
folder_update-Mirrors files after got pullers sent h done =
    subst (Mirrored got) done (folder_update-Mirrored files got pullers h)

-- After the updates of `destroy` the receiver has no file any more.
pub destroy-Mirrors :
    (files : Map SentState) (got : Map FileState) (name : Bytes)
    → Mirrors files got
    → lookup name (Device.folder_update got (destroy files).1) ≡ none
unfolding destroy
destroy-Mirrors files got name h =
    Mirrors-lookup _ _ name none (forget_loop-Mirrors (λ n. false) files got h)
      (lookup-forget_loop (λ n. false) files name)
