-- ===== src/Download/Total.antt =====
-- When the sender's `update` does not panic.
use vaporcito.Base.{
  ℕ, ◌≤◌, List, [], ◌∷◌, ◌++◌, All, true, false, ◌&&◌, ◌||◌, not, Option, none, some, length, drop,
  ltb, ◌≡◌, refl, sym, ap, subst, ◌∙◌, arith, inl, inr, Bool-cases, Option-cases,
}
use vaporcito.Base.Int.{◌==ℤ◌}
use vaporcito.Base.Bytes.{Bytes, bytes_equal, bytes_equal_sound}
use vaporcito.Base.Maps.{Map, lookup, insert, lookup-insert}
use vaporcito.Vector.{vector_equal}
use vaporcito.Puller.{SharedPullerState}
use vaporcito.Download.Device.{ProgressUpdate}
use vaporcito.Download.Sent
use vaporcito.Download.Sent.{
  SentState, sent_of, round_new, round_known, round, sent_before, and_then, update_loop, is_seen,
  forget_loop,
}

-- A state that stands for the same version and the same puller has at most the puller's blocks.
pub record Extends (now local : SentState) : Type 0 where
  pub room :
      vector_equal now.version local.version ≡ true
      → (now.created ==ℤ local.created) ≡ true
      → length local.block_indexes ≤ length now.block_indexes

-- What has been sent of the puller's file is a part of what the puller has.
abbrev pub Fits : Map SentState → SharedPullerState → Type 0
Fits files p =
    (local : SentState) → lookup p.file.name files ≡ some local → Extends (sent_of p) local

-- No two pullers work on a file of the same name.
abbrev pub Apart : List SharedPullerState → Type 0
Apart [] = Unit
Apart (p ∷ ps) = All (λ q. bytes_equal p.file.name q.file.name ≡ false) ps × Apart ps

-- There is an answer, and it keeps what the map has under a name.
abbrev Keeps : Bytes → Map SentState → Option (Map SentState × List ProgressUpdate) → Type 0
Keeps name files none = ⊥
Keeps name files (some (after, sent)) = lookup name after ≡ lookup name files

insert-Keeps :
    (k name : Bytes) (s : SentState) (files : Map SentState)
    → bytes_equal k name ≡ false
    → lookup name (insert k s files) ≡ lookup name files
insert-Keeps k name s files h = rw (lookup-insert k name s files, h) refl

round_new-Keeps :
    (k name : Bytes) (now : SentState) (files : Map SentState)
    → bytes_equal k name ≡ false
    → Keeps name files (round_new k now files)
unfolding round_new
round_new-Keeps k name now files h = elim (Bool-cases (ltb 0 (length now.block_indexes))) [
  | inl b ↦ rw b (insert-Keeps k name now files h)
  | inr b ↦ rw b refl
]

round_known-Keeps :
    (k name : Bytes) (now local : SentState) (files : Map SentState)
    → bytes_equal k name ≡ false
    → Extends now local
    → Keeps name files (round_known k now local files)
unfolding round_known
round_known-Keeps k name now local files h fits =
    let unchanged = (now.updated ==ℤ local.updated) && vector_equal now.version local.version in
    let other =
      not (vector_equal now.version local.version) || not (now.created ==ℤ local.created) in
    let new_blocks = drop (length local.block_indexes) now.block_indexes in
    elim (Bool-cases unchanged) [
      | inl a ↦ simp a refl
      | inr a ↦ elim (Bool-cases other) [
        | inl b ↦ simp (a, b) (insert-Keeps k name now files h)
        | inr b ↦
            let room = fits.room (ground arith) (ground arith) in
            let c : ltb (length now.block_indexes) (length local.block_indexes) ≡ false =
              ground arith in
            elim (Bool-cases (ltb 0 (length new_blocks))) [
              | inl d ↦ simp (a, b, c, d) (insert-Keeps k name _ files h)
              | inr d ↦ simp (a, b, c, d) (insert-Keeps k name _ files h)
            ]
      ]
    ]

round-Keeps :
    (p : SharedPullerState) (name : Bytes) (files : Map SentState)
    → bytes_equal p.file.name name ≡ false
    → Fits files p
    → Keeps name files (round p.file.name (sent_of p) (lookup p.file.name files) files)
round-Keeps p name files h fits = elim (Option-cases (lookup p.file.name files)) [
  | inl e ↦ rw e (round_new-Keeps p.file.name name (sent_of p) files h)
  | inr (local, e) ↦
      rw e (round_known-Keeps p.file.name name (sent_of p) local files h (fits local e))
]

longer_differs : (c : ℕ) (n : Bytes) → bytes_equal n (c ∷ n) ≡ false
longer_differs c n = elim (Bool-cases (bytes_equal n (c ∷ n))) [
  | inl e ↦
      let same : length n ≡ length (c ∷ n) = ap length (bytes_equal_sound n (c ∷ n) e) in
      absurd (omega (arith, same))
  | inr e ↦ e
]

Keeps-some :
    (name : Bytes) (files : Map SentState) (o : Option (Map SentState × List ProgressUpdate))
    → Keeps name files o
    → (after : Map SentState) × (sent : List ProgressUpdate) × (o ≡ some (after, sent))
Keeps-some name files none h = absurd h
Keeps-some name files (some (after, sent)) h = (after, sent, refl)

-- Pullers of other files still fit after a round.
Fits-after :
    (p q : SharedPullerState) (files after : Map SentState) (sent : List ProgressUpdate)
    → Fits files p
    → round p.file.name (sent_of p) (lookup p.file.name files) files ≡ some (after, sent)
    → bytes_equal p.file.name q.file.name ≡ false
    → Fits files q
    → Fits after q
Fits-after p q files after sent fits done h fits_q local e =
    let kept : lookup q.file.name after ≡ lookup q.file.name files =
      subst (Keeps q.file.name files) done (round-Keeps p q.file.name files h fits) in
    fits_q local (sym kept ∙ e)

All-Fits-after :
    (p : SharedPullerState) (qs : List SharedPullerState) (files after : Map SentState)
    (sent : List ProgressUpdate)
    → Fits files p
    → round p.file.name (sent_of p) (lookup p.file.name files) files ≡ some (after, sent)
    → All (λ q. bytes_equal p.file.name q.file.name ≡ false) qs
    → All (Fits files) qs
    → All (Fits after) qs
All-Fits-after p [] files after sent fits done h k = tt
All-Fits-after p (q ∷ qs) files after sent fits done h k = (
  Fits-after p q files after sent fits done h.0 k.0,
  All-Fits-after p qs files after sent fits done h.1 k.1,
)

and_then-some :
    (o : Option (Map SentState × List ProgressUpdate))
    (k : Map SentState → Option (Map SentState × List ProgressUpdate)) (files after : Map SentState)
    (sent more : List ProgressUpdate)
    → o ≡ some (files, sent)
    → k files ≡ some (after, more)
    → and_then o k ≡ some (after, sent ++ more)
and_then-some o k files after sent more h e = rw (h, e) refl

update_loop-some :
    (pullers : List SharedPullerState) (files : Map SentState)
    → Apart pullers
    → All (Fits files) pullers
    → (after : Map SentState) × (sent : List ProgressUpdate) × (update_loop files pullers
        ≡ some (after, sent))
unfolding update_loop
update_loop-some [] files apart fits = (files, [], refl)
update_loop-some (p ∷ pullers) files apart fits =
    let name = p.file.name in
    let (after, sent, done) =
      Keeps-some (0 ∷ name) files (round name (sent_of p) (lookup name files) files)
        (round-Keeps p (0 ∷ name) files (longer_differs 0 name) fits.0) in
    let (last, more, rest) =
      update_loop-some pullers after apart.1
        (All-Fits-after p pullers files after sent fits.0 done apart.0 fits.1) in
    (
      last,
      sent ++ more,
      and_then-some _ (λ a. update_loop a pullers) after last sent more done rest,
    )

-- The sender's `update` always answers, provided that its pullers have different files, and that
-- what was sent for the same version and the same puller is no more than the puller has.
pub folder_update-some :
    (files : Map SentState) (pullers : List SharedPullerState)
    → Apart pullers
    → All (Fits files) pullers
    → (after : Map SentState) × (sent : List ProgressUpdate) × (Sent.folder_update files pullers
        ≡ some (after, sent))
unfolding Sent.folder_update
folder_update-some files pullers apart fits =
    let (after, sent, done) = update_loop-some pullers files apart fits in
    let rest = forget_loop (is_seen pullers) after in
    (rest.0, sent ++ rest.1, and_then-some _ _ after rest.0 sent rest.1 done refl)
