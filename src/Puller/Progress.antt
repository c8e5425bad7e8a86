-- ===== src/Puller/Progress.antt =====
-- What the counters of a puller say about its blocks, over any sequence of its methods.
use vaporcito.Base.{
  ℕ, ◌+◌, List, [], ◌∷◌, ◌++◌, true, false, Option, none, some, length, length-append, ltb, ◌≡◌,
  refl, sym, subst, ap, arith, append_assoc, append-nil, Bool-cases, inl, inr, ◌∙◌,
}
use vaporcito.Base.Int.{ℤ, pos, pos_part, neg_part, ◌+ℤ◌, ◌-ℤ◌, ◌==ℤ◌, int_laws, ==ℤ_sound}
use vaporcito.FileInfo.{FileInfo, BlockInfo}
use vaporcito.Puller.{
  Error, SharedPullerState, new_shared_puller_state, fail_locked, copy_done, copied_from_origin,
  skipped_sparse_block, copied_from_origin_shifted, pull_started, pull_done, Finalizing, no_writer,
  unwritten, written, finalize_encrypted, sync_close, keep_error, close_now, not_done, final_close,
  index_of, progress,
}

-- One call of a method, in whatever order the copier and the pullers make them.
pub data Step : SharedPullerState → SharedPullerState → Type 0 where
  fails : (s : SharedPullerState) (e : Option Error) → Step s (fail_locked s e)
  copies : (s : SharedPullerState) (b : BlockInfo) (now : ℤ) → Step s (copy_done s b now)
  from_origin : (s : SharedPullerState) (now : ℤ) → Step s (copied_from_origin s now)
  skips : (s : SharedPullerState) (now : ℤ) → Step s (skipped_sparse_block s now)
  shifts : (s : SharedPullerState) (now : ℤ) → Step s (copied_from_origin_shifted s now)
  starts : (s : SharedPullerState) (now : ℤ) → Step s (pull_started s now)
  pulls : (s : SharedPullerState) (b : BlockInfo) (now : ℤ) → Step s (pull_done s b now)
  closes :
      (s : SharedPullerState) (trailer : Finalizing) (e : Option Error)
      → Step s (final_close s trailer e).0

pub data Reach (s : SharedPullerState) : SharedPullerState → Type 0 where
  here : Reach s s
  next : {t u : SharedPullerState} → Reach s t → Step t u → Reach s u

-- Every block is available, or its copy or its pull is still needed.
abbrev pub Counted : SharedPullerState → Type 0
Counted s =
    pos (length s.available) +ℤ s.copy_needed +ℤ s.pull_needed
    ≡ s.reused +ℤ s.copy_total +ℤ s.pull_total

-- What the state says of blocks is the same.
pub record SameBlocks (s t : SharedPullerState) : Type 0 where
  pub available : t.available ≡ s.available
  pub copy_needed : t.copy_needed ≡ s.copy_needed
  pub pull_needed : t.pull_needed ≡ s.pull_needed
  pub reused : t.reused ≡ s.reused
  pub copy_total : t.copy_total ≡ s.copy_total
  pub pull_total : t.pull_total ≡ s.pull_total

pub fail_locked-SameBlocks :
    (s : SharedPullerState) (e : Option Error) → SameBlocks s (fail_locked s e)
unfolding fail_locked
fail_locked-SameBlocks s e = ground arith

SameBlocks-trans : {s t u : SharedPullerState} → SameBlocks s t → SameBlocks t u → SameBlocks s u
SameBlocks-trans p q = ground arith

finalize_encrypted-SameBlocks :
    (s : SharedPullerState) (trailer : Finalizing)
    → SameBlocks s (keep_error (finalize_encrypted s trailer))
unfolding finalize_encrypted fail_locked
finalize_encrypted-SameBlocks s (no_writer e) = fail_locked-SameBlocks s (some e)
finalize_encrypted-SameBlocks s (unwritten e) = ground arith
finalize_encrypted-SameBlocks s (written n) = ground arith

sync_close-SameBlocks : (s : SharedPullerState) (e : Option Error) → SameBlocks s (sync_close s e)
unfolding sync_close
sync_close-SameBlocks s e = ground (arith, fail_locked-SameBlocks s e)

close_now-SameBlocks :
    (s : SharedPullerState) (trailer : Finalizing) (e : Option Error)
    → SameBlocks s (close_now s trailer e)
unfolding close_now
close_now-SameBlocks s trailer e = elim (Bool-cases (ltb 0 (length s.file.encrypted))) [
  | inl h ↦
      let before = finalize_encrypted-SameBlocks s trailer in
      let after = sync_close-SameBlocks (keep_error (finalize_encrypted s trailer)) e in
      let both = SameBlocks-trans before after in
      simp h (record {
        available = both.available;
        copy_needed = both.copy_needed;
        pull_needed = both.pull_needed;
        reused = both.reused;
        copy_total = both.copy_total;
        pull_total = both.pull_total;
      })
  | inr h ↦
      let after = sync_close-SameBlocks s e in
      simp h (record {
        available = after.available;
        copy_needed = after.copy_needed;
        pull_needed = after.pull_needed;
        reused = after.reused;
        copy_total = after.copy_total;
        pull_total = after.pull_total;
      })
]

same_self : (s : SharedPullerState) → SameBlocks s s
same_self s = ground arith

pub final_close-SameBlocks :
    (s : SharedPullerState) (trailer : Finalizing) (e : Option Error)
    → SameBlocks s (final_close s trailer e).0
unfolding final_close
final_close-SameBlocks s trailer e = elim (Bool-cases s.closed) [
  | inl h ↦ simp h (same_self s)
  | inr h ↦ elim (Bool-cases (not_done s)) [
    | inl k ↦ simp (h, k) (same_self s)
    | inr k ↦ simp (h, k) (close_now-SameBlocks s trailer e)
  ]
]

SameBlocks-Counted : {s t : SharedPullerState} → SameBlocks s t → Counted s → Counted t
SameBlocks-Counted same counted =
    rw
      (
        same.available, same.copy_needed, same.pull_needed, same.reused, same.copy_total,
        same.pull_total,
      )
      counted

length_one_more {ℓ} : {A : Type ℓ} (xs : List A) (x : A) → length (xs ++ x ∷ []) ≡ length xs + 1
length_one_more xs x = length-append xs (x ∷ [])

copied_one : (n : ℕ) (c p t : ℤ) → pos n +ℤ c +ℤ p ≡ t → pos (n + 1) +ℤ (c -ℤ pos 1) +ℤ p ≡ t
copied_one n c p t h = omega (int_laws, ap pos_part h, ap neg_part h)

pulled_one : (n : ℕ) (c p t : ℤ) → pos n +ℤ c +ℤ p ≡ t → pos (n + 1) +ℤ c +ℤ (p -ℤ pos 1) ≡ t
pulled_one n c p t h = omega (int_laws, ap pos_part h, ap neg_part h)

moved_one :
    (n c p r i j : ℤ)
    → n +ℤ c +ℤ p ≡ r +ℤ i +ℤ j
    → n +ℤ (c -ℤ pos 1) +ℤ (p +ℤ pos 1) ≡ r +ℤ (i -ℤ pos 1) +ℤ (j +ℤ pos 1)
moved_one n c p r i j h = omega (int_laws, ap pos_part h, ap neg_part h)

Step-Counted : {s t : SharedPullerState} → Step s t → Counted s → Counted t
unfolding copy_done copied_from_origin skipped_sparse_block copied_from_origin_shifted pull_started
    pull_done
Step-Counted (fails s e) h = SameBlocks-Counted (fail_locked-SameBlocks s e) h
Step-Counted (copies s b now) h =
    rw (length_one_more s.available (index_of s b))
      (copied_one (length s.available) s.copy_needed s.pull_needed _ h)
Step-Counted (from_origin s now) h = h
Step-Counted (skips s now) h = h
Step-Counted (shifts s now) h = h
Step-Counted (starts s now) h =
    moved_one _ s.copy_needed s.pull_needed s.reused s.copy_total s.pull_total h
Step-Counted (pulls s b now) h =
    rw (length_one_more s.available (index_of s b))
      (pulled_one (length s.available) s.copy_needed s.pull_needed _ h)
Step-Counted (closes s trailer e) h = SameBlocks-Counted (final_close-SameBlocks s trailer e) h

start_even : (r b : ℕ) → pos r +ℤ pos b +ℤ pos 0 ≡ pos r +ℤ pos b +ℤ pos 0
start_even r b = refl

new-Counted :
    (file : FileInfo) (blocks : List BlockInfo) (reused : List ℤ) (now : ℤ)
    → Counted (new_shared_puller_state file blocks reused now)
unfolding new_shared_puller_state
new-Counted file blocks reused now = start_even (length reused) (length blocks)

-- Whatever the copier and the pullers do with a new state, in whatever order, each block of the job
-- is available or is counted as still to be copied or pulled.
pub Reach-Counted :
    (file : FileInfo) (blocks : List BlockInfo) (reused : List ℤ) (now : ℤ) {s : SharedPullerState}
    → Reach (new_shared_puller_state file blocks reused now) s
    → Counted s
Reach-Counted file blocks reused now here = new-Counted file blocks reused now
Reach-Counted file blocks reused now (next path step) =
    Step-Counted step (Reach-Counted file blocks reused now path)

closed-final_close :
    (t : SharedPullerState) (trailer : Finalizing) (e : Option Error)
    → t.closed ≡ true
    → final_close t trailer e ≡ (t, false, none)
unfolding final_close
closed-final_close t trailer e h = simp h refl

final_close_closes :
    (s : SharedPullerState) (trailer : Finalizing) (e : Option Error)
    → (final_close s trailer e).1 ≡ true
    → (final_close s trailer e).0.closed ≡ true
unfolding final_close close_now
final_close_closes s trailer e h = ground arith

fail_locked_closed :
    (s : SharedPullerState) (e : Option Error) → (fail_locked s e).closed ≡ s.closed
unfolding fail_locked
fail_locked_closed s e = ground arith

Step-closed : {s t : SharedPullerState} → Step s t → s.closed ≡ true → t.closed ≡ true
unfolding copy_done copied_from_origin skipped_sparse_block copied_from_origin_shifted pull_started
    pull_done
Step-closed (fails s e) h = fail_locked_closed s e ∙ h
Step-closed (copies s b now) h = h
Step-closed (from_origin s now) h = h
Step-closed (skips s now) h = h
Step-closed (shifts s now) h = h
Step-closed (starts s now) h = h
Step-closed (pulls s b now) h = h
Step-closed (closes s trailer e) h = ap (λ r. r.0.closed) (closed-final_close s trailer e h) ∙ h

Reach-closed : {s t : SharedPullerState} → Reach s t → s.closed ≡ true → t.closed ≡ true
Reach-closed here h = h
Reach-closed (next path step) h = Step-closed step (Reach-closed path h)

fail_locked_err :
    (s : SharedPullerState) (e : Option Error) → (fail_locked s e).err ≡ none → s.err ≡ none
unfolding fail_locked
fail_locked_err s e h = ground arith

finalize_encrypted_err :
    (s : SharedPullerState) (trailer : Finalizing)
    → (keep_error (finalize_encrypted s trailer)).err ≡ none
    → s.err ≡ none
unfolding finalize_encrypted
finalize_encrypted_err s (no_writer e) h = fail_locked_err s (some e) h
finalize_encrypted_err s (unwritten e) h = fail_locked_err (record s { writer = true }) (some e) h
finalize_encrypted_err s (written n) h =
    fail_locked_err
      (record s {
        writer = true;
        file = record s.file { size = s.file.size +ℤ n; encryption_trailer_size = n };
      })
      none h

sync_close_err :
    (s : SharedPullerState) (e : Option Error) → (sync_close s e).err ≡ none → s.err ≡ none
unfolding sync_close
sync_close_err s e h = ground (arith, fail_locked_err s e)

-- An error that was there before the close is there after it.
close_now_err :
    (s : SharedPullerState) (trailer : Finalizing) (e : Option Error)
    → (close_now s trailer e).err ≡ none
    → s.err ≡ none
unfolding close_now
close_now_err s trailer e h = ground (
  arith,
  sync_close_err s e,
  sync_close_err (keep_error (finalize_encrypted s trailer)) e,
  finalize_encrypted_err s trailer,
)

final_close_done :
    (s : SharedPullerState) (trailer : Finalizing) (e : Option Error)
    → (final_close s trailer e).1 ≡ true
    → (final_close s trailer e).2 ≡ none
    → (s.pull_needed +ℤ s.copy_needed ==ℤ pos 0) ≡ true
unfolding final_close
final_close_done s trailer e h k = ground (arith, close_now_err s trailer e)

nothing_needed : (n c p r i j : ℤ) → n +ℤ c +ℤ p ≡ r +ℤ i +ℤ j → p +ℤ c ≡ pos 0 → n ≡ r +ℤ i +ℤ j
nothing_needed n c p r i j h k =
    omega (int_laws, ap pos_part h, ap neg_part h, ap pos_part k, ap neg_part k)

-- A state that closes without an error has as many blocks available as the job has, reused ones
-- included, provided that it counts its blocks.
pub final_close_complete :
    (s : SharedPullerState) (trailer : Finalizing) (e : Option Error) (t : SharedPullerState)
    → Counted s
    → final_close s trailer e ≡ (t, true, none)
    → pos (length t.available) ≡ (progress t).total
unfolding progress
final_close_complete s trailer e t counted closing =
    let same = subst (λ r. SameBlocks s r.0) closing (final_close-SameBlocks s trailer e) in
    let done = final_close_done s trailer e (ap (λ r. r.1) closing) (ap (λ r. r.2) closing) in
    let zero = ==ℤ_sound (s.pull_needed +ℤ s.copy_needed) (pos 0) done in
    rw (same.available, same.reused, same.copy_total, same.pull_total)
      (nothing_needed _ s.copy_needed s.pull_needed s.reused s.copy_total s.pull_total counted zero)

-- Once the file is to be finished, no later call says so again, whatever is called in between.
pub final_close-once :
    (s : SharedPullerState) (trailer : Finalizing) (e : Option Error) {t : SharedPullerState}
    → (final_close s trailer e).1 ≡ true
    → Reach (final_close s trailer e).0 t
    → (trailer' : Finalizing) (e' : Option Error) → final_close t trailer' e' ≡ (t, false, none)
final_close-once s trailer e closing path trailer' e' =
    closed-final_close _ trailer' e' (Reach-closed path (final_close_closes s trailer e closing))

Step-grows :
    {s t : SharedPullerState} → Step s t → (more : List ℤ) × (t.available ≡ s.available ++ more)
unfolding copy_done copied_from_origin skipped_sparse_block copied_from_origin_shifted pull_started
    pull_done
Step-grows (fails s e) = ([], (fail_locked-SameBlocks s e).available ∙ sym (append-nil s.available))
Step-grows (copies s b now) = (index_of s b ∷ [], refl)
Step-grows (from_origin s now) = ([], sym (append-nil s.available))
Step-grows (skips s now) = ([], sym (append-nil s.available))
Step-grows (shifts s now) = ([], sym (append-nil s.available))
Step-grows (starts s now) = ([], sym (append-nil s.available))
Step-grows (pulls s b now) = (index_of s b ∷ [], refl)
Step-grows (closes s trailer e) =
    ([], (final_close-SameBlocks s trailer e).available ∙ sym (append-nil s.available))

-- What is available stays available, in its order, and new blocks come behind it.
pub Reach-grows :
    {s t : SharedPullerState} → Reach s t → (more : List ℤ) × (t.available ≡ s.available ++ more)
Reach-grows {s} here = ([], sym (append-nil s.available))
Reach-grows {s} (next path step) =
    let before = Reach-grows path in
    let after = Step-grows step in
    (
      before.0 ++ after.0,
      after.1 ∙ ap (λ xs. xs ++ after.0) before.1 ∙ append_assoc s.available before.0 after.0,
    )
