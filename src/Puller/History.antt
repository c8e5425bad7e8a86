-- ===== src/Puller/History.antt =====
-- What a puller's counters say of the calls of its methods: how many blocks were copied, started to
-- be pulled and pulled, and which ones are available.
use vaporcito.Base.{
  ℕ, ◌+◌, List, [], ◌∷◌, ◌++◌, length, ◌≡◌, refl, sym, ap, arith, append_assoc, append-nil, ◌∙◌,
}
use vaporcito.Base.Int.{ℤ, pos, pos_part, neg_part, ◌+ℤ◌, ◌-ℤ◌, int_laws}
use vaporcito.FileInfo.{FileInfo, BlockInfo}
use vaporcito.Puller.{
  SharedPullerState, new_shared_puller_state, copy_done, copied_from_origin, skipped_sparse_block,
  copied_from_origin_shifted, pull_started, pull_done, index_of,
}
use vaporcito.Puller.Progress.{
  Step, fails, copies, from_origin, skips, shifts, starts, pulls, closes, Reach, here, next,
  SameBlocks, fail_locked-SameBlocks, final_close-SameBlocks,
}

-- What the calls so far did with blocks.
pub record Calls : Type 0 where
  pub copied : ℕ
  pub started : ℕ
  pub pulled : ℕ
  pub indexes : List ℤ

abbrev no_calls : Calls
no_calls = record { copied = 0; started = 0; pulled = 0; indexes = [] }

-- The place in the file of a block that is copied or pulled is noted behind those before it.
abbrev note_call : {s t : SharedPullerState} → Step s t → Calls → Calls
note_call (fails s e) c = c
note_call (copies s b now) c = record c {
  copied = c.copied + 1;
  indexes = c.indexes ++ index_of s b ∷ [];
}
note_call (from_origin s now) c = c
note_call (skips s now) c = c
note_call (shifts s now) c = c
note_call (starts s now) c = record c { started = c.started + 1 }
note_call (pulls s b now) c = record c {
  pulled = c.pulled + 1;
  indexes = c.indexes ++ index_of s b ∷ [];
}
note_call (closes s trailer e) c = c

unfoldable pub calls : {s t : SharedPullerState} → Reach s t → Calls
calls here = no_calls
calls (next path step) = note_call step (calls path)

-- What the counters are after these calls, for a job of some blocks beside those reused.
pub record Tells (blocks : ℕ) (old : List ℤ) (c : Calls) (s : SharedPullerState) : Type 0 where
  pub copy_total : s.copy_total ≡ pos blocks -ℤ pos c.started
  pub copy_needed : s.copy_needed ≡ pos blocks -ℤ pos (c.started + c.copied)
  pub pull_total : s.pull_total ≡ pos c.started
  pub pull_needed : s.pull_needed ≡ pos c.started -ℤ pos c.pulled
  pub reused : s.reused ≡ pos (length old)
  pub available : s.available ≡ old ++ c.indexes

SameBlocks-Tells :
    {blocks : ℕ} {reused : List ℤ} {c : Calls} {s t : SharedPullerState}
    → SameBlocks s t
    → Tells blocks reused c s
    → Tells blocks reused c t
SameBlocks-Tells same h = record {
  copy_total = same.copy_total ∙ h.copy_total;
  copy_needed = same.copy_needed ∙ h.copy_needed;
  pull_total = same.pull_total ∙ h.pull_total;
  pull_needed = same.pull_needed ∙ h.pull_needed;
  reused = same.reused ∙ h.reused;
  available = same.available ∙ h.available;
}

one_from : (x : ℤ) (b n m : ℕ) → x ≡ pos b -ℤ pos n → m ≡ n + 1 → x -ℤ pos 1 ≡ pos b -ℤ pos m
one_from x b n m h k = omega (int_laws, ap pos_part h, ap neg_part h, k)

one_to : (x : ℤ) (n m : ℕ) → x ≡ pos n -ℤ pos m → x +ℤ pos 1 ≡ pos (n + 1) -ℤ pos m
one_to x n m h = omega (int_laws, ap pos_part h, ap neg_part h)

one_more : (x : ℤ) (n : ℕ) → x ≡ pos n → x +ℤ pos 1 ≡ pos (n + 1)
one_more x n h = omega (int_laws, ap pos_part h, ap neg_part h)

append_one :
    (xs reused indexes : List ℤ) (i : ℤ)
    → xs ≡ reused ++ indexes
    → xs ++ i ∷ [] ≡ reused ++ (indexes ++ i ∷ [])
append_one xs reused indexes i h = ap (λ l. l ++ i ∷ []) h ∙ append_assoc reused indexes (i ∷ [])

Step-Tells :
    {blocks : ℕ} {reused : List ℤ} {c : Calls} {s t : SharedPullerState} (step : Step s t)
    → Tells blocks reused c s
    → Tells blocks reused (note_call step c) t
unfolding copy_done copied_from_origin skipped_sparse_block copied_from_origin_shifted pull_started
    pull_done
Step-Tells (fails s e) h = SameBlocks-Tells (fail_locked-SameBlocks s e) h
Step-Tells {blocks} {reused} {c} (copies s b now) h = record {
  copy_total = h.copy_total;
  copy_needed = one_from s.copy_needed blocks (c.started + c.copied) _ h.copy_needed (omega arith);
  pull_total = h.pull_total;
  pull_needed = h.pull_needed;
  reused = h.reused;
  available = append_one s.available reused c.indexes (index_of s b) h.available;
}
Step-Tells (from_origin s now) h = record {
  copy_total = h.copy_total;
  copy_needed = h.copy_needed;
  pull_total = h.pull_total;
  pull_needed = h.pull_needed;
  reused = h.reused;
  available = h.available;
}
Step-Tells (skips s now) h = record {
  copy_total = h.copy_total;
  copy_needed = h.copy_needed;
  pull_total = h.pull_total;
  pull_needed = h.pull_needed;
  reused = h.reused;
  available = h.available;
}
Step-Tells (shifts s now) h = record {
  copy_total = h.copy_total;
  copy_needed = h.copy_needed;
  pull_total = h.pull_total;
  pull_needed = h.pull_needed;
  reused = h.reused;
  available = h.available;
}
Step-Tells {blocks} {reused} {c} (starts s now) h = record {
  copy_total = one_from s.copy_total blocks c.started _ h.copy_total refl;
  copy_needed = one_from s.copy_needed blocks (c.started + c.copied) _ h.copy_needed (omega arith);
  pull_total = one_more s.pull_total c.started h.pull_total;
  pull_needed = one_to s.pull_needed c.started c.pulled h.pull_needed;
  reused = h.reused;
  available = h.available;
}
Step-Tells {blocks} {reused} {c} (pulls s b now) h = record {
  copy_total = h.copy_total;
  copy_needed = h.copy_needed;
  pull_total = h.pull_total;
  pull_needed = one_from s.pull_needed c.started c.pulled _ h.pull_needed refl;
  reused = h.reused;
  available = append_one s.available reused c.indexes (index_of s b) h.available;
}
Step-Tells (closes s trailer e) h = SameBlocks-Tells (final_close-SameBlocks s trailer e) h

all_blocks : (b : ℕ) → pos b ≡ pos b -ℤ pos 0
all_blocks b = omega int_laws

-- Over any calls on a new state: the blocks to copy in total are the blocks less the starts, and
-- those that still need a copy are less the copies too; the blocks to pull in total are the starts,
-- and those that still need a pull are less the pulls; the available places are those reused, and
-- behind them those of the copied and of the pulled blocks, in the order of the calls.
pub Reach-Tells :
    (file : FileInfo) (blocks : List BlockInfo) (reused : List ℤ) (now : ℤ) {s : SharedPullerState}
    → (path : Reach (new_shared_puller_state file blocks reused now) s)
    → Tells (length blocks) reused (calls path) s
unfolding calls new_shared_puller_state
Reach-Tells file blocks reused now here = record {
  copy_total = all_blocks (length blocks);
  copy_needed = all_blocks (length blocks);
  pull_total = refl;
  pull_needed = all_blocks 0;
  reused = refl;
  available = sym (append-nil reused);
}
Reach-Tells file blocks reused now (next path step) =
    Step-Tells step (Reach-Tells file blocks reused now path)
