-- ===== src/Meta/Buckets.antt =====
-- What adding and removing a file does to the counts of one bucket.
use vaporcito.Base.{
  ℕ, zero, suc, ◌+◌, ◌^◌, ◌<◌, ◌≤◌, List, [], ◌∷◌, false, length, ◌≡◌, ◌≢◌, refl, ap, arith,
}
use vaporcito.Base.Int.{ℤ, pos, negsuc, pos_part, neg_part, ◌+ℤ◌, ◌-ℤ◌}
use vaporcito.Meta.{
  Counts, add_int64, sub_int64, is_negative, is_impossible, at_least_zero, add_kind, Kind,
  deleted_file, a_directory, a_symlink, a_file, remove_kind, corrected, counts_at, set_counts,
}

-- A count that can grow by one.
abbrev pub Countable : ℤ → Type 0
Countable n = (neg_part n ≡ 0) × (pos_part n + 1 < 2 ^ 63)

abbrev pub IsInt64 : ℤ → Type 0
IsInt64 n = (pos_part n < 2 ^ 63) × (neg_part n ≤ 2 ^ 63)

-- Every count of a bucket can grow by one, and its bytes are an int64.
pub record Roomy (c : Counts) : Type 0 where
  pub files : Countable c.files
  pub directories : Countable c.directories
  pub symlinks : Countable c.symlinks
  pub deleted : Countable c.deleted
  pub bytes : IsInt64 c.bytes

sub-add_int64 : (a b : ℤ) → IsInt64 a → IsInt64 b → sub_int64 (add_int64 a b) b ≡ a
unfolding ◌+ℤ◌ ◌-ℤ◌ add_int64 sub_int64
sub-add_int64 (pos n) (pos m) h k = ground arith
sub-add_int64 (pos n) (negsuc m) h k = ground arith
sub-add_int64 (negsuc n) (pos m) h k = ground arith
sub-add_int64 (negsuc n) (negsuc m) h k = ground arith

Countable-IsInt64 : (n : ℤ) → Countable n → IsInt64 n
Countable-IsInt64 n h = (omega arith, omega arith)

back_one : (n : ℤ) → Countable n → sub_int64 (add_int64 n (pos 1)) (pos 1) ≡ n
back_one n h = sub-add_int64 n (pos 1) (Countable-IsInt64 n h) (omega arith, omega arith)

-- A count that is not negative stays as it is.
kept : (n : ℤ) → Countable n → (is_negative n ≡ false) × (at_least_zero n ≡ n)
kept n h = ground arith

pub corrected_kept : (c : Counts) → Roomy c → (corrected c ≡ c) × (is_impossible c ≡ false)
unfolding corrected
corrected_kept c r =
    rw
      (
        (kept c.files r.files).0,
        (kept c.directories r.directories).0,
        (kept c.symlinks r.symlinks).0,
        (kept c.deleted r.deleted).0,
      )
      (refl, refl)

not_negative : (n : ℤ) → is_negative (at_least_zero n) ≡ false
not_negative n = ground arith

pub corrected_possible : (c : Counts) → is_impossible (corrected c) ≡ false
unfolding corrected
corrected_possible c =
    rw
      (
        not_negative c.deleted,
        not_negative c.files,
        not_negative c.directories,
        not_negative c.symlinks,
      )
      refl

pub remove_kind-add_kind :
    (k : Kind) (size : ℤ) (c : Counts)
    → Roomy c
    → IsInt64 size
    → remove_kind k size (add_kind k size c) ≡ c
unfolding remove_kind add_kind
remove_kind-add_kind deleted_file size c r h =
    rw (sub-add_int64 c.bytes size r.bytes h, back_one c.deleted r.deleted) refl
remove_kind-add_kind a_directory size c r h =
    rw (sub-add_int64 c.bytes size r.bytes h, back_one c.directories r.directories) refl
remove_kind-add_kind a_symlink size c r h =
    rw (sub-add_int64 c.bytes size r.bytes h, back_one c.symlinks r.symlinks) refl
remove_kind-add_kind a_file size c r h =
    rw (sub-add_int64 c.bytes size r.bytes h, back_one c.files r.files) refl

pub length-set_counts :
    (cs : List Counts) (i : ℕ) (c : Counts) → length (set_counts cs i c) ≡ length cs
length-set_counts [] i c = refl
length-set_counts (x ∷ cs) zero c = refl
length-set_counts (x ∷ cs) (suc i) c = ap suc (length-set_counts cs i c)

pub counts_at-set_counts :
    (cs : List Counts) (i : ℕ) (c : Counts) → i < length cs → counts_at (set_counts cs i c) i ≡ c
counts_at-set_counts [] i c h = absurd (omega arith)
counts_at-set_counts (x ∷ cs) zero c h = refl
counts_at-set_counts (x ∷ cs) (suc i) c h = counts_at-set_counts cs i c (omega arith)

pub counts_at-set_counts_other :
    (cs : List Counts) (i j : ℕ) (c : Counts)
    → i ≢ j
    → counts_at (set_counts cs i c) j ≡ counts_at cs j
counts_at-set_counts_other [] i j c h = refl
counts_at-set_counts_other (x ∷ cs) zero zero c h = absurd (h refl)
counts_at-set_counts_other (x ∷ cs) zero (suc j) c h = refl
counts_at-set_counts_other (x ∷ cs) (suc i) zero c h = refl
counts_at-set_counts_other (x ∷ cs) (suc i) (suc j) c h =
    counts_at-set_counts_other cs i j c λ e. h (ap suc e)

pub set_counts_twice :
    (cs : List Counts) (i : ℕ) (c d : Counts)
    → set_counts (set_counts cs i c) i d ≡ set_counts cs i d
set_counts_twice [] i c d = refl
set_counts_twice (x ∷ cs) zero c d = refl
set_counts_twice (x ∷ cs) (suc i) c d = ap (◌∷◌ x) (set_counts_twice cs i c d)

pub set_counts_same : (cs : List Counts) (i : ℕ) → set_counts cs i (counts_at cs i) ≡ cs
set_counts_same [] i = refl
set_counts_same (x ∷ cs) zero = refl
set_counts_same (x ∷ cs) (suc i) = ap (◌∷◌ x) (set_counts_same cs i)
