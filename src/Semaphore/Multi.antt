-- ===== src/Semaphore/Multi.antt =====
-- Several semaphores taken in order and given back in reverse.
use vaporcito.Base.{ℕ, ◌≡◌, refl, ap, ◌∙◌, List, [], ◌∷◌, ◌++◌, false, Option, none, some, arith}
use mathlib.Core.List.{reverse, reverse-cons}
use mathlib.Core.Path.{fun_ext}
use vaporcito.Semaphore.{
  Semaphore, Outcome, taken, cancelled, waiting, take_loop, take_inner, give, Store, write,
  and_then, multi_take, give_loop, multi_give,
}
use vaporcito.Semaphore.Invariant.{IsValid, give-take}

-- Every semaphore of the store is within its capacity.
abbrev pub AllValid : Store → Type 0
AllValid st = (p : ℕ) → IsValid (st p)

give_loop-append :
    (ls ms : List (Option ℕ)) (size : ℕ) (st : Store)
    → give_loop (ls ++ ms) size st ≡ give_loop ms size (give_loop ls size st)
unfolding give_loop
give_loop-append [] ms size st = refl
give_loop-append (none ∷ ls) ms size st = give_loop-append ls ms size st
give_loop-append (some p ∷ ls) ms size st = give_loop-append ls ms size _

write-back : (p : ℕ) (s t : Semaphore) (st : Store) → s ≡ st p → write p s (write p t st) ≡ st
write-back p s t st e = fun_ext λ q. ground arith

taken-IsValid :
    (s r : Semaphore) (size g : ℕ) → IsValid s → take_inner false s size [] ≡ taken r g → IsValid r
unfolding take_inner take_loop
taken-IsValid s r size g v e = ground arith

write-AllValid :
    (p : ℕ) (s : Semaphore) (st : Store) → AllValid st → IsValid s → AllValid (write p s st)
write-AllValid p s st v h q = ground (arith, v q)

-- Giving back to the first semaphore, after the others.
give_last :
    (p size : ℕ) (r : Semaphore) (st : Store)
    → give r size ≡ st p
    → give_loop (some p ∷ []) size (write p r st) ≡ st
unfolding give_loop
give_last p size r st e =
    let same : write p r st p ≡ r = ground arith in
    write-back p (give (write p r st p) size) r st (ap (λ t. give t size) same ∙ e)

-- How a take of the first semaphore lets the others follow.
then_some :
    (o : Outcome) (k : Semaphore → Option Store) {st : Store}
    → and_then o k ≡ some st
    → (r : Semaphore) × (g : ℕ) × (o ≡ taken r g) × (k r ≡ some st)
then_some (taken r g) k e = (r, g, refl, e)
then_some cancelled k e = cc
then_some (waiting n) k e = cc

give_nil : (size : ℕ) (st : Store) → give_loop (none ∷ []) size st ≡ st
unfolding give_loop
give_nil size st = refl

undo_all :
    (ls : List (Option ℕ)) (size : ℕ) (st after : Store)
    → AllValid st
    → multi_take ls size st ≡ some after
    → give_loop (reverse ls) size after ≡ st
unfolding multi_take
undo_all [] size st after v e = unfold give_loop in (cc)
undo_all (none ∷ ls) size st after v e =
    rw (reverse-cons none ls, give_loop-append (reverse ls) (none ∷ []) size after)
      (give_nil size _ ∙ undo_all ls size st after v e)
undo_all (some p ∷ ls) size st after v e =
    let (r, g, took, rest) =
      then_some (take_inner false (st p) size []) (λ s. multi_take ls size (write p s st)) e in
    let others =
      undo_all ls size (write p r st) after
        (write-AllValid p r st v (taken-IsValid (st p) r size g (v p) took)) rest in
    rw (reverse-cons (some p) ls, give_loop-append (reverse ls) (some p ∷ []) size after, others)
      (give_last p size r st (give-take (st p) size r g (v p) took))

-- Giving to all the semaphores what was taken of all without a wait restores them, if none had more
-- available than its capacity, also where the list names one of them twice.
pub multi_give-multi_take :
    (ls : List (Option ℕ)) (size : ℕ) (st after : Store)
    → AllValid st
    → multi_take ls size st ≡ some after
    → multi_give ls size after ≡ st
unfolding multi_give
multi_give-multi_take ls size st after v e = undo_all ls size st after v e
