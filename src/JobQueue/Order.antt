-- ===== src/JobQueue/Order.antt =====
-- The order in which the job queue hands out its files.
use vaporcito.Base.{
  ◌≡◌, ◌≢◌, refl, sym, ap, ◌∙◌, inl, inr, List, [], ◌∷◌, ◌++◌, append_assoc, append-nil, true,
  false, Option, none, some, arith, All, Bool-cases,
}
use vaporcito.Base.Int.{ℤ}
use vaporcito.Base.Bytes.{Bytes, bytes_equal, bytes_equal_sound, bytes_equal_iff}
use mathlib.Core.List.{map-append}
use mathlib.Core.Path.{subst₂}
use vaporcito.JobQueue.{
  JobQueue, JobQueueEntry, names, push, pop, pop_from, bring_loop, bring_to_front, done,
}
use vaporcito.JobQueue.Paging.{all_names}

-- What a client does with the queue over time.
pub data Call : Type 0 where
  pushes : Bytes → ℤ → ℤ → Call
  pops : Call
  finishes : Bytes → Call

abbrev pub answer : Option Bytes → List Bytes
answer none = []
answer (some f) = f ∷ []

-- The state after the calls, and the files that were handed out.
pub run : JobQueue → List Call → JobQueue × List Bytes
run q [] = (q, [])
run q (pushes file size modified ∷ cs) = run (push q file size modified) cs
run q (pops ∷ cs) = let (q', got) = run (pop q).0 cs in (q', answer (pop q).1 ++ got)
run q (finishes file ∷ cs) = run (done q file) cs

abbrev pub pushed : List Call → List Bytes
pushed [] = []
pushed (pushes file size modified ∷ cs) = file ∷ pushed cs
pushed (pops ∷ cs) = pushed cs
pushed (finishes file ∷ cs) = pushed cs

pop-names :
    (p : List Bytes) (es : List JobQueueEntry)
    → answer (pop_from p es).1 ++ names (pop_from p es).0.queued ≡ names es
pop-names p [] = refl
pop-names p (e ∷ es) = refl

-- Files come out of the queue in the order in which they went in: over any calls that push, pop and
-- finish, the files handed out, followed by those still queued, are those queued at first, followed
-- by those pushed.
pub run_in_order :
    (q : JobQueue) (cs : List Call)
    → (run q cs).1 ++ names (run q cs).0.queued ≡ names q.queued ++ pushed cs
unfolding run push pop done
run_in_order q [] = sym (append-nil (names q.queued))
run_in_order q (pushes file size modified ∷ cs) =
    run_in_order (push q file size modified) cs ∙ simp (map-append, append_assoc)
run_in_order q (pops ∷ cs) = rw append_assoc (
    ap (◌++◌ (answer (pop q).1)) (run_in_order (pop q).0 cs)
    ∙ rw (← append_assoc) (ap (λ l. l ++ pushed cs) (pop-names q.progress q.queued)))
run_in_order q (finishes file ∷ cs) = run_in_order (done q file) cs

pop_from-names :
    (p : List Bytes) (es : List JobQueueEntry)
    → (pop_from p es).0.progress ++ names (pop_from p es).0.queued ≡ p ++ names es
pop_from-names p [] = refl
pop_from-names p (e ∷ es) = append_assoc p (e.name ∷ []) (names es)

-- A pop moves a file from the queue to those in progress and changes neither the files nor their
-- order.
pub all_names-pop : (q : JobQueue) → all_names (pop q).0 ≡ all_names q
unfolding pop
all_names-pop q = pop_from-names q.progress q.queued

abbrev pub NotNamed : Bytes → JobQueueEntry → Type 0
NotNamed filename e = e.name ≢ filename

-- What becomes of a queue when a name is brought to its front: nothing if no entry has the name;
-- otherwise the first entry that has it moves before all others, which keep their order.
pub data Brought (filename : Bytes) (queue after : List JobQueueEntry) : Type 0 where
  absent : All (NotNamed filename) queue → after ≡ queue → Brought filename queue after
  moved :
      (front rest : List JobQueueEntry) (e : JobQueueEntry)
      → queue ≡ front ++ e ∷ rest
      → e.name ≡ filename
      → All (NotNamed filename) front
      → after ≡ e ∷ (front ++ rest)
      → Brought filename queue after

ne_of_test : (a b : Bytes) → bytes_equal a b ≡ false → a ≢ b
ne_of_test a b h e = ground (arith, (bytes_equal_iff a b).1 e)

All-snoc :
    (f : Bytes) (es : List JobQueueEntry) (e : JobQueueEntry)
    → All (NotNamed f) es
    → NotNamed f e
    → All (NotNamed f) (es ++ e ∷ [])
All-snoc f [] e h k = (k, tt)
All-snoc f (x ∷ es) e h k = (h.0, All-snoc f es e h.1 k)

moves_here :
    (f : Bytes) (before rest : List JobQueueEntry) (e : JobQueueEntry)
    → All (NotNamed f) before
    → bytes_equal e.name f ≡ true
    → Brought f (before ++ e ∷ rest) (bring_loop before (e ∷ rest) f)
unfolding bring_loop
moves_here f [] rest e h k = moved [] rest e refl (bytes_equal_sound e.name f k) tt (rw k refl)
moves_here f (b ∷ before) rest e h k =
    moved (b ∷ before) rest e refl (bytes_equal_sound e.name f k) h (ground arith)

passes_by :
    (f : Bytes) (before rest : List JobQueueEntry) (e : JobQueueEntry)
    → bytes_equal e.name f ≡ false
    → bring_loop before (e ∷ rest) f ≡ bring_loop (before ++ e ∷ []) rest f
unfolding bring_loop
passes_by f before rest e k = rw k

bring_loop-Brought :
    (f : Bytes) (before es : List JobQueueEntry)
    → All (NotNamed f) before
    → Brought f (before ++ es) (bring_loop before es f)
bring_loop-Brought f before [] h =
    unfold bring_loop in absent (rw (append-nil before) h) (sym (append-nil before))
bring_loop-Brought f before (e ∷ es) h = elim (Bool-cases (bytes_equal e.name f)) [
  | inl k ↦ moves_here f before es e h k
  | inr k ↦
      subst₂ (Brought f) (append_assoc before (e ∷ []) es) (sym (passes_by f before es e k))
        (bring_loop-Brought f (before ++ e ∷ []) es (All-snoc f before e h (ne_of_test e.name f k)))
]

-- `BringToFront` moves the first entry of the name before all others, which keep their order, and
-- changes nothing if no entry has the name.
pub bring_to_front-Brought :
    (q : JobQueue) (filename : Bytes) → Brought filename q.queued (bring_to_front q filename).queued
unfolding bring_to_front
bring_to_front-Brought q filename = bring_loop-Brought filename [] q.queued tt
