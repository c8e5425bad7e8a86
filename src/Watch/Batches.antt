-- ===== src/Watch/Batches.antt =====
-- What is sent for scanning: `notify` of back/lib/watchaggregator/aggregator.go.
use mathlib.Core.List.{Perm, perm_middle}
use mathlib.Core.List.Perm
use vaporcito.Base.{
  List, [], ◌∷◌, ◌++◌, map, Bool, false, ◌≡◌, refl, sym, subst, if◌then◌else◌, append_assoc,
  append-nil,
}
use vaporcito.Watch.Tree.{EventType, same_type}
use vaporcito.Watch.Track.{FilePath}
use vaporcito.Watch.Timer.{Scheduled, batch, unless_none, batches}

-- Every event has a type.
abbrev pub AreTyped : Scheduled → Type 0
AreTyped [] = Unit
AreTyped ((path, ev) ∷ to) = (same_type ev.ev_type EventType.unset ≡ false) × AreTyped to

abbrev pub sent : List (List FilePath) → List FilePath
sent [] = []
sent (b ∷ bs) = b ++ sent bs

abbrev pub paths : Scheduled → List FilePath
paths to = map (λ p. p.0) to

sent-unless_none :
    (b : List FilePath) (rest : List (List FilePath)) → sent (unless_none b rest) ≡ b ++ sent rest
sent-unless_none [] rest = refl
sent-unless_none (p ∷ b) rest = refl

sent-batches :
    (to : Scheduled)
    → sent (batches to)
      ≡ batch EventType.non_remove to ++ (batch EventType.mixed to ++ batch EventType.remove to)
unfolding batches
sent-batches to =
    rw
      (
        sent-unless_none (batch EventType.non_remove to)
            (unless_none (batch EventType.mixed to) (unless_none (batch EventType.remove to) [])),
        sent-unless_none (batch EventType.mixed to) (unless_none (batch EventType.remove to) []),
        sent-unless_none (batch EventType.remove to) [],
        append-nil (batch EventType.remove to),
      )
      refl

abbrev put_if : Bool → FilePath → List FilePath → List FilePath
put_if b path ps = if b then path ∷ ps else ps

placed-Perm :
    (typ : EventType) (path : FilePath) (n m r ps : List FilePath)
    → same_type typ EventType.unset ≡ false
    → Perm (n ++ (m ++ r)) ps
    → Perm
        (put_if (same_type typ EventType.non_remove) path n
          ++ (put_if (same_type typ EventType.mixed) path m
              ++ put_if (same_type typ EventType.remove) path r))
        (path ∷ ps)
placed-Perm EventType.unset path n m r ps t h = absurd (cc)
placed-Perm EventType.non_remove path n m r ps t h = Perm.cons path h
placed-Perm EventType.mixed path n m r ps t h =
    Perm.trans (perm_middle n (m ++ r)) (Perm.cons path h)
placed-Perm EventType.remove path n m r ps t h =
    Perm.trans (rw (sym (append_assoc n m (path ∷ r))) (perm_middle (n ++ m) r))
      (Perm.cons path (subst (λ x. Perm x ps) (sym (append_assoc n m r)) h))

parts-Perm :
    (to : Scheduled)
    → AreTyped to
    → Perm
        (batch EventType.non_remove to ++ (batch EventType.mixed to ++ batch EventType.remove to))
        (paths to)
unfolding batch
parts-Perm [] h = Perm.nil
parts-Perm ((path, ev) ∷ to) h = placed-Perm ev.ev_type path _ _ _ _ h.0 (parts-Perm to h.1)

-- If every event has a type, then the batches that are sent have all paths together, each as often
-- as it was scheduled.
pub sent-batches-Perm : (to : Scheduled) → AreTyped to → Perm (sent (batches to)) (paths to)
sent-batches-Perm to h = rw (sent-batches to) (parts-Perm to h)
