-- ===== src/Puller/Tests.antt =====
-- Runs of a puller's methods.
use vaporcito.Base.{◌≡◌, refl, [], ◌∷◌, true, none, length}
use vaporcito.Base.Int.{pos, ◌+ℤ◌, ◌-ℤ◌}
use vaporcito.Base.Bytes.{codes}
use vaporcito.FileInfo.Sample.{empty_file}
use vaporcito.FileInfo.{FileInfo, BlockInfo, block_size}
use vaporcito.Puller.{
  SharedPullerState, new_shared_puller_state, pull_started, copy_done, pull_done, written,
  close_now, final_close, sync_close, progress,
}
use vaporcito.Puller.Progress.{
  Reach, here, next, copies, starts, pulls, Reach-Counted, final_close_complete,
}
use vaporcito.Puller.History.{Tells, calls, Reach-Tells}

abbrev first : BlockInfo
first = record { hash = 1 ∷ []; offset = pos 0; size = pos 131072; weak_hash = 3 }

abbrev second : BlockInfo
second = record { hash = 2 ∷ []; offset = pos 131072; size = pos 5; weak_hash = 4 }

abbrev movie : FileInfo
movie = record empty_file { name = codes "movie"; size = pos 131077; blocks = first ∷ second ∷ [] }

abbrev begun : SharedPullerState
begun = new_shared_puller_state movie (first ∷ second ∷ []) [] (pos 10)

-- The first block is copied and the second one is pulled.
abbrev pulled : SharedPullerState
pulled = pull_done (pull_started (copy_done begun first (pos 11)) (pos 12)) second (pos 13)

path : Reach begun pulled
path =
    next (next (next here (copies begun first (pos 11))) (starts _ (pos 12)))
      (pulls _ second (pos 13))

all_there : pulled.available ≡ pos 0 ∷ pos 1 ∷ []
unfolding new_shared_puller_state copy_done pull_started pull_done block_size
all_there = refl

Reach-Tells_example : Tells 2 [] (calls path) pulled
Reach-Tells_example = Reach-Tells movie (first ∷ second ∷ []) [] (pos 10) path

abbrev closed_well : SharedPullerState
closed_well = (final_close pulled (written (pos 0)) none).0

closes_well : final_close pulled (written (pos 0)) none ≡ (closed_well, true, none)
unfolding new_shared_puller_state copy_done pull_started pull_done final_close close_now ◌+ℤ◌ ◌-ℤ◌
    sync_close
closes_well = refl

final_close_complete_example : pos (length closed_well.available) ≡ (progress closed_well).total
final_close_complete_example =
    final_close_complete pulled (written (pos 0)) none closed_well
      (Reach-Counted movie (first ∷ second ∷ []) [] (pos 10) path) closes_well
