-- ===== src/Download/Tests.antt =====
-- Runs of the updates between two devices.
use vaporcito.Base.{ℕ, sym, List, [], ◌∷◌, Option, some, none, ◌≡◌, refl, ap, arith, length}
use vaporcito.Base.Int.{pos}
use vaporcito.Base.Bytes.{codes, bytes_equal}
use vaporcito.Base.Maps.{Map, lookup, insert}
use vaporcito.Vector.{vector_equal}
use vaporcito.FileInfo.{FileInfo, block_size}
use vaporcito.FileInfo.Sample.{empty_file}
use vaporcito.Puller.{SharedPullerState, new_shared_puller_state}
use vaporcito.Download.Device
use vaporcito.Download.Device.{FileState, ProgressUpdate, update_one}
use vaporcito.Download.Sent
use vaporcito.Download.Sent.{SentState, round_new, round_known, update_loop, forget_loop, destroy}
use vaporcito.Download.Mirror.{Mirrors, insert-Mirrors}
use vaporcito.Download.Refinement.{folder_update-Mirrors}
use vaporcito.Download.Total.{Fits, folder_update-some}

abbrev movie : FileInfo
movie = record empty_file { name = codes "movie"; size = pos 500000 }

-- Two blocks are there at first, and a third one later.
abbrev early : SharedPullerState
early = new_shared_puller_state movie [] (pos 0 ∷ pos 2 ∷ []) (pos 10)

abbrev late : SharedPullerState
late = record early { available = pos 0 ∷ pos 2 ∷ pos 1 ∷ []; available_updated = pos 20 }

abbrev sent_first : Map SentState
sent_first =
    insert (codes "movie")
      (record {
        block_indexes = pos 0 ∷ pos 2 ∷ [];
        version = record { counters = [] };
        updated = pos 10;
        created = pos 10;
        block_size = pos 131072;
      })
      []

abbrev got_first : Map FileState
got_first =
    insert (codes "movie")
      (record {
        block_indexes = pos 0 ∷ pos 2 ∷ [];
        version = record { counters = [] };
        block_size = pos 131072;
      })
      []

abbrev sent_second : Map SentState
sent_second =
    insert (codes "movie")
      (record {
        block_indexes = pos 0 ∷ pos 2 ∷ pos 1 ∷ [];
        version = record { counters = [] };
        updated = pos 20;
        created = pos 10;
        block_size = pos 131072;
      })
      []

abbrev third_block : ProgressUpdate
third_block = record {
  update_type = Device.append;
  name = codes "movie";
  version = record { counters = [] };
  block_indexes = pos 1 ∷ [];
  block_size = pos 131072;
}

announced : Sent.folder_update sent_first (late ∷ []) ≡ some (sent_second, third_block ∷ [])
unfolding Sent.folder_update update_loop lookup insert bytes_equal new_shared_puller_state
    round_known vector_equal forget_loop block_size
announced = refl

first-Mirrors : Mirrors sent_first got_first
first-Mirrors = insert-Mirrors [] [] (codes "movie") _ _ refl (unfold Mirrors lookup in λ n. refl)

folder_update-Mirrors_example :
    Mirrors sent_second (Device.folder_update got_first (third_block ∷ []))
folder_update-Mirrors_example =
    folder_update-Mirrors sent_first sent_second got_first (late ∷ []) (third_block ∷ [])
      first-Mirrors announced

abbrev blocks_sent : Option SentState → ℕ
blocks_sent none = 0
blocks_sent (some s) = length s.block_indexes

late-Fits : Fits sent_first late
unfolding lookup insert bytes_equal new_shared_puller_state
late-Fits local e =
    let two : length local.block_indexes ≡ 2 = ap (λ s. blocks_sent s) (sym e) in
    record { room = λ h k. omega (arith, two) }

folder_update-some_example :
    (after : Map SentState) × (sent : List ProgressUpdate) × (Sent.folder_update sent_first
        (late ∷ [])
      ≡ some (after, sent))
folder_update-some_example = folder_update-some sent_first (late ∷ []) (tt, tt) (late-Fits, tt)
