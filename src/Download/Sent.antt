-- ===== src/Download/Sent.antt =====
-- What a device has told another one of its own downloads: back/lib/model/sentdownloadstate.go. A
-- pointer to a file's state is that state, since the map alone holds it.
use vaporcito.Base.{
  List, [], ◌∷◌, ◌++◌, map, Bool, false, ◌&&◌, ◌||◌, not, Option, none, some, length, drop, ltb,
  if◌then◌else◌,
}
use vaporcito.Base.Int.{ℤ, pos, ◌==ℤ◌}
use vaporcito.Base.Bytes.{Bytes, bytes_equal}
use vaporcito.Base.Maps.{Map, lookup, insert, erase}
use vaporcito.Vector.{Vector, vector_equal}
use vaporcito.FileInfo.{block_size}
use vaporcito.Puller.{SharedPullerState}
use vaporcito.Download.Device.{ProgressUpdate, append, forget, folder_or_new}

pub record SentState : Type 0 where
  pub block_indexes : List ℤ
  pub version : Vector
  pub updated : ℤ
  pub created : ℤ
  pub block_size : ℤ

-- What `update` reads of a puller.
abbrev pub sent_of : SharedPullerState → SentState
sent_of puller = record {
  block_indexes = puller.available;
  version = puller.file.version;
  updated = puller.available_updated;
  created = puller.created;
  block_size = block_size puller.file;
}

abbrev pub append_update : Bytes → SentState → ProgressUpdate
append_update name state = record {
  update_type = append;
  name = name;
  version = state.version;
  block_indexes = state.block_indexes;
  block_size = state.block_size;
}

abbrev pub forget_update : Bytes → Vector → ProgressUpdate
forget_update name version = record {
  update_type = forget;
  name = name;
  version = version;
  block_indexes = [];
  block_size = pos 0;
}

-- A round of the first loop of `update`: the state of the file after it and the updates to send. A
-- slice that starts behind its end is a panic, which is none.
unfoldable pub round_new :
    Bytes → SentState → Map SentState → Option (Map SentState × List ProgressUpdate)
round_new name now files =
    if ltb 0 (length now.block_indexes)
    then some (insert name now files, append_update name now ∷ [])
    else some (files, [])

unfoldable pub round_known :
    Bytes → SentState → SentState → Map SentState → Option (Map SentState × List ProgressUpdate)
round_known name now local files =
    let new_blocks = drop (length local.block_indexes) now.block_indexes in
    let extended = record local {
      block_indexes = local.block_indexes ++ new_blocks;
      updated = now.updated;
    } in
    if (now.updated ==ℤ local.updated) && vector_equal now.version local.version
    then some (files, [])
    else if not (vector_equal now.version local.version) || not (now.created ==ℤ local.created)
    then some
        (insert name now files, forget_update name local.version ∷ append_update name now ∷ [])
    else if ltb (length now.block_indexes) (length local.block_indexes)
    then none
    else if ltb 0 (length new_blocks)
    then some (
      insert name extended files,
      append_update name (record now { version = local.version; block_indexes = new_blocks }) ∷ [],
    )
    else some (insert name extended files, [])

abbrev pub round :
    Bytes
    → SentState
    → Option SentState
    → Map SentState
    → Option (Map SentState × List ProgressUpdate)
round name now none files = round_new name now files
round name now (some local) files = round_known name now local files

-- The updates that were made before come first.
abbrev pub sent_before :
    List ProgressUpdate
    → Option (Map SentState × List ProgressUpdate)
    → Option (Map SentState × List ProgressUpdate)
sent_before sent none = none
sent_before sent (some (files, more)) = some (files, sent ++ more)

abbrev pub and_then :
    Option (Map SentState × List ProgressUpdate)
    → (Map SentState → Option (Map SentState × List ProgressUpdate))
    → Option (Map SentState × List ProgressUpdate)
and_then none k = none
and_then (some (files, sent)) k = sent_before sent (k files)

unfoldable pub update_loop :
    Map SentState → List SharedPullerState → Option (Map SentState × List ProgressUpdate)
update_loop files [] = some (files, [])
update_loop files (puller ∷ pullers) =
    let name = puller.file.name in
    and_then (round name (sent_of puller) (lookup name files) files)
      λ after. update_loop after pullers

abbrev pub is_seen : List SharedPullerState → Bytes → Bool
is_seen [] name = false
is_seen (puller ∷ pullers) name = bytes_equal puller.file.name name || is_seen pullers name

-- The second loop: the files that have no puller any more are forgotten. `destroy` forgets all.
unfoldable pub forget_loop : (Bytes → Bool) → Map SentState → Map SentState × List ProgressUpdate
forget_loop seen [] = ([], [])
forget_loop seen ((name, info) ∷ files) =
    let rest = forget_loop seen files in
    if seen name
    then ((name, info) ∷ rest.0, rest.1)
    else (rest.0, forget_update name info.version ∷ rest.1)

unfoldable pub folder_update :
    Map SentState → List SharedPullerState → Option (Map SentState × List ProgressUpdate)
folder_update files pullers =
    and_then (update_loop files pullers) λ after. some (forget_loop (is_seen pullers) after)

unfoldable pub destroy : Map SentState → Map SentState × List ProgressUpdate
destroy files = forget_loop (λ name. false) files

-- The folders of `sentDownloadState`.
abbrev pub SentDownloadState : Type 0
SentDownloadState = Map (Map SentState)

abbrev store :
    SentDownloadState
    → Bytes
    → Option (Map SentState × List ProgressUpdate)
    → Option (SentDownloadState × List ProgressUpdate)
store s folder none = none
store s folder (some (files, updates)) = some (insert folder files s, updates)

unfoldable pub update :
    SentDownloadState
    → Bytes
    → List SharedPullerState
    → Option (SentDownloadState × List ProgressUpdate)
update s folder pullers = store s folder (folder_update (folder_or_new (lookup folder s)) pullers)

pub folders : SentDownloadState → List Bytes
folders s = map (λ e. e.0) s

abbrev cleaned :
    SentDownloadState → Bytes → Option (Map SentState) → SentDownloadState × List ProgressUpdate
cleaned s folder none = (s, [])
cleaned s folder (some files) = (erase folder s, (destroy files).1)

unfoldable pub cleanup : SentDownloadState → Bytes → SentDownloadState × List ProgressUpdate
unfolding destroy
cleanup s folder = cleaned s folder (lookup folder s)
