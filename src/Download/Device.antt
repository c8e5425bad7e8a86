-- ===== src/Download/Device.antt =====
-- What another device has told us of its downloads: back/lib/model/devicedownloadstate.go. A method
-- runs under its state's mutex. A map is a list of its entries, and a pointer to a folder's state is
-- that state, since no one else holds it.
use vaporcito.Base.{
  ℕ, List, [], ◌∷◌, ◌++◌, Bool, false, ◌||◌, not, Option, none, some, length, if◌then◌else◌,
}
use vaporcito.Base.Int.{ℤ, pos, ◌+ℤ◌, ◌*ℤ◌, ◌==ℤ◌}
use vaporcito.Base.Bytes.{Bytes}
use vaporcito.Base.Maps.{Map, lookup, insert, erase}
use vaporcito.Vector.{Vector, vector_equal}

-- Any other number in a message is `unknown`.
pub data UpdateType : Type 0 where
  append forget unknown : UpdateType

-- `FileDownloadProgressUpdate` of back/lib/protocol/bep.pb.go.
pub record ProgressUpdate : Type 0 where
  pub update_type : UpdateType
  pub name : Bytes
  pub version : Vector
  pub block_indexes : List ℤ
  pub block_size : ℤ

pub record FileState : Type 0 where
  pub block_indexes : List ℤ
  pub version : Vector
  pub block_size : ℤ

pub has_index : List ℤ → ℤ → Bool
has_index [] index = false
has_index (i ∷ is) index = (i ==ℤ index) || has_index is index

abbrev pub has_block : Option FileState → Vector → ℤ → Bool
has_block none version index = false
has_block (some local) version index =
    if not (vector_equal local.version version) then false else has_index local.block_indexes index

unfoldable pub folder_has : Map FileState → Bytes → Vector → ℤ → Bool
folder_has files file version index = has_block (lookup file files) version index

abbrev pub new_state : ProgressUpdate → FileState
new_state update = record {
  block_indexes = update.block_indexes;
  version = update.version;
  block_size = update.block_size;
}

-- What an append makes of the state that is there.
abbrev pub appended : Option FileState → ProgressUpdate → FileState
appended none update = new_state update
appended (some local) update =
    if not (vector_equal local.version update.version)
    then new_state update
    else record local { block_indexes = local.block_indexes ++ update.block_indexes }

abbrev pub forgets : Option FileState → ProgressUpdate → Bool
forgets none update = false
forgets (some local) update = vector_equal local.version update.version

abbrev pub by_type : UpdateType → Map FileState → ProgressUpdate → Map FileState
by_type append files update = insert update.name (appended (lookup update.name files) update) files
by_type forget files update =
    if forgets (lookup update.name files) update then erase update.name files else files
by_type unknown files update = files

-- One round of the loop of `Update`.
unfoldable pub update_one : Map FileState → ProgressUpdate → Map FileState
update_one files update = by_type update.update_type files update

unfoldable pub folder_update : Map FileState → List ProgressUpdate → Map FileState
folder_update files [] = files
folder_update files (update ∷ updates) = folder_update (update_one files update) updates

pub get_block_counts : Map FileState → Map ℕ
get_block_counts [] = []
get_block_counts ((name, state) ∷ files) =
    (name, length state.block_indexes) ∷ get_block_counts files

-- 128 KiB, the fallback for a missing block size. Sums stay in the range of int64.
abbrev min_block_size : ℤ
min_block_size = pos 131072

pub folder_bytes_downloaded : Map FileState → ℤ
folder_bytes_downloaded [] = pos 0
folder_bytes_downloaded ((name, state) ∷ files) =
    (if not (state.block_size ==ℤ pos 0)
      then pos (length state.block_indexes) *ℤ state.block_size
      else pos (length state.block_indexes) *ℤ min_block_size)
    +ℤ folder_bytes_downloaded files

-- The folders of `deviceDownloadState`; a nil pointer is none.
abbrev pub DeviceDownloadState : Type 0
DeviceDownloadState = Option (Map (Map FileState))

abbrev pub new_device_download_state : DeviceDownloadState
new_device_download_state = some []

abbrev pub folder_or_new {ℓ} : {V : Type ℓ} → Option (Map V) → Map V
folder_or_new none = []
folder_or_new (some f) = f

unfoldable pub update : DeviceDownloadState → Bytes → List ProgressUpdate → DeviceDownloadState
update none folder updates = none
update (some folders) folder updates =
    some (insert folder (folder_update (folder_or_new (lookup folder folders)) updates) folders)

abbrev in_folder : Option (Map FileState) → Bytes → Vector → ℤ → Bool
in_folder none file version index = false
in_folder (some f) file version index = folder_has f file version index

unfoldable pub has : DeviceDownloadState → Bytes → Bytes → Vector → ℤ → Bool
has none folder file version index = false
has (some folders) folder file version index = in_folder (lookup folder folders) file version index

abbrev counts_of : Option (Map FileState) → Map ℕ
counts_of none = []
counts_of (some f) = get_block_counts f

pub device_block_counts : DeviceDownloadState → Bytes → Map ℕ
device_block_counts none folder = []
device_block_counts (some folders) folder = counts_of (lookup folder folders)

abbrev bytes_of : Option (Map FileState) → ℤ
bytes_of none = pos 0
bytes_of (some f) = folder_bytes_downloaded f

pub bytes_downloaded : DeviceDownloadState → Bytes → ℤ
bytes_downloaded none folder = pos 0
bytes_downloaded (some folders) folder = bytes_of (lookup folder folders)
