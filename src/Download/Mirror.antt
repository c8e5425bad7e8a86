-- ===== src/Download/Mirror.antt =====
-- The device that gets the updates of `sentdownloadstate.go` and applies them as
-- `devicedownloadstate.go` does has the same files and blocks as the device that sends them.
use vaporcito.Base.{
  List, [], ◌∷◌, ◌++◌, true, false, Option, none, some, ◌≡◌, refl, sym, inl, inr, Bool-cases,
  if◌then◌else◌,
}
use vaporcito.Base.Bytes.{Bytes, bytes_equal}
use vaporcito.Base.Maps.{Map, lookup, insert, erase, lookup-insert, lookup-erase}
use vaporcito.Vector.{
  Vector, Ordering, equal, greater, lesser, concurrent_lesser, concurrent_greater, compare,
  vector_equal,
}
use vaporcito.Vector.Order.{compare_swapped, mirror}
use vaporcito.Download.Device
use vaporcito.Download.Device.{
  FileState, ProgressUpdate, append, forget, appended, forgets, update_one,
}
use vaporcito.Download.Sent.{SentState, forget_update}

-- How the receiver sees a file's state.
abbrev pub seen_as : Option SentState → Option FileState
seen_as none = none
seen_as (some s) =
    some
      (record { block_indexes = s.block_indexes; version = s.version; block_size = s.block_size })

-- The receiver has the sender's files, with their versions, blocks and block sizes, and no others.
unfoldable pub Mirrors : Map SentState → Map FileState → Type 0
Mirrors sent got = (name : Bytes) → lookup name got ≡ seen_as (lookup name sent)

mirror_fixed : (o : Ordering) → o ≡ mirror o → o ≡ equal
mirror_fixed equal h = refl
mirror_fixed greater h = cc
mirror_fixed lesser h = cc
mirror_fixed concurrent_lesser h = cc
mirror_fixed concurrent_greater h = cc

pub vector_equal_refl : (v : Vector) → vector_equal v v ≡ true
unfolding vector_equal
vector_equal_refl v = rw (mirror_fixed (compare v v) (compare_swapped v v)) refl

pub folder_update-append :
    (got : Map FileState) (us vs : List ProgressUpdate)
    → Device.folder_update got (us ++ vs) ≡ Device.folder_update (Device.folder_update got us) vs
unfolding Device.folder_update
folder_update-append got [] vs = refl
folder_update-append got (u ∷ us) vs = folder_update-append (update_one got u) us vs

-- The same write on both sides.
pub insert-Mirrors :
    (sent : Map SentState) (got : Map FileState) (k : Bytes) (s : SentState) (f : FileState)
    → seen_as (some s) ≡ some f
    → Mirrors sent got
    → Mirrors (insert k s sent) (insert k f got)
unfolding Mirrors
insert-Mirrors sent got k s f e h name = elim (Bool-cases (bytes_equal k name)) [
  | inl b ↦ rw (lookup-insert k name s sent, lookup-insert k name f got, b) (sym e)
  | inr b ↦ rw (lookup-insert k name s sent, lookup-insert k name f got, b) (h name)
]

-- A write that replaces an entry, after its removal on the other side.
pub erase-insert-Mirrors :
    (sent : Map SentState) (got : Map FileState) (k : Bytes) (s : SentState) (f : FileState)
    → seen_as (some s) ≡ some f
    → Mirrors sent got
    → Mirrors (insert k s sent) (insert k f (erase k got))
unfolding Mirrors
erase-insert-Mirrors sent got k s f e h name = elim (Bool-cases (bytes_equal k name)) [
  | inl b ↦ rw (lookup-insert k name s sent, lookup-insert k name f (erase k got), b) (sym e)
  | inr b ↦
      rw
        (
          lookup-insert k name s sent,
          lookup-insert k name f (erase k got),
          lookup-erase k name got,
          b,
        )
        (h name)
]

-- What a forget does on the receiver's side to every name.
pub forget_one :
    (got : Map FileState) (k : Bytes) (version : Vector) (name : Bytes)
    → forgets (lookup k got) (forget_update k version) ≡ true
    → lookup name (update_one got (forget_update k version))
      ≡ (if bytes_equal k name then none else lookup name got)
unfolding update_one
forget_one got k version name h = rw h (lookup-erase k name got)

pub forget_other :
    (got : Map FileState) (k : Bytes) (version : Vector) (name : Bytes)
    → bytes_equal k name ≡ false
    → lookup name (update_one got (forget_update k version)) ≡ lookup name got
unfolding update_one
forget_other got k version name h =
    elim (Bool-cases (forgets (lookup k got) (forget_update k version))) [
      | inl b ↦ rw (b, lookup-erase k name got, h) refl
      | inr b ↦ rw b refl
    ]

pub forget_absent :
    (got : Map FileState) (k : Bytes) (version : Vector)
    → lookup k got ≡ none
    → update_one got (forget_update k version) ≡ got
unfolding update_one
forget_absent got k version e = rw e refl
