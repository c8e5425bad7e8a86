-- ===== src/Platform.antt =====
-- Platform data of a file: back/lib/protocol/bep_extensions.go, from `Xattrs` on, and the message
-- types of back/lib/protocol/bep.pb.go. A pointer is nil or an address with what it points to.
pub mod Laws
mod Tests
use vaporcito.Base.{
  ℕ, List, [], ◌∷◌, Bool, true, false, ◌&&◌, ◌||◌, not, length, ◌==◌, if◌then◌else◌,
}
use vaporcito.Base.Int.{ℤ, ◌==ℤ◌}
use vaporcito.Base.Bytes.{Bytes, bytes_equal}

pub record UnixData : Type 0 where
  pub owner_name : Bytes
  pub group_name : Bytes
  pub uid : ℤ
  pub gid : ℤ

pub record WindowsData : Type 0 where
  pub owner_name : Bytes
  pub owner_is_group : Bool

pub record Xattr : Type 0 where
  pub name : Bytes
  pub value : Bytes

pub record XattrData : Type 0 where
  pub xattrs : List Xattr

pub data Pointer {ℓ} (A : Type ℓ) : Type ℓ where
  nil : Pointer A
  at : ℕ → A → Pointer A

abbrev pub same_pointer {ℓ} : {A : Type ℓ} → Pointer A → Pointer A → Bool
same_pointer nil nil = true
same_pointer nil (at q b) = false
same_pointer (at p a) nil = false
same_pointer (at p a) (at q b) = p == q

pub record PlatformData : Type 0 where
  pub unix : Pointer UnixData
  pub windows : Pointer WindowsData
  pub linux : Pointer XattrData
  pub darwin : Pointer XattrData
  pub free_bsd : Pointer XattrData
  pub net_bsd : Pointer XattrData

-- `==` of two `PlatformData`: pointer by pointer.
abbrev pub same_platform : PlatformData → PlatformData → Bool
same_platform a b =
    same_pointer a.unix b.unix
    && same_pointer a.windows b.windows
    && same_pointer a.linux b.linux
    && same_pointer a.darwin b.darwin
    && same_pointer a.free_bsd b.free_bsd
    && same_pointer a.net_bsd b.net_bsd

unfoldable pub unix_ownership_equal : Pointer UnixData → Pointer UnixData → Bool
unix_ownership_equal nil nil = true
unix_ownership_equal nil (at q b) = false
unix_ownership_equal (at p a) nil = false
unix_ownership_equal (at p a) (at q b) =
    (a.uid ==ℤ b.uid)
    && (a.gid ==ℤ b.gid)
    && bytes_equal a.owner_name b.owner_name
    && bytes_equal a.group_name b.group_name

abbrev pub same_flag : Bool → Bool → Bool
same_flag true b = b
same_flag false b = not b

unfoldable pub windows_ownership_equal : Pointer WindowsData → Pointer WindowsData → Bool
windows_ownership_equal nil nil = true
windows_ownership_equal nil (at q b) = false
windows_ownership_equal (at p a) nil = false
windows_ownership_equal (at p a) (at q b) =
    bytes_equal a.owner_name b.owner_name && same_flag a.owner_is_group b.owner_is_group

abbrev pub xattrs_of : Pointer XattrData → List Xattr
xattrs_of nil = []
xattrs_of (at p a) = a.xattrs

-- The loop over the first list; the second is as long.
pub xattrs_loop : List Xattr → List Xattr → Bool
xattrs_loop [] b = true
xattrs_loop (x ∷ a) [] = false
xattrs_loop (x ∷ a) (y ∷ b) =
    if not (bytes_equal x.name y.name)
    then false
    else if not (bytes_equal x.value y.value)
    then false
    else xattrs_loop a b

abbrev is_nil {ℓ} : {A : Type ℓ} → List A → Bool
is_nil [] = true
is_nil (x ∷ xs) = false

pub xattrs_lists_equal : List Xattr → List Xattr → Bool
unfolding xattrs_loop
xattrs_lists_equal xs ys =
    if is_nil xs && is_nil ys
    then true
    else if is_nil xs || is_nil ys
    then false
    else if not (length xs == length ys)
    then false
    else xattrs_loop xs ys

-- No data and an empty list of attributes are alike.
unfoldable pub xattrs_equal : Pointer XattrData → Pointer XattrData → Bool
unfolding xattrs_lists_equal
xattrs_equal a b = xattrs_lists_equal (xattrs_of a) (xattrs_of b)

pub data System : Type 0 where
  on_linux on_darwin on_free_bsd on_net_bsd on_other : System

-- `Xattrs` and `SetXattrs` read and write the data of the running system alone.
unfoldable pub xattrs : System → PlatformData → List Xattr
xattrs on_linux p = xattrs_of p.linux
xattrs on_darwin p = xattrs_of p.darwin
xattrs on_free_bsd p = xattrs_of p.free_bsd
xattrs on_net_bsd p = xattrs_of p.net_bsd
xattrs on_other p = []

-- What is pointed to gets the new list; where there is nothing, new data is put at `fresh`.
abbrev pub store_xattrs : ℕ → Pointer XattrData → List Xattr → Pointer XattrData
store_xattrs fresh nil xs = at fresh (record { xattrs = xs })
store_xattrs fresh (at p a) xs = at p (record { xattrs = xs })

unfoldable pub set_xattrs : System → ℕ → PlatformData → List Xattr → PlatformData
set_xattrs on_linux fresh p xs = record p { linux = store_xattrs fresh p.linux xs }
set_xattrs on_darwin fresh p xs = record p { darwin = store_xattrs fresh p.darwin xs }
set_xattrs on_free_bsd fresh p xs = record p { free_bsd = store_xattrs fresh p.free_bsd xs }
set_xattrs on_net_bsd fresh p xs = record p { net_bsd = store_xattrs fresh p.net_bsd xs }
set_xattrs on_other fresh p xs = p

abbrev pub first_set {ℓ} : {A : Type ℓ} → Pointer A → Pointer A → Pointer A
first_set nil b = b
first_set (at p a) b = at p a

unfoldable pub merge_with : PlatformData → PlatformData → PlatformData
merge_with p other = record {
  unix = first_set p.unix other.unix;
  windows = first_set p.windows other.windows;
  linux = first_set p.linux other.linux;
  darwin = first_set p.darwin other.darwin;
  free_bsd = first_set p.free_bsd other.free_bsd;
  net_bsd = first_set p.net_bsd other.net_bsd;
}
