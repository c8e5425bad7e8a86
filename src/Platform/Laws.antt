-- ===== src/Platform/Laws.antt =====
-- Equality of platform data, and merging it.
use vaporcito.Base.{
  ℕ, ◌≡◌, refl, sym, ◌↔◌, List, [], ◌∷◌, Bool, true, false, arith, length, if◌then◌else◌,
  tests_agree,
}
use vaporcito.Base.Int.{==ℤ_comm}
use vaporcito.Base.Bytes.{bytes_equal_comm, bytes_equal_sound, bytes_equal_refl}
use vaporcito.Platform.{
  UnixData, WindowsData, Xattr, XattrData, Pointer, nil, at, same_pointer, PlatformData,
  same_platform, unix_ownership_equal, windows_ownership_equal, xattrs_of, xattrs_loop,
  xattrs_lists_equal, store_xattrs, xattrs_equal, System, on_linux, on_darwin, on_free_bsd,
  on_net_bsd, xattrs, set_xattrs,
}

xattrs_loop_sound : (a b : List Xattr) → length a ≡ length b → xattrs_loop a b ≡ true → a ≡ b
unfolding xattrs_loop
xattrs_loop_sound [] [] e h = refl
xattrs_loop_sound [] (y ∷ b) e h = absurd (omega arith)
xattrs_loop_sound (x ∷ a) [] e h = ground arith
xattrs_loop_sound (x ∷ a) (y ∷ b) e h = ground (
  arith,
  bytes_equal_sound x.name y.name,
  bytes_equal_sound x.value y.value,
  xattrs_loop_sound a b (omega arith),
)

xattrs_loop_refl : (a : List Xattr) → xattrs_loop a a ≡ true
unfolding xattrs_loop
xattrs_loop_refl [] = refl
xattrs_loop_refl (x ∷ a) =
    ground (arith, bytes_equal_refl x.name, bytes_equal_refl x.value, xattrs_loop_refl a)

lists_sound : (a b : List Xattr) → xattrs_lists_equal a b ≡ true → a ≡ b
unfolding xattrs_lists_equal
lists_sound [] [] h = refl
lists_sound [] (y ∷ b) h = ground arith
lists_sound (x ∷ a) [] h = ground arith
lists_sound (x ∷ a) (y ∷ b) h =
    let e : length (x ∷ a) ≡ length (y ∷ b) = ground arith in
    xattrs_loop_sound (x ∷ a) (y ∷ b) e (ground arith)

lists_refl : (a : List Xattr) → xattrs_lists_equal a a ≡ true
unfolding xattrs_lists_equal
lists_refl [] = refl
lists_refl (x ∷ a) = ground (arith, xattrs_loop_refl (x ∷ a))

-- Extended attributes count as equal exactly when both sides hold the same list of names and
-- values in the same order, where a nil pointer holds the empty list.
pub xattrs_equal_iff :
    (a b : Pointer XattrData) → (xattrs_equal a b ≡ true) ↔ (xattrs_of a ≡ xattrs_of b)
unfolding xattrs_equal
xattrs_equal_iff a b =
    (lists_sound (xattrs_of a) (xattrs_of b), λ e. rw e (lists_refl (xattrs_of b)))

pub xattrs_equal_comm : (a b : Pointer XattrData) → xattrs_equal a b ≡ xattrs_equal b a
xattrs_equal_comm a b =
    tests_agree (xattrs_equal a b) (xattrs_equal b a)
      (λ h. (xattrs_equal_iff b a).1 (sym ((xattrs_equal_iff a b).0 h)))
      (λ h. (xattrs_equal_iff a b).1 (sym ((xattrs_equal_iff b a).0 h)))

pub unix_ownership_equal_comm :
    (a b : Pointer UnixData) → unix_ownership_equal a b ≡ unix_ownership_equal b a
unfolding unix_ownership_equal
unix_ownership_equal_comm nil nil = refl
unix_ownership_equal_comm nil (at q b) = refl
unix_ownership_equal_comm (at p a) nil = refl
unix_ownership_equal_comm (at p a) (at q b) = rw (
  ==ℤ_comm a.uid b.uid,
  ==ℤ_comm a.gid b.gid,
  bytes_equal_comm a.owner_name b.owner_name,
  bytes_equal_comm a.group_name b.group_name,
)

pub windows_ownership_equal_comm :
    (a b : Pointer WindowsData) → windows_ownership_equal a b ≡ windows_ownership_equal b a
unfolding windows_ownership_equal
windows_ownership_equal_comm nil nil = refl
windows_ownership_equal_comm nil (at q b) = refl
windows_ownership_equal_comm (at p a) nil = refl
windows_ownership_equal_comm (at p a) (at q b) =
    ground (arith, bytes_equal_comm a.owner_name b.owner_name)

same_pointer_comm {ℓ} : {A : Type ℓ} (a b : Pointer A) → same_pointer a b ≡ same_pointer b a
same_pointer_comm nil nil = refl
same_pointer_comm nil (at q b) = refl
same_pointer_comm (at p a) nil = refl
same_pointer_comm (at p a) (at q b) = ground arith

pub same_platform_comm : (a b : PlatformData) → same_platform a b ≡ same_platform b a
same_platform_comm a b = rw (
  same_pointer_comm a.unix b.unix,
  same_pointer_comm a.windows b.windows,
  same_pointer_comm a.linux b.linux,
  same_pointer_comm a.darwin b.darwin,
  same_pointer_comm a.free_bsd b.free_bsd,
  same_pointer_comm a.net_bsd b.net_bsd,
)

-- Which attributes `SetXattrs` replaces: those of the running system, if it is a known one.
abbrev pub writes : System → System → Bool
writes on_linux on_linux = true
writes on_darwin on_darwin = true
writes on_free_bsd on_free_bsd = true
writes on_net_bsd on_net_bsd = true
writes _ _ = false

xattrs_of-set :
    (xs : List Xattr) (fresh : ℕ) (q : Pointer XattrData) → xattrs_of (store_xattrs fresh q xs) ≡ xs
xattrs_of-set xs fresh nil = refl
xattrs_of-set xs fresh (at a d) = refl

-- After `SetXattrs` on one of the four known systems, `Xattrs` on that system gives the new list,
-- whether there was data before or not, and gives on every other system what it gave before.
pub xattrs-set_xattrs :
    (os other : System) (fresh : ℕ) (p : PlatformData) (xs : List Xattr)
    → xattrs other (set_xattrs os fresh p xs) ≡ (if writes os other then xs else xattrs other p)
unfolding xattrs set_xattrs
xattrs-set_xattrs os other fresh p xs = ground (
  arith,
  xattrs_of-set xs fresh p.linux,
  xattrs_of-set xs fresh p.darwin,
  xattrs_of-set xs fresh p.free_bsd,
  xattrs_of-set xs fresh p.net_bsd,
)
