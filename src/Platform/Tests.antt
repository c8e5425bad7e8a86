-- ===== src/Platform/Tests.antt =====
-- Platform data at concrete inputs.
use vaporcito.Base.{[], ◌∷◌}
use vaporcito.Base.Bytes.{codes}
use vaporcito.Platform.{Xattr, XattrData, Pointer, nil, at, PlatformData}

abbrev comment : Xattr
comment = record { name = codes "user.comment"; value = 7 ∷ 8 ∷ [] }

abbrev commented : Pointer XattrData
commented = at 3 (record { xattrs = comment ∷ [] })

abbrev commented_copy : Pointer XattrData
commented_copy = at 4 (record { xattrs = comment ∷ [] })

abbrev bare : PlatformData
bare = record {
  unix = nil;
  windows = nil;
  linux = nil;
  darwin = nil;
  free_bsd = nil;
  net_bsd = nil;
}
