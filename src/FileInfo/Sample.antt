-- ===== src/FileInfo/Sample.antt =====
-- `FileInfo{}`, from which the tests make their files.
use vaporcito.Base.{[], false}
use vaporcito.Base.Int.{pos}
use vaporcito.Platform.{nil}
use vaporcito.FileInfo.{FileInfo, file}

abbrev pub empty_file : FileInfo
empty_file = record {
  name = [];
  size = pos 0;
  modified_s = pos 0;
  modified_by = 0;
  version = record { counters = [] };
  sequence = pos 0;
  blocks = [];
  symlink_target = [];
  blocks_hash = [];
  encrypted = [];
  type = file;
  permissions = 0;
  modified_ns = pos 0;
  raw_block_size = pos 0;
  platform = record {
    unix = nil;
    windows = nil;
    linux = nil;
    darwin = nil;
    free_bsd = nil;
    net_bsd = nil;
  };
  local_flags = 0;
  version_hash = [];
  inode_change_ns = pos 0;
  encryption_trailer_size = pos 0;
  deleted = false;
  raw_invalid = false;
  no_permissions = false;
}
