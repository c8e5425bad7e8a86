-- ===== src/FileInfo/Conflict.antt =====
-- `WinsConflict` picks one winner.
use vaporcito.Base.{◌≡◌, true, not, arith}
use vaporcito.Vector.{concurrent}
use vaporcito.Vector.Order.{compare_swapped}
use vaporcito.FileInfo.{FileInfo, wins_conflict}

-- Of two files with concurrent versions exactly one wins.
pub wins_conflict_total :
    (f other : FileInfo)
    → concurrent f.version other.version ≡ true
    → wins_conflict f other ≡ not (wins_conflict other f)
unfolding wins_conflict concurrent
wins_conflict_total f other h = ground (arith, compare_swapped f.version other.version)
