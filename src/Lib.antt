-- ===== src/Lib.antt =====
-- Vaporcito is a tool that keeps folders in sync between devices. This library models the parts of
-- its back end that decide which version of a file wins and in which order and with how much in
-- flight files are fetched.
--
-- How the parts work together: every device has a version vector per file; local changes raise
-- the device's own counter. For each file the index database keeps a list of the versions that the
-- devices announce, newest first, in which devices that have the same version share an entry. The
-- list compares versions by their vectors, and settles concurrent ones by the files' metadata. The
-- puller queues the files that the global versions ask for, and semaphores bound what it has in
-- flight. For each file that is being fetched a puller state counts the blocks that are copied and
-- pulled; what it has is announced to the other devices, which keep track of it. File system events are
-- gathered in a tree of limited size until the paths that it covers are scanned. As the devices'
-- files come and go, a transaction brings the version list, the counts and the needs up to date. Devices are named
-- by ids, which users read and type as text.
--
-- Which file is about which code:
-- Vector models Vector and Counter of back/lib/protocol/vector.go (updateWithNow, Merge, Copy, Counter,
--   IsEmpty, DropOthers, Compare, Equal, LesserEqual, GreaterEqual, Concurrent). Vector/Rounds is
--   about the rounds of Compare, Vector/Order about its verdicts, Vector/Merge and Vector/Update
--   about the operations that write.
-- Platform models the ownership, extended attributes and their comparison of
--   back/lib/protocol/bep_extensions.go and the structs of back/lib/protocol/bep.pb.go.
-- FileInfo models FileInfo and its methods, isEquivalent, ModTimeEqual, PermsEqual, BlocksEqual and
--   WinsConflict, of back/lib/protocol/bep_extensions.go, with the local flags of
--   back/lib/protocol/protocol.go. FileInfo/Conflict, /Equivalence, /Times and /Flags hold the proofs.
-- VersionList models VersionList and FileVersion of back/lib/db/structs.go (pop, Get, GetGlobal, update,
--   insert, checkInsertAt, shouldInsertBefore, findDevice, findGlobal). VersionList/Count counts
--   devices, /Pop, /Loss, /Insert, /Update, /Global, /Last and /Standing hold the proofs.
-- JobQueue models jobQueue of back/lib/model/queue.go (Push, Pop, BringToFront, Done, Jobs, Shuffle, the
--   sorts). JobQueue/Paging, /Order and /Sorting hold the proofs.
-- Semaphore models Semaphore and MultiSemaphore of back/lib/semaphore/semaphore.go. Semaphore/Invariant
--   and Semaphore/Multi hold the proofs.
-- Meta models Counts and metadataTracker of back/lib/db/meta.go and back/lib/db/structs.go: countsPtr,
--   adding and removing files and needed files, the sequence numbers, the resets and the lookups.
--   Meta/Bucket holds the counts of one bucket and Meta/Buckets the proofs about them, Meta/Keys about the index map, Meta/Tracker about
--   adding and removing, Meta/Removal about the numbers that a removal leaves, Meta/Reach about sequences of operations.
-- Transaction models what an update or a removal of a device's file does in
--   back/lib/db/transactions.go: Transaction/State has the entry and Need, Transaction/Update
--   updateGlobal, Transaction/Remove removeFromGlobal. Transaction/Closure is about what their changes
--   keep, /Lists about the list and the tracker, /Globals about the counts of the global version, /Steps about sequences, /Ends about errors, /NeedKey
--   and /LocalNeed about the key of the local need.
-- Upgrade models CompareVersions and versionParts of back/lib/upgrade/upgrade_common.go, with what
--   they use of strings and strconv. Upgrade/Compare holds the proofs.
-- Puller models sharedPullerState of back/lib/model/sharedpullerstate.go: its counters, Progress and
--   finalClose. Puller/Progress and Puller/History hold the proofs.
-- Download models what devices announce of unfinished files. Download/Device is the receiving side,
--   back/lib/model/devicedownloadstate.go; Download/Sent is the announcing side,
--   back/lib/model/sentdownloadstate.go, over the states of Puller. Download/Mirror, /Forget and
--   /Refinement show that the first follows the second, Download/Total that announcing does not panic.
-- Pulling models back/lib/model/blockpullreorderer.go: the chunks and the three pulling orders.
--   Pulling/Chunks, /Indexes, /Devices and /Reorder hold the proofs.
-- Activity models deviceActivity of back/lib/model/deviceactivity.go. Activity/LeastBusy is about the
--   choice of a device, Activity/Requests about sequences of requests.
-- Watch models back/lib/watchaggregator/aggregator.go. Watch/Tree is the tree of events with its times,
--   types and counts, Watch/Track takes an event in (aggregateEvent, newEvent), Watch/Timer is about
--   time (isOld, popOldEventsTo, actOnTimer, notify, the configuration). Watch/Covers, /Depth, /Fits,
--   /Bounds, /Aggregate and /Steps hold the proofs on taking events in, /Popping and /Batches those on
--   scheduling them.
-- Versioner models toRemove of back/lib/versioner/staggered.go and back/lib/versioner/simple.go.
--   Versioner/Thinning, /Eldest and /Keeping hold the proofs.
-- DeviceId models DeviceID of back/lib/protocol/deviceid.go and the check digits of
--   back/lib/protocol/luhn.go; DeviceId/Base32 is the encoding of the standard library. DeviceId/Bits,
--   /Luhn, /Chunks and /RoundTrip hold the proofs on writing and reading, /Detection those on errors, /Short those on short ids.
-- Base holds the names that all of them use, integers, byte lists,
--   maps and slices. Each folder's Tests module
--   holds runs on concrete inputs.
--
-- How the code is read:
-- - A uint64 counter is a natural number, and `+ 1` wraps at 2^64. A short device id is a natural
--   number. A time is a number of nanoseconds, an integer; the difference of two saturates at the
--   ends of int64, as time.Time.Sub does, and its negation wraps.
-- - A slice is a list. Where a loop reads and writes at one index alone, the index is the suffix that
--   starts there. Sharing of backing arrays is not modelled. Strings and device ids are lists of
--   bytes, and an index of -1 is none.
-- - The loops are recursive on the lists that they read. The loop over flag bits alone has a number of
--   rounds, 32, which is every bit of a uint32: after them no bit is left to find.
-- - The tracker's index map is a list of keys, the latest first, and a pointer to counts is their place.
--   Flags passed to countsPtr have at most one bit; the panic on others and the failure events are left
--   out.
-- - An error of a transaction drops what it has written, but the tracker is shared, so that it keeps
--   what was done to it before the error. A file is given whole where the code loads it without its
--   blocks. Writes to the store do not fail.
-- - A Go map is an association list with one entry per key that was inserted; a loop over a map visits
--   the entries in the order of the list.
-- - `chunk` has as many rounds as blocks, which is enough since a chunk has at least one.
-- - aggregateEvent calls itself with a directory above its path, so that it has as many calls as the
--   path has segments, and one more. A path is the list of its segments. A walk that ends at a full
--   directory leaves the tree alone: a directory that it makes is empty, and full only if the limit is
--   zero, which it is not in the code.
-- - The loops that put check digits in and take them out have four rounds, as in the code.
-- - The mutex of the queue and of a semaphore makes each method one step. The states that a waiting
--   Take wakes up to are an argument of it.
-- - What the code calls outside these files is an argument: the database's answer for a device's
--   file, the sorting routine of the standard library, the permutation of a shuffle, the clock, and
--   whether the build is for Windows.
-- - The page and the size of a page of the job queue are int, whose product wraps at 2^64; a slice out
--   of range is a panic. Sizes given to a semaphore are not negative and stay below the range of int.
-- - A user of a semaphore may give more than is held; the capacity then bounds what is available, and
--   nothing is held afterwards.
--
-- Not modelled: the encodings that are generated from the protocol definitions, logging and printing,
-- locking below the level of a method, the rest of the index database (the store,
-- the keys, iteration), the scanner, the puller's file operations, the hash
-- that makes an id of a certificate, connections, discovery, configuration and
-- the front end.
pub mod Base
pub mod Vector
pub mod Platform
pub mod FileInfo
pub mod VersionList
pub mod JobQueue
pub mod Semaphore
pub mod Upgrade
pub mod Meta
pub mod Puller
pub mod Pulling
pub mod Versioner
pub mod Activity
pub mod Download
pub mod Watch
pub mod Transaction
pub mod DeviceId
