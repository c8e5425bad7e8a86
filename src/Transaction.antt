-- ===== src/Transaction.antt =====
-- The global state of a file in the index database, as the devices' files come and go:
-- back/lib/db/transactions.go, over the version lists and the counts.
pub mod State
pub mod Update
pub mod Remove
pub mod Closure
pub mod Lists
pub mod Globals
pub mod Steps
pub mod Ends
pub mod NeedKey
pub mod LocalNeed
mod Tests
