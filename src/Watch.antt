-- ===== src/Watch.antt =====
-- File system events until a scan is scheduled: back/lib/watchaggregator/aggregator.go.
pub mod Tree
pub mod Track
pub mod Timer
pub mod Covers
pub mod Depth
pub mod Fits
pub mod Bounds
pub mod Aggregate
pub mod Popping
pub mod Batches
pub mod Steps
mod Tests
