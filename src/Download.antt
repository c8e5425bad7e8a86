-- ===== src/Download.antt =====
-- What devices tell each other of the blocks that they have downloaded: Device is the state that a
-- device keeps of another one, Sent what a device has sent.
pub mod Device
pub mod Sent
pub mod Mirror
pub mod Forget
pub mod Refinement
pub mod Total
mod Tests
