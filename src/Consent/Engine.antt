-- ===== src/Consent/Engine.antt =====
-- `ConsentEngine` of src/msks/msks/consent/coordinator.py.
pub mod State
pub mod Frames
pub mod Gate
pub mod Settle
pub mod Revoke
pub mod Closed
pub mod Held
pub mod Adds
pub mod History
pub mod Committed
pub mod Once
pub mod Teardown
