-- ===== src/Consent.antt =====
-- The consent side of egress: the audit rows (src/msks/msks/model/egress_consent.py), the session
-- memory, the engine and the deciders (src/msks/msks/consent/).
pub mod Row
pub mod Rows
pub mod Moves
pub mod Session
pub mod Deciders
pub mod Verdict
pub mod Engine
