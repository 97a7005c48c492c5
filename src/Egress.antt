-- ===== src/Egress.antt =====
-- The egress vocabulary of src/msks/msks/spec/egress.py.
pub mod Address
pub mod Grammar
pub mod Policy
pub mod Lifecycle
