-- ===== src/Tests.antt =====
-- Concrete runs of the model and the theorems at concrete inputs, by part.
pub mod EgressRuns
pub mod MountRuns
pub mod SecretRuns
pub mod WebRuns
pub mod SwapRuns
pub mod ShareRuns
pub mod NetRuns
pub mod DnsRuns
pub mod DhcpRuns
pub mod ConsentRuns
pub mod EventRuns
