-- ===== src/Assurance.antt =====
-- sdk-python/intermesh/assurance: risk levels, the policy engine, human approvals.
pub mod Risk
pub mod Policy
pub mod Approval
pub mod Evidence
pub mod Proxy
