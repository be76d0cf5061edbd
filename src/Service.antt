-- ===== src/Service.antt =====
-- The run service (agentflow/service.py: `RunService`), with one store for all tenants. The checks
-- of the quota and of the approvers are in Tenants.antt.
pub mod State
pub mod Create
pub mod Commands
pub mod Quota
pub mod Effects
pub mod Stops
pub mod Resumes
pub mod Delivery
