-- ===== src/Tests.antt =====
-- Runs of small examples, and each theorem at an example of its own.
mod Samples
mod Runs
mod Examples
mod Services
mod Workers
mod RunService
mod Limits
mod Answers
mod Routing
