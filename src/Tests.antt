-- ===== src/Tests.antt =====
-- Runs of the model at concrete inputs.
mod Fixtures
mod Executor
mod Agents
mod Runtime
mod Hosting
mod Adoption
mod Receipts
mod Policies
mod Credentials
mod Logs
mod Anchors
mod Advice
mod Serving
mod Remote
