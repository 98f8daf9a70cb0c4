-- ===== src/Tests.antt =====
-- Concrete inputs: two agents, a plan of two sources, and rows.
mod Samples
mod Agents
mod Plans
mod Queries
mod References
mod Requests
mod Plannings
mod Results
