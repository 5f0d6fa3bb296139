-- ===== src/Loadgen.antt =====
-- The load generator (load_generator): the requests of a simulated client, its session, and the
-- statistics of a run.
pub mod Scenario
pub mod Metrics
pub mod ClientSession
pub mod Campaign
pub mod Main
pub mod Round
