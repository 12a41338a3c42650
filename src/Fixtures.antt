-- ===== src/Fixtures.antt =====
-- A concrete instance, library, API server and order of versions, for examples and tests.
pub mod Instances
pub mod Requests
pub mod Admissible
pub mod Conditions
pub mod Server
pub mod Clusters
pub mod Keys
pub mod Versions
