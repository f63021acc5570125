-- ===== src/Examples.antt =====
-- Runs of the models at concrete inputs.
pub mod Pool
pub mod Rows
pub mod Requests
pub mod Runs
pub mod Keys
pub mod Containers
pub mod Versions
pub mod Client
pub mod Answers
