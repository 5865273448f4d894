-- ===== src/Supervisor.antt =====
-- ymir/supervisor: the steps of an issue and of an erratum, and the queue that drives them.
pub mod Types
pub mod Requests
pub mod Services
pub mod Jira
pub mod Errata
pub mod Baseline
pub mod CompareXunit
pub mod WorkQueue
pub mod Main
pub mod Collect
pub mod IssueHandler
pub mod ErratumHandler
