-- ===== src/Examples.antt =====
-- Concrete services and data stores, and the theorems of the library at concrete inputs.
mod SortedSet
mod Hash
mod Lists
mod LockSteps
mod Services
mod IssueSteps
mod ErratumSteps
mod QueueSteps
mod MergeSteps
mod ComparisonSteps
mod SweepSteps
mod DelayedSteps
mod FetcherSteps
mod VersionSteps
mod Strings
mod IssueLockSteps
mod StrategySteps
