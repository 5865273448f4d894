-- ===== src/IssueFetcher.antt =====
-- ymir/jira_issue_fetcher/jira_issue_fetcher.py: the service that finds issues in Jira and files
-- them for triage, or for the consolidation of their merge requests.
pub mod Types
pub mod Author
pub mod Existing
pub mod Mark
pub mod Push
pub mod Consolidate
pub mod Run
