-- ===== src/Supervisor/IssueHandler.antt =====
-- ymir/supervisor/issue_handler.py and work_item_handler.py: one step in the life of an issue.
-- `self.issue` is an argument, and comes back where a method changes its labels.
pub mod Resolve
pub mod Merged
pub mod Run
