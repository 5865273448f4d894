-- ===== src/MergeQueue.antt =====
-- ymir/common/merge_queue.py: the queue of merge consolidation jobs, kept in a hash of Redis and
-- changed by Lua scripts, each of which runs as one step.
pub mod Job
pub mod Scripts
pub mod Queue
pub mod Recovery
pub mod Submit
pub mod Fields
pub mod Pick
pub mod Owner
pub mod Requeue
