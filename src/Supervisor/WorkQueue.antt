-- ===== src/Supervisor/WorkQueue.antt =====
-- ymir/supervisor/work_queue.py: the queue of work items, kept in a sorted set of Redis.
pub mod Item
pub mod Queue
