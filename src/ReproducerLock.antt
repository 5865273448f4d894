-- ===== src/ReproducerLock.antt =====
-- ymir/common/reproducer_lock.py: the lock of a test path, and the tasks that wait for it. The
-- derivation of the lock's id from CVEs and clone chains is not modelled.
pub mod Lock
pub mod Promote
pub mod Exclusive
