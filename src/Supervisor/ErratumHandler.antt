-- ===== src/Supervisor/ErratumHandler.antt =====
-- ymir/supervisor/erratum_handler.py: one step in the life of an erratum.
pub mod Lists
pub mod Resolve
pub mod Advance
pub mod Run
