-- ===== src/Redis.antt =====
-- Redis, which the program uses as a service: interfaces with the documented behaviour of the
-- commands, for a hash, a sorted set, lists and texts.
pub mod Hash
pub mod SortedSet
pub mod Lists
pub mod Strings
