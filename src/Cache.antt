-- ===== src/Cache.antt =====
-- kernel/cache.h and kernel/cache.c: the response cache. `Hash` and `Sig` are its hash functions,
-- `Slots` the table in RAM, `Disk` the overlay /cache.bin, `Api` the calls.
pub mod Hash
pub mod Sig
pub mod Slots
pub mod Disk
pub mod Api
