-- ===== src/Hash.antt =====
-- hash_murmur3.h, hash_murmur3.cc: the murmur3 hashers.
pub mod Words
pub mod Mm32
pub mod Mm128
mod Tests
