-- ===== src/Registry.antt =====
-- register.h, general_factory.h, allocator.h, allocator.cc and allocator_registry.h: what is found by
-- name.
pub mod Register
pub mod Factory
pub mod Allocator
pub mod Calls
pub mod Found
pub mod Owned
pub mod Names
pub mod Made
pub mod Memory
mod Tests
