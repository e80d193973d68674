-- ===== src/Dict.antt =====
-- The hash dictionary of lib/dict.c.
pub mod Defs
pub mod Tables
pub mod Rehash
pub mod Operations
pub mod Power
pub mod Chains
pub mod Model
pub mod Growth
pub mod Index
pub mod Get
pub mod Add
pub mod Cells
pub mod Removal
pub mod Remains
pub mod Tidy
pub mod Unlink
pub mod Smaller
pub mod Del
pub mod AddDel
pub mod Session
pub mod Dangling
