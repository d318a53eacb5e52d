-- ===== src/BTree.antt =====
-- `BTreeMap` and `BTreeSet` of Rust's standard library, as lists with ascending keys.
pub mod Key
pub mod Map
pub mod Set
