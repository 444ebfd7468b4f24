-- ===== src/Examples.antt =====
-- The theorems at concrete inputs: the digests of two small files, a store, an index and a registry
-- that hold them, and documents of runs.
pub mod Data
pub mod Addresses
pub mod Digests
pub mod Stores
pub mod Registries
pub mod Runs
pub mod Documents
pub mod Parities
pub mod Binds
pub mod Served
pub mod Flattening
pub mod Equivalences
pub mod Trees
pub mod Results
pub mod Readers
