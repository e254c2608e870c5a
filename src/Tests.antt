-- ===== src/Tests.antt =====
-- Small servers, a database, sample resources, and runs of the program on them.
pub mod Server
pub mod Databases
pub mod Clusters
pub mod Heaps
pub mod Memories
pub mod Controllers
pub mod Cleanups
pub mod Builders
pub mod StatefulSets
pub mod Gtids
pub mod Settings
pub mod Starts
pub mod Scopes
pub mod Storing
pub mod Promises
pub mod Returns
pub mod Refusing
pub mod Retries
