-- ===== src/Tests.antt =====
-- The theorems at concrete inputs.
pub mod Concrete
pub mod Fvm
pub mod Errors
pub mod Mock
pub mod Addresses
pub mod Collections
pub mod Words
pub mod Logs
pub mod LogMaps
pub mod World
pub mod Actor
pub mod Lives
pub mod Overflows
pub mod Reloads
pub mod Trials
pub mod Agreeing
pub mod Contents
pub mod Maps
pub mod Arrays
pub mod Entries
pub mod KeySets
pub mod Loops
