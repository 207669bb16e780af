-- ===== src/CatalogGen.antt =====
-- frontend/src/lib/catalogGen.ts: the catalog that is made of the schema of Vector. Outcome and Json
-- have the values that the code computes with; Texts, Nodes, Merging, Fields, Emit, Walk, Unions and
-- Build its functions, from the texts up to `schema_to_catalog`; the other modules have the proofs.
pub mod Outcome
pub mod Json
pub mod Texts
pub mod Nodes
pub mod Merging
pub mod Fields
pub mod Emit
pub mod Walk
pub mod Unions
pub mod Build
pub mod Ensures
pub mod Calm
pub mod Nested
pub mod Forms
pub mod Emitted
pub mod Made
pub mod Sorted
pub mod Sound
pub mod Reached
mod Shallow
pub mod Restored
mod Tests
