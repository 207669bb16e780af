-- ===== src/ConfigForm.antt =====
-- frontend/src/components/catalog/ComponentConfigForm.tsx: the state of the form, what its inputs and
-- its buttons do, and what a save sends. `values` holds texts. The lists of stored certificates and the
-- copy to the clipboard do not matter to a save.
pub mod State
pub mod Inputs
pub mod Saving
pub mod Managed
pub mod Blocked
pub mod Resaved
mod Tests
