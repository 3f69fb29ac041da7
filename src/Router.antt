-- ===== src/Router.antt =====
-- crates/router-core/src/router.rs: the routing table. Key is one credential and its ceilings, Floats
-- the arithmetic on shares that the source takes from f64, Pick the choice among candidates, Pool a
-- provider's keys and the admission of one attempt; the other modules prove what they promise.
pub mod Floats
pub mod Key
pub mod Pick
pub mod Pool
pub mod Alike
pub mod Members
pub mod Selection
pub mod Ownership
pub mod Progress
pub mod Balance
pub mod Holding
pub mod Table
pub mod Plan
pub mod Sound
pub mod Ceilings
pub mod Rebuild
pub mod Reload
mod Examples
mod ReloadExamples
