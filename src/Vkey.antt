-- ===== src/Vkey.antt =====
-- crates/router-core/src/vkey.rs: virtual keys. Spend is the packed counter of a budget period, Period
-- the calendar, Expiry the timestamps, Token the shape of a presented key, Runtime one key's checks, Table the lookup.
pub mod Spend
pub mod Period
pub mod Token
pub mod Expiry
pub mod Runtime
pub mod Table
pub mod Access
pub mod Rebuild
pub mod Limits
mod Examples
