-- ===== src/Config.antt =====
-- crates/router-core/src/config: the configuration document and its validation. Raw is the document as
-- written, Checked the errors that validation collects, Secrets the references to secrets, Aliases and
-- Pools the routing sections, Providers and Kinds the provider sections, Tenants the services and the
-- virtual keys, Sections the rest, Validate the whole.
pub mod Raw
pub mod Checked
pub mod Secrets
pub mod Aliases
pub mod Cycles
pub mod Numbers
pub mod Pools
pub mod AliasNames
pub mod Groups
pub mod Chains
pub mod Presets
pub mod Kinds
pub mod Keys
pub mod Providers
pub mod Tenants
pub mod VirtualKeys
pub mod Sections
pub mod Validate
pub mod KeyRules
pub mod ProviderRules
pub mod Accepted
pub mod Catalog
pub mod Planned
pub mod VirtualKeyRules
pub mod Services
mod Examples
