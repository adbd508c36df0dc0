-- ===== src/Config.antt =====
-- src/config: the kit's configuration, from a JSON document and to one.
pub mod Json
pub mod Members
pub mod Arrays
pub mod Examples
pub mod Mappings
pub mod Names
pub mod Settings
pub mod Connectors
pub mod Muxes
pub mod Kit
pub mod Roles
mod Tests
