-- ===== src/Config.antt =====
-- main/nvs_config.c: the configuration in the non-volatile store, its defaults, and its way to the
-- web pages and back as JSON.
pub mod Items
pub mod Read
pub mod Store
pub mod Export
pub mod Import
pub mod Sound
pub mod Defaults
pub mod Update
pub mod Roundtrip
pub mod Secrets
mod Tests
