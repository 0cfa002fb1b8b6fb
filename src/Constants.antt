-- ===== src/Constants.antt =====
-- Constants.h: the enumerations whose values are texts (`StringEnum`), and reading them.
pub mod Messages
pub mod Tags
pub mod Settings
pub mod Market
pub mod Reading
pub mod Distinct
mod Tests
