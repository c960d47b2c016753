-- ===== src/Config.antt =====
-- pkg/config: the configuration types, their validation, the checks that other packages call, and
-- the values that are set from the command line.
pub mod Types
pub mod Validate
pub mod Merge
