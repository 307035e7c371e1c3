-- ===== src/Config.antt =====
-- config/config.{h,cpp} and config/config_daemon.{h,cpp}.
pub mod Keys
pub mod PropertyTree
pub mod Store
pub mod Manager
pub mod Daemon
