-- ===== src/Controller.antt =====
-- src/controller.{h,cpp}, class Controller, which ties the configuration, the database, the IEX client
-- and the gRPC server together.
pub mod Updates
pub mod Shutdown
pub mod Life
pub mod Crash
pub mod Requests
