-- ===== src/Db.antt =====
-- db/: the tables of the daemon's database.
pub mod Ascending
pub mod Fields
pub mod Sqlite
pub mod Statements
pub mod Companies
pub mod Prices
pub mod Market
pub mod Calls
pub mod Version
pub mod Manager
