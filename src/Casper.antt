-- ===== src/Casper.antt =====
-- Package casper: the client that turns the answers of a Casper node into Rosetta data.
pub mod Types
pub mod Sdk
pub mod Operations
pub mod Purse
pub mod Transaction
pub mod Block
pub mod Ledger
pub mod Balance
pub mod Serving
pub mod Calls
