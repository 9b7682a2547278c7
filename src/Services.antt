-- ===== src/Services.antt =====
-- Package services: the Rosetta endpoints. Errors, the client interface, and the endpoints that use
-- the client; the endpoints of the construction of transactions stand in a module of their own.
pub mod Errors
pub mod Client
pub mod Endpoints
pub mod Construction
pub mod Router
pub mod JsonMap
