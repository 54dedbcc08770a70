-- ===== src/Gateway.antt =====
-- `GatewayRepository` of src/repository.ts, by the tables that its methods change. A method that
-- runs one transaction is one function on the database; `now` is NOW() or Date.now() at the call.
pub mod Receipts
pub mod Bindings
pub mod Requests
pub mod Claims
pub mod Leases
pub mod Audits
pub mod Quota
pub mod Accounting
pub mod Exclusion
