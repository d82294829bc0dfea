-- ===== src/Contracts.antt =====
-- src/contracts: the values, the checks of validation.py and the contracts of models.py.
pub mod Value
pub mod Models
pub mod Text
pub mod Url
pub mod Validation
pub mod Checks
pub mod Sensitive
pub mod Accepted
pub mod Payload
pub mod Readers
pub mod Listings
pub mod Totals
pub mod Dispatch
