-- ===== src/Examples.antt =====
-- Each theorem at an input that meets its hypotheses, and tests of the definitions, by component.
mod Amounts
mod Accounts
mod Orders
mod Claims
mod Audits
mod Frames
mod Service
mod Sponsor
mod Work
mod Receipts
mod Settings
mod Paid
mod Inspection
