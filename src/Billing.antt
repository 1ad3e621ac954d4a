-- ===== src/Billing.antt =====
-- internal/billing: exact prices, budgets and reservations.
pub mod Types
pub mod Wide
pub mod Charge
pub mod Admit
pub mod Ledger
pub mod Literal
pub mod Reserve
