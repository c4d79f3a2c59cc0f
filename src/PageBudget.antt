-- ===== src/PageBudget.antt =====
-- pkg/pagebudget: what a page weighs, and the budget that page parses draw from.
pub mod Attrs
pub mod Tags
pub mod Progress
pub mod Budget
pub mod Ledger
