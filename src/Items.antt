-- ===== src/Items.antt =====
-- The items that are sold, automation/operational/service: credits, and the discount of a package.
pub mod Requests
pub mod Prices
pub mod Credit
pub mod Package
