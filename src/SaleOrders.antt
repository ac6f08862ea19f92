-- ===== src/SaleOrders.antt =====
-- The service of sale orders: automation/operational/service/sale-order.service.ts.
pub mod Ends
pub mod Split
pub mod Settle
pub mod Delete
pub mod Penalty
