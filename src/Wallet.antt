-- ===== src/Wallet.antt =====
-- The users' wallets: automation/operational/service/transaction.service.ts.
pub mod Ledger
pub mod Table
pub mod Credit
pub mod Normalize
pub mod Contract
pub mod Posting
pub mod Providers
pub mod Requests
pub mod Deposit
pub mod Withdraw
pub mod Remove
pub mod Settle
pub mod Orders
pub mod SettleOrder
pub mod Reachable
