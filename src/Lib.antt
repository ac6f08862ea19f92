-- ===== src/Lib.antt =====
-- The wallets of the platform: what a client's money does in automation/operational.
--
-- Paths are from the repository's root. A client has a credit (`users.credit`), and a table of
-- transactions records each deposit, withdrawal and settlement with the balance that it left.
-- src/automation/operational/service/transaction.service.ts keeps the two together: it moves the
-- credit by one conditional update, saves the rows, and computes the balances of later rows again
-- when a row is dated back or removed. Payments out of a charging service (a sold service with a
-- credit of its own) and gifts for large deposits come from two smaller services.
--
-- The parts and their files:
--   Prelude          tests on native numbers, conditionals, case lemmas, and the whole numbers of
--                    the amounts with their ruleset.
--   Entities         the entities and enumerations, field by field, as far as the modelled code
--                    reads or writes them (src/automation/operational/entities,
--                    src/automation/base/entities, src/base/entities, src/treasury/entities).
--   Clock            the server's clock and calendar.
--   Store            the database as a record of tables, a call as a function of the database into
--                    a result or an exception and the database it leaves, `atomically` for
--                    `datasource.manager.transaction`, and `manager.save`.
--   Amounts          the getters of SaleItem and SaleOrder.
--   Charging         src/automation/operational/service/charging-service.service.ts: `getCharging`
--                    and `getChargingForArchived`.
--   Shifts           src/base/service/shift-work.service.ts: `findBy`.
--   Gift             src/automation/operational/service/wallet-gift.service.ts: `get`.
--   Wallet           transaction.service.ts:
--     Ledger, Table  the specification: the effect of a transaction, the sum of a user's rows, the
--                    drift between that sum and the stored credit; the order of the table.
--     Contract       contracts of calls, and the one of the wallet: keep the drift, or change
--                    nothing.
--     Posting        an update of a credit and the row that records it.
--     Credit         `doTransaction`.
--     Normalize      `normalizeTransactionAfterDate` and
--                    `normalizeChargeRemainCreditTransactionAfterDate`.
--     Providers      `chargeServiceTransaction`, `bankTransaction`, `cashTransaction`,
--                    `chequeTransaction`, `giftTransaction`.
--     Requests       the fields of a request and their checks, `processOperation`.
--     Deposit        `deposit`, `doDeposit`.
--     Withdraw       `withdraw`, `doWithdraw`, `transfer`.
--     Remove         `removeTransaction`, `doRemoveTransaction`.
--     Settle         `settleInstallmentLoan`.
--     Orders         `deleteAllByOrderId`.
--     SettleOrder    `settleSaleOrder`, `discountTransaction`; `Payments` is about the payments that
--                    it makes, `Edits` about those that an edit removes.
--     Reachable      requests one after the other, as a step relation.
--   Discounts        src/crm/service/discount.service.ts: `getDiscountAmount`.
--   Loans            src/automation/operational/service/loan.service.ts: a loan is deposited into the
--                    wallet, and its instalments are settled by it.
--   Receptions       src/automation/operational/service/reception.service.ts: leaving a reception,
--                    which settles what is left to pay, and entering it again.
--   Contractors      src/automation/base/service/contractor.service.ts: what contractors and partners
--                    earn from an item.
--   CashBack         src/automation/operational/service/cash-back.service.ts: which items of an order
--                    earn a cash back, and the orders that are submitted for it.
--   Lockers          src/automation/base/service/locker.service.ts: the lockers of a reception,
--                    assigned by hand, by priority or by a formula.
--   SaleOrders       src/automation/operational/service/sale-order.service.ts:
--     Split, Settle  `settleMultipleSaleOrder`, `settle`.
--     Delete         `delete`.
--     Penalty        `penaltyApply` up to its submission, `findUnFairSaleItems`,
--                    `calculateUnFairAmount`.
--   Items            the items that are sold:
--     Requests       the request, src/automation/operational/dto/sale-order.dto.ts.
--     Prices         the choice of a price; `findPriceById` and `findPriceByDuration` of
--                    src/automation/base/service/product.service.ts.
--     Credit         `upsert` of src/automation/operational/service/credit-product-provider.ts;
--                    `Repricing` and `Again` are about a request that is sent once more.
--     Package        `calculateDiscountItems` of
--                    src/automation/operational/service/package-item.service.ts.
--   Samples          a small database, the theorems on it, and runs.
--
-- How the code is modelled:
--   - An id is a natural number and 0 stands for a missing one. Tables with their own operations are
--     lists (transactions, orders, gifts, instalments), the others are functions from ids. The table of
--     transactions is kept from the newest id to the oldest; `next_id` is its sequence. A row that
--     was removed softly stays in the table and is not found.
--   - Amounts are whole numbers, as the credit of a user is. A gift by percentage is not rounded by the
--     code, so one whose value has a fraction leaves the model: the call ends with
--     `fractional_gift`, which is no exception of the code. A tax rate is in hundredths of a percent,
--     and its rounding is that of `Math.round` on exact numbers, not on doubles.
--   - `atomically` takes back what was written when a call throws. The jobs of the scheduler are kept
--     beside the tables, and only `delete` changes them, outside of its transaction. Requests run one after the
--     other; a read with `cache: true` returns the row as it is.
--   - The dates of a request come parsed, since the parser belongs to a library; the zone is an
--     offset. Of the rows that a query may return, the first of the table is taken.
--   - Loops are structural recursion over the list they run through, and only `delete` needs fuel. The two
--     loops of the formula of the lockers count down the rounds that their own conditions allow: the
--     greatest number of a locker, and the number of free lockers.
--   - A formula is what `eval` makes of it at its two counters: a number, another value, or an
--     exception. A row that is loaded without a relation has its id, and a property of the relation
--     is a TypeError. A payment names its user, and codes of discounts are numbers.
--   - Titles, descriptions, `meta`, the audit columns, the events that follow a request and
--     the log are left out: nothing that is modelled reads them.
--   - The price of a cash back is in hundredths; its days are counted from a fixed day, and an item
--     carries its amount and its duration, while its price id may be undefined.
--   - An order that is removed leaves its list. `delete` calls itself for the orders of a cash back, so
--     it has fuel for the depth of cash backs of cash backs; with no fuel it throws `too_deep`. The
--     theorems on it hold for every fuel but 0: an order without cash backs makes no such call, and one
--     with a cash back that was used is refused before it.
--   - The time that each person has over the fair one is a fraction; it is kept exactly, over the
--     number of the persons.
--   - The partial discounts of a package are fractions over its price after its own discount, and are
--     rounded as exact numbers.
--   - A date of an item is an instant in milliseconds and 0 where it is missing: null for an item that
--     was loaded, undefined for a new one, which `moment` reads differently. The shops of a user may be
--     undefined or empty; an empty list makes a query that fails. Durations are natural
--     numbers of days, and a day is 24 hours.
--
-- Not modelled: the submission of sale orders and the items that it makes, but for credits and
-- the discount of a package: products, services, the parts of a package and receptions, with the
-- rewriting of the items when an order changes. A cash back
-- and the penalty hand their orders and items to it. Reserves, reports and exports, controllers, the
-- lists for the front-end, what is locked and the VIP lockers, authentication, accounting and the other
-- modules around the wallet are left out too; the manifest lists them.
pub mod Amounts
pub mod CashBack
pub mod Charging
pub mod Clock
pub mod Contractors
pub mod Discounts
pub mod Entities
pub mod Gift
pub mod Items
pub mod Loans
pub mod Lockers
pub mod Prelude
pub mod Receptions
pub mod SaleOrders
pub mod Samples
pub mod Shifts
pub mod Store
pub mod Wallet
