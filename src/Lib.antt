-- ===== src/Lib.antt =====
-- Vedhic Foods: a verification library for the commerce core of the backend.
--
-- The program is a shop: a TypeScript service on PostgreSQL (backend/src), an administrator's console
-- (admin) and a storefront (frontend). The library models the part of the backend where stock, money
-- and authority change hands. Its parts and the files that model them:
--
--   Inventory  backend/src/services/inventory.service.ts and backend/src/types/inventory.types.ts.
--     State: the tables of database/prisma/schema.prisma that the service reads and writes.
--     Rows: what each operation does to one locked row (`computeStatus`, the loop bodies of
--     `reserveStock`, `releaseReservation`, `confirmDeduction` and `restockOrder`). Service: these four
--     methods whole, with `getOrCreateInventory`. Admin: `adjustStock`, `updateInventorySettings` and
--     `formatInventory`. The other modules prove: Moves and Loops lift a fact about one row to all
--     rows and all lines of an order; Conservation, RoundTrip, Restock, Availability and Settling are
--     about one or two calls; Consistency, Upkeep and History about any sequence of calls;
--     Interleaving about concurrent transactions on one row.
--     Ledger: the abstract specification, three numbers for a product; Refinement: any sequence of
--     calls implements it.
--   Orders     Status: backend/src/utils/order-status.ts. Store and Handlers: `updateOrderStatus`,
--     `cancelOrder` and `isPrivilegedActor` of backend/src/controllers/order.controller.ts, with
--     `orderAccessTokenMatchesOrder` of backend/src/utils/order-token.ts. Sweep: `runOnce` of
--     backend/src/services/reservation-sweep.service.ts. The handlers and the sweep call the inventory
--     service on the same tables. Lifecycle, Effects, Cancellation,
--     Updates, Claims and Reaping prove.
--   Staff      Privilege: backend/src/utils/privilege.ts. Ceiling proves.
--   Discounts  Coupon and Service: the coupons of backend/src/services/discount.service.ts, with the
--     cross-field conditions of backend/src/types/discount.types.ts. Coverage says which
--     items a coupon covers; Amounts, Limits and Editing prove.
--   Cart       backend/src/services/cart.service.ts. Store: the tables, and `extractIdentity` of
--     backend/src/controllers/cart.controller.ts. View: `formatCartWithInventory` and `validateCart`.
--     Service and Merge: the methods that change carts. The other modules prove.
--   Checkout   backend/src/services/checkout.service.ts. Shop: the tables that the checkout and the
--     payments share, the inventory's and the cart's among them. Pricing: steps 5 to 9 of
--     `processCheckout`. Service: `processCheckout` whole, which calls the cart, the coupons and the
--     inventory. Outcome, Stock, Rounding, Money, Replay and Rollback prove. Transitions:
--     `transitionOrderStatus` with the table of backend/src/types/checkout.types.ts, on the tables of
--     the order handlers; Changes and Agreement prove, the latter beside `updateOrderStatus`.
--   Payments   backend/src/integrations/razorpay/razorpay.service.ts, on the tables of the checkout.
--     Gateway: `assertGatewayPaymentMatchesRecord`. Confirming: `initiatePayment` and
--     `verifyAndConfirmPayment`. Webhook: `processWebhookEvent` and its handlers. Refunds:
--     `refundPayment`. Failing: `failPayment` of backend/src/controllers/order.controller.ts.
--     Capturing, Genuine, Releasing, Paise, Refunded and AfterCheckout prove.
--   Outbox     backend/src/services/email-outbox.service.ts. Store: `EmailOutboxService` on its table.
--     Worker: `EmailOutboxWorker.runOnce`. Ticks, Attempts, Termination and Dedupe prove.
--   Delivery   backend/src/services/delivery.service.ts, on the tables of the checkout. Status: the two
--     tables of backend/src/types/delivery.types.ts. Store: `resolveDelivery`. Service: `assignStaff`
--     and `updateDeliveryStatus`. Effects and Taking say what a status of a delivery means for its order,
--     apart from the tables of the code; Changes, Following and Stranding prove.
--   Sessions   Tokens: the refresh tokens of backend/src/services/auth.service.ts. Reuse proves.
--   Addresses  Book: the changes of backend/src/services/address.service.ts. Defaults: what they do to
--     the default address of a customer.
--   Result     backend/src/utils/errors.ts: the errors as values, and the chaining of steps.
--   Prelude    shared names, Boolean tests, lists and integers over the native numbers. Double: binary
--     floating-point numbers as executable functions. Text: the empty string.
-- Each part has a module Tests that runs it on concrete tables and applies its theorems there.
--
-- How the code is read. A service method is a function from its arguments and the tables to the
-- result and the new tables, or to an error; a transaction that throws changes nothing, which
-- `after` and the handlers' answers write out. A row that `SELECT … FOR UPDATE` locks is read and
-- written in one step; within a transaction nothing comes between, and Interleaving lets the
-- earlier, unlocked read be arbitrarily old. Ids, slugs, codes and e-mail addresses are only
-- compared or sorted, so they are numbers in collation order. Quantities are numbers, since CHECK
-- constraints keep the columns from being negative, and the quantities of an order line are
-- integers, tested by the code; a write out of range of a 4-byte column is an error of the database
-- (`write_row`). Money is in whole paise and a percentage in hundredths of a percent, as the
-- Decimal columns hold them. The tax and the total of a checkout and the amounts of a refund go
-- through the binary floating point of the code (Prelude.Double); their theorems assume less than
-- ten thousand million rupees, beyond what the columns hold. Where coupons and the view of a cart
-- compute in binary floating point, the model has the exact value. Every loop of the code runs over
-- a list and is structural recursion, so every definition is total. The one bound is that of
-- `spacing` in Prelude.Double: 128 halvings, which are enough below 2^181 multiples of 2^-80; the
-- amounts of the theorems stay below 2^121 of them.
--
-- Code outside the repository's sources is a parameter: the transactions of other requests that
-- commit while the sweep runs are the argument `others` of `run_once`, and the answer of the advisory
-- lock is its argument `locked`. In the checkout, the payments, the deliveries and the sessions
-- `others` is what other requests commit between the reads of a call and its transaction. `Gateway`
-- holds the answers of Razorpay (its signatures, payments, orders and refunds), `Transport` those of
-- the e-mail provider, and the hash of a refresh token and its random bytes are arguments.
--
-- An audit entry is written to the tables of the call, so it is dropped when the transaction around it
-- throws; the code writes some of them on a connection of their own, where they stay. No theorem is
-- about the audit entries of a call that throws.
--
-- Not modelled: the payment settings, reconciliation, the transport and the texts of e-mail, login
-- and the reset of passwords, rate limits, invoices, support tickets, reports, promotions, and the
-- listings of the modelled services; in the modelled methods, log lines, free-text reasons and
-- notes, the time of a row's last change, and the actor's name on log entries, the schemas' bounds
-- on single fields, and failures of the best-effort audit trail and mail.
pub mod Prelude
pub mod Result
pub mod Inventory
pub mod Staff
pub mod Orders
pub mod Discounts
pub mod Cart
pub mod Checkout
pub mod Payments
pub mod Outbox
pub mod Delivery
pub mod Sessions
pub mod Addresses
