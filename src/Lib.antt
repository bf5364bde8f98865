-- ===== src/Lib.antt =====
-- DishFlow: the pricing, the orders, the payments, the stock, the pickup slots, the member points and the coupons
-- of a restaurant's ordering service, with its menu, quotes, receipts, staff, logins and migrations, modelled from the Go
-- packages under internal/ and cmd/ and the tables under migrations/.
--
-- The parts, and how they work together. A customer's cart is priced by internal/pricing (`Price`). The quote
-- becomes an order by `Create` of internal/orders, in one transaction that takes a pickup number, reserves the
-- stock of the day, takes a place in a pickup slot, and writes the order, its items, an event, an outbox row
-- and the idempotency key. internal/payments records the prepayment and its success, reported by the customer's
-- confirmation or by a call of the provider (internal/callbacks), and writes the event for the worker;
-- internal/refunds records the refund. internal/worker makes the order paid when the payment has succeeded
-- (`onPaymentSuccess`, which turns what is reserved into what is sold), and releases orders that expired
-- (`releaseExpiredOrders`). Staff move the order on (`Transition`), customers cancel it (`Cancel`), refunds end
-- it (`StaffRefund`, `ReviewCancelRequest`, `MarkRefunded`), and each gives back stock and slot.
-- internal/inventory sets the stock of a day, internal/pickup computes the slots that are offered,
-- internal/members keeps the points, and internal/marketing the coupons; internal/menu keeps what is for sale,
-- internal/materials the purchase lists, and internal/authn the logins of the staff.
--
--   Pricing/Types, Validate  internal/pricing/engine.go: the inputs, `Validate`, `validateOptionGroups`
--   Pricing/Price            internal/pricing/calc.go: `Price`, `sortInt64`
--   Pricing/Settle, Discount, Sort, Selected, Sound, Scenario, Bounds, Exact, Total   what is shown of them
--   Store                    the rows of the trading tables, and one state `Db` of all of them
--   Orders/StateMachine      internal/orders/statemachine.go: `transitions`, `CanTransition`
--   Orders/Reserve, Create   internal/orders/create.go: `Create` and the functions it calls
--   Orders/Release, Cancel   internal/orders/cancel.go
--   Orders/Transition        internal/orders/query.go: `Transition`
--   Orders/Replay, Lock, Refusals   idempotency, the optimistic lock, and requests that are refused
--   Worker/Payment, Expire   internal/worker/worker.go: `onPaymentSuccess`, `releaseExpiredOrders`
--   Worker/Queue, Outbox     the same file: `processOutbox` with its retries, `handleOutboxEvent`, `onRefundSuccess`,
--                            and the points that `onPaymentSuccess` awards; Selection and Retry on rounds
--                            over an event that keeps failing
--   Payments/Store, Refunds  internal/payments/store.go, internal/refunds/store.go
--   Payments/Callback        internal/callbacks/callbacks.go: `WechatPayTransaction`
--   Payments/Handlers        internal/customer/payments.go and cancel.go, which call them
--   Payments/Sound, Beside, Refunded, Refunding, Frames, History   the invariants, and `PayStep`, `PayHistory`
--   Payments/Webhooks, Delivery   repeated notifications, and from the confirmation to the paid order
--   Inventory                internal/inventory/store.go: `EnsureDaily`, `Adjust`
--   Stock                    the books of the stock: the invariant, operation by operation, and `Step`, `History`;
--                            Outbox for a round of the worker
--   Life                     the orders along such a history: documented moves, versions, the primary key
--   Capacity                 the pickup slots along such a history
--   Pickup/Hours, Slots      internal/pickup/slots.go: `ParseBusinessHours`, `GenerateSlots`; Grid on its result
--   Members/Points           internal/members/store.go: `AdjustPoints`, `AwardPoints`, `ReversePoints`
--   Members/Ledger, Balance, History, Once   the balance against the ledger, and repeated awards
--   Marketing/Coupons        internal/marketing/store.go: `Claim`, `RedeemCoupon`; coupon_pricing.go; Claims on them,
--                            Steps and History on a coupon after its claim
--   Quotes/Store             internal/pricing/quote.go: `IssueWithLines`, `Lookup`, `Delete`; Tokens on them
--   Printing/Receipt         internal/printing/store.go: `RenderOrderReceipt` and its numbers; Digits on those
--   Staff/Members            internal/platform/members.go; Owner and History on the owner of a store
--   Staff/Applications       internal/platform/applications.go
--   Access/Limiter            internal/authn/store.go: `RateLimiter`; Window, Attempts on what it lets through
--   Access/Sessions, Roles    internal/authn/store.go, session.go and middleware.go, internal/admin/session.go; Expiry,
--                            History, Admission, Logout on the requests that are served
--   Menu/Rows, Categories     internal/menu/store.go, with the tables of migrations/0002_menu.up.sql
--   Menu/Options, Dishes, Lists   internal/menu/dishes.go; Recycle on the recycle bin, Tidy, Keeps, Created, Imports,
--                            History on the rows
--   Menu/File, Import        internal/export/store.go: `Import`
--   Purchases/Lists, Moves   internal/materials/store.go; Replay, Keeps, History on the log of events
--   Migrate/Split, Run       cmd/migrate/main.go: `splitStatements`, `migrateUp`, `migrateDown`; Statements, Pieces,
--                            Versions, Loaded, Scripts, Order
--   Tests                    runs on concrete inputs
--
-- How the code is read. A Go function that returns `(value, error)` returns a `Result`, and a transaction takes
-- the state and returns the new one: an error is a rollback, after which the caller still holds the state
-- before. A SQL statement is an update of a list or of a map; a unique key is a test before an INSERT, and a
-- CHECK that would fail is an error. A joined UPDATE visits the reservations of the order one by one, of which
-- their unique key lets no two meet in a row. Identifiers, instants and texts that are only compared are
-- natural numbers, the empty text is 0; amounts of money and points are signed, and where Go computes with
-- them the sum, difference or product is wrapped into 64 bits (`add64`, `sub64`, `mul64`). The reading of a
-- time by Go's time package is a parameter (`Clock`, `Calendar`, the midnight of a date), the random order
-- number and the clock are arguments. One counter stands for the identifiers of all tables but those of the
-- menu and the purchases. In the calls of
-- `Cancel`, `Transition` and `CanTransition` the actor is one of the three names that the code documents.
--
-- The worker is taken with both its stores wired; what it reads elsewhere (the points rate of a store, the order
-- of a refund, the texts of two keys) is the parameter `Surroundings`.
--
-- Bounds. `digits_of` is given 19 rounds, the digits that a number below 2^63 has at most, and `pad` three.
-- `LIMIT 50` of `processOutbox` is the fuel of `take_due`, and `LIMIT 100` of `releaseExpiredOrders` that of
-- `select_expired`. The loop of `GenerateSlots` is given a round for each minute of the opening hours, and
-- steps by five minutes at least. The other loops go along a list. `IsBounded` (Pricing/Exact) holds prices,
-- fees, modifiers and discounts to ten million yuan and a cart to 1000 lines with 99 options each, within
-- which 64 bits never wrap.
--
-- Not modelled: faults of the database connection, foreign keys, column widths, the overflow of identifiers
-- and versions, and the interleaving of two transactions (each is atomic); the upkeep of promotions and
-- coupon templates, the queue of print jobs, cryptography, cookies, tables, the other HTTP handlers, reports
-- and commands, and the text of the last error of an outbox row. The bound on logins is that of attempts one after
-- another.
pub mod Prelude
pub mod Pricing
pub mod Store
pub mod Orders
pub mod Payments
pub mod Worker
pub mod Inventory
pub mod Pickup
pub mod Members
pub mod Marketing
pub mod Menu
pub mod Migrate
pub mod Staff
pub mod Printing
pub mod Purchases
pub mod Quotes
pub mod Stock
pub mod Life
pub mod Access
pub mod Capacity
pub mod Tests
