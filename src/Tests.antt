-- ===== src/Tests.antt =====
-- Runs of the model on concrete inputs, and each result of the library at one of them.
use dishflow_glm.Prelude.{none, []}
use dishflow_glm.Store.{Db}
mod Pricing
mod Access
mod Trading
mod Pickup
mod Members
mod Menu
mod Marketing
mod Outbox
mod Payments
mod Migrate
mod Staff
mod Printing
mod Quotes
mod Purchases

abbrev pub empty : Db
empty = record {
  orders = [];
  daily = λ s k t. none;
  reservations = [];
  movements = [];
  slots = λ s t. none;
  items = [];
  events = [];
  outbox = [];
  idem_keys = [];
  coupons = [];
  templates = λ t. none;
  memberships = [];
  ledger = [];
  next_id = 1;
}
