-- ===== src/Orders/Tasks.antt =====
-- The timed tasks on orders (backend/app/tasks/marketplace_tasks.py):
-- `expire_stale_pending_orders` and `auto_complete_delivered_orders`. Each order is one transaction.
use kaasb.Common.{
  ℕ, ◌+◌, ◌-◌, Bool, true, false, Option, none, some, List, [], ◌∷◌, select, map, any, update_row,
  ltb, leb, ◌==◌, ◌&&◌, not,
}
use kaasb.Db.{
  Db, Action, Result, ok, err, ◌>>=◌, ◌>>◌, pure, gets, modify, when, notify, ◌is◌, holds,
  EscrowStatus, ServiceOrderStatus, Escrow, Service, ServiceOrder, order_auto_completed,
  order_coded, escrow_coded,
}
use kaasb.Orders.Work.{finish_order}

-- Thirty minutes.
abbrev pub stale_pending : ℕ
stale_pending = 1_800

abbrev has_funded_escrow : ℕ → List Escrow → Bool
has_funded_escrow k es =
    any (λ e. holds e.service_order_id k && (e.status is EscrowStatus.funded)) es

abbrev pub is_stale : ℕ → List Escrow → ServiceOrder → Bool
is_stale now es o =
    (o.status is ServiceOrderStatus.pending)
    && (ltb (o.created_at + stale_pending) now && not (has_funded_escrow o.id es))

abbrev pub cancel_if_pending : ℕ → List ServiceOrder → List ServiceOrder
cancel_if_pending k [] = []
cancel_if_pending k (o ∷ os) =
    (elim ((o.id == k) && (o.status is ServiceOrderStatus.pending)) [
      | true ↦ record o { status = ServiceOrderStatus.cancelled }
      | false ↦ o
    ])
    ∷ cancel_if_pending k os

-- `orders_count - 1` where it is positive.
abbrev uncount : Service → Service
uncount v = record v { orders_count = v.orders_count - 1 }

unfoldable pub expire_order : ℕ → ℕ → Action Bool
expire_order k service_id = do
  found ← gets λ db. any (λ o. (o.id == k) && (o.status is ServiceOrderStatus.pending)) db.orders
  modify λ db. record db { orders = cancel_if_pending k db.orders }
  when found
      (modify λ db. record db { services = update_row (λ v. v.id) service_id uncount db.services })
  pure found

-- What a pass over the rows counts: an order that fails is rolled back and skipped.
abbrev pub after : Result (Bool × Db) → Db → ℕ × Db
after (ok (true, db')) db = (1, db')
after (ok (false, db')) db = (0, db')
after (err e) db = (0, db)

unfoldable pub expire_rows : List (ℕ × ℕ) → Db → ℕ × Db
expire_rows [] db = (0, db)
expire_rows (row ∷ rows) db =
    let first = after (expire_order row.0 row.1 db) db in
    let rest = expire_rows rows first.1 in (first.0 + rest.0, rest.1)

unfoldable pub expire_stale_pending_orders : ℕ → Db → ℕ × Db
expire_stale_pending_orders now db =
    expire_rows (map (λ o. (o.id, o.service_id)) (select (is_stale now db.escrows) db.orders)) db

-- Three days.
abbrev pub review_period : ℕ
review_period = 259_200

abbrev is_before : Option ℕ → ℕ → Bool
is_before none now = false
is_before (some t) now = leb (t + review_period) now

abbrev pub is_overdue : ℕ → ServiceOrder → Bool
is_overdue now o = (o.status is ServiceOrderStatus.delivered) && is_before o.delivered_at now

unfoldable pub auto_complete_order : ℕ → ServiceOrder → Action Bool
auto_complete_order now o = do
  finish_order now o
  notify o.client_id order_auto_completed
  pure true

unfoldable pub auto_complete_rows : ℕ → List ServiceOrder → Db → ℕ × Db
auto_complete_rows now [] db = (0, db)
auto_complete_rows now (o ∷ os) db =
    let first = after (auto_complete_order now o db) db in
    let rest = auto_complete_rows now os first.1 in (first.0 + rest.0, rest.1)

unfoldable pub auto_complete_delivered_orders : ℕ → Db → ℕ × Db
auto_complete_delivered_orders now db =
    auto_complete_rows now (select (is_overdue now) db.orders) db
