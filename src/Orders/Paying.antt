-- ===== src/Orders/Paying.antt =====
-- Payments and the expiry of unpaid orders follow the machine of orders
-- (backend/app/services/payment_service.py and backend/app/tasks/marketplace_tasks.py).
use kaasb.Common.{
  ℕ, String, ◌≡◌, refl, sym, ap, subst, ◌∙◌, Bool, true, false, Bool-cases, inl, inr, Option, none,
  some, List, [], ◌∷◌, select, arith, ◌==◌, ◌&&◌,
}
use kaasb.Db.{
  Db, Result, ok, err, ◌is◌, order_coded, transaction_coded, order_is→eq, find-inv, to_list, Escrow,
  Transaction, TransactionStatus, Service, ServiceOrder, ServiceOrderStatus, ExternalRef,
}
use kaasb.Payment.Settings.{Settings}
use kaasb.Payment.Confirm.{
  has_questions, started, service_of, start_pending, start_found, start_order, mark_funded, settle,
  settle_found, funding_rows, verify_order_sig, confirm_qi_card_payment,
}
use kaasb.Payment.Callbacks.{settle-inv, settle-completed}
use kaasb.Orders.Work.{order_rows}
use kaasb.Orders.Progress.{set_order-orders}
use kaasb.Orders.Tasks.{
  cancel_if_pending, expire_order, after, expire_rows, expire_stale_pending_orders,
}
use kaasb.Orders.Machine.{
  Moves, Reaches, stay, move, paid, paid_with_questions, expired, Advance, Advance-update,
  Advance-same, Advance-trans,
}

started-Moves :
    (v : Option Service) (o : ServiceOrder) → Moves ServiceOrderStatus.pending (started v o).status
started-Moves v o = elim (Bool-cases (has_questions v)) [
  | inl h ↦ rw h paid_with_questions
  | inr h ↦ rw h paid
]

start_found-Advance :
    (j k : ℕ) (x : Option ServiceOrder) (db db' : Db) (u : Unit {0})
    → order_rows j db ≡ to_list x
    → start_found x db ≡ ok (u, db')
    → Advance k db db'
start_found-Advance j k none db db' u found h = Advance-same k db db' (ground arith)
start_found-Advance j k (some o) db db' u found h =
    elim (Bool-cases (o.status is ServiceOrderStatus.pending)) [
      | inr other ↦
          let same : db ≡ db' = cc (rw other at h) in
          Advance-same k db db' (sym (ap (λ d. d.orders) same))
      | inl waiting ↦
          let (v, _, h') = find-inv (service_of o) (start_pending o) db (rw waiting at h) in
          Advance-update k j o (started v) db db' found (λ _. refl)
            (subst (λ s. Moves s (started v o).status)
              (sym (order_is→eq o.status ServiceOrderStatus.pending waiting)) (started-Moves v o))
            (set_order-orders o.id (started v) db h')
    ]

start_order-Advance :
    (ref : ExternalRef) (k : ℕ) (db db' : Db) (u : Unit {0})
    → start_order ref db ≡ ok (u, db')
    → Advance k db db'
unfolding start_order
start_order-Advance (ExternalRef.gig_order_ref j) k db db' u h =
    let (x, found, h') = find-inv (order_rows j) start_found db h in
    start_found-Advance j k x db db' u found h'
start_order-Advance (ExternalRef.gig_order_text j) k db db' u h =
    Advance-same k db db' (ground arith)
start_order-Advance (ExternalRef.escrow_ref j) k db db' u h = Advance-same k db db' (ground arith)
start_order-Advance (ExternalRef.operation j) k db db' u h = Advance-same k db db' (ground arith)
start_order-Advance (ExternalRef.generated j) k db db' u h = Advance-same k db db' (ground arith)

mark_funded-orders :
    (now : ℕ) (e : Option Escrow) (db db' : Db) (u : Unit {0})
    → mark_funded now e db ≡ ok (u, db')
    → db'.orders ≡ db.orders
unfolding mark_funded
mark_funded-orders now none db db' u h = ground arith
mark_funded-orders now (some e) db db' u h = ground arith

settle-Advance :
    (now : ℕ) (ref : ExternalRef) (t : Transaction) (k : ℕ) (db : Db) {r : Bool × Db}
    → settle now ref t db ≡ ok r
    → Advance k db r.1
settle-Advance now ref t k db {r} h = elim (Bool-cases (t.status is TransactionStatus.completed)) [
  | inl done ↦
      let same : db ≡ r.1 = settle-completed now ref t db r.1 {b = r.0} done h in
      Advance-same k db r.1 (sym (ap (λ d. d.orders) same))
  | inr fresh ↦
      let (e, db1, found, marked, begun, _) = settle-inv now ref t db fresh h in
      Advance-trans k db db1 r.1 (Advance-same k db db1 (mark_funded-orders now e _ db1 tt marked))
        (start_order-Advance ref k db1 r.1 tt begun)
]

settle_found-Advance :
    (now : ℕ) (ref : ExternalRef) (x : Option Transaction) (k : ℕ) (db : Db) {r : Bool × Db}
    → settle_found now ref x db ≡ ok r
    → Advance k db r.1
settle_found-Advance now ref none k db {r} h =
    let same : db ≡ r.1 = cc in Advance-same k db r.1 (sym (ap (λ d. d.orders) same))
settle_found-Advance now ref (some t) k db h = settle-Advance now ref t k db h

pub confirm-Advance :
    (s : Settings) (now : ℕ) (ref : ExternalRef) (sig : String) (k : ℕ) (db : Db) {r : Bool × Db}
    → confirm_qi_card_payment s now ref sig db ≡ ok r
    → Advance k db r.1
unfolding confirm_qi_card_payment
confirm-Advance s now ref sig k db {r} h = elim (Bool-cases (verify_order_sig s ref sig)) [
  | inr forged ↦
      let same : db ≡ r.1 = cc (rw forged at h) in
      Advance-same k db r.1 (sym (ap (λ d. d.orders) same))
  | inl valid ↦
      let (x, _, h') = find-inv (funding_rows ref) (settle_found now ref) db (rw valid at h) in
      settle_found-Advance now ref x k db h'
]

cancel-select :
    (j k : ℕ) (os : List ServiceOrder)
    → select (λ x. x.id == k) (cancel_if_pending j os)
      ≡ cancel_if_pending j (select (λ x. x.id == k) os)
cancel-select j k [] = refl
cancel-select j k (o ∷ os) = ground (arith, cancel-select j k os)

-- Cancelling what is still PENDING leaves every other order as it was.
cancel-rows :
    (j k : ℕ) (o : ServiceOrder) (os : List ServiceOrder)
    → select (λ x. x.id == k) os ≡ o ∷ []
    → select (λ x. x.id == k) (cancel_if_pending j os) ≡ cancel_if_pending j (o ∷ [])
cancel-rows j k o os h = cancel-select j k os ∙ ap (cancel_if_pending j) h

cancelled-Reaches :
    (j : ℕ) (o : ServiceOrder)
    → (p : ServiceOrder) × (cancel_if_pending j (o ∷ []) ≡ p ∷ []) × Reaches o.status p.status
cancelled-Reaches j o =
    elim (Bool-cases ((o.id == j) && (o.status is ServiceOrderStatus.pending))) [
      | inr h ↦ (o, rw h refl, stay)
      | inl h ↦
          let waiting : (o.status is ServiceOrderStatus.pending) ≡ true = ground arith in
          let p : ServiceOrder = record o { status = ServiceOrderStatus.cancelled } in
          (
            p,
            rw h refl,
            move
                (subst (λ s. Moves s ServiceOrderStatus.cancelled)
                  (sym (order_is→eq o.status ServiceOrderStatus.pending waiting)) expired)
                stay,
          )
    ]

expire_order-Advance :
    (j v k : ℕ) (db : Db) {r : Bool × Db} → expire_order j v db ≡ ok r → Advance k db r.1
unfolding expire_order
expire_order-Advance j v k db {r} h o found =
    let cancelled : r.1.orders ≡ cancel_if_pending j db.orders = ground arith in
    let (p, one, reach) = cancelled-Reaches j o in
    (p, ap (select (λ x. x.id == k)) cancelled ∙ cancel-rows j k o db.orders found ∙ one, reach)

after-Advance :
    (k : ℕ) (x : Result (Bool × Db)) (db : Db)
    → ((r : Bool × Db) → x ≡ ok r → Advance k db r.1)
    → Advance k db (after x db).1
after-Advance k (ok (true, db')) db h = h (true, db') refl
after-Advance k (ok (false, db')) db h = h (false, db') refl
after-Advance k (err e) db h = Advance-same k db db refl

expire_rows-Advance : (rows : List (ℕ × ℕ)) (k : ℕ) (db : Db) → Advance k db (expire_rows rows db).1
unfolding expire_rows
expire_rows-Advance [] k db = Advance-same k db db refl
expire_rows-Advance (row ∷ rows) k db =
    let db1 = (after (expire_order row.0 row.1 db) db).1 in
    Advance-trans k db db1 (expire_rows rows db1).1
      (after-Advance k (expire_order row.0 row.1 db) db
        (λ r. expire_order-Advance row.0 row.1 k db))
      (expire_rows-Advance rows k db1)

pub expire-Advance : (now k : ℕ) (db : Db) → Advance k db (expire_stale_pending_orders now db).1
unfolding expire_stale_pending_orders
expire-Advance now k db = expire_rows-Advance _ k db
