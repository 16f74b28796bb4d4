-- ===== src/Orders/Frozen.antt =====
-- What a dispute freezes (backend/app/services/catalog_service.py, `raise_dispute`).
use kaasb.Common.{
  ℕ, not, ◌==◌, ◌&&◌, ◌≡◌, refl, sym, ap, subst, ◌∙◌, Bool, true, false, Bool-cases, inl, inr,
  Option, none, some, List, [], ◌∷◌, All, select, select-single, select-update_row, found-test,
  arith, Text, ==_refl, ==→eq,
}
use kaasb.Db.{
  Db, Action, Error, ok, err, ◌is◌, order_coded, escrow_coded, find-inv, find_one-run, bind-inv,
  raise_if-inv, raise_if, pure, notify, to_list, ◌>>◌, forbidden, bad_request, holds, Escrow,
  EscrowStatus, ServiceOrder, ServiceOrderStatus, NotificationType, update_escrow,
}
use kaasb.Payment.Confirm.{update_order}
use kaasb.Orders.Work.{order_rows, or_missing, funded_order_rows, complete_order, complete_checked}
use kaasb.Orders.Threads.{tell_order, tell_order-keeps}
use kaasb.Orders.Disputes.{
  opened_text, is_disputable, open_dispute_on, set_status, freeze, dispute_order, raise_on,
  raise_dispute,
}
use kaasb.Orders.Machine.{with_order-inv}
use kaasb.Orders.Disputing.{dispute_order-orders}

-- Rewriting the one row that a query finds, so that it fails the query, leaves none.
update-select-none :
    (p : Escrow → Bool) (e : Escrow) (f : Escrow → Escrow) (es : List Escrow)
    → ((x : Escrow) → p (f x) ≡ false)
    → All (λ x. p x ≡ true → x ≡ e) es
    → select p (update_escrow e.id f es) ≡ []
update-select-none p e f [] gone one = refl
update-select-none p e f (x ∷ es) gone one = elim (Bool-cases (x.id == e.id)) [
  | inl hit ↦ rw hit (rw (gone x) (update-select-none p e f es gone one.1))
  | inr miss ↦ elim (Bool-cases (p x)) [
    | inr fails ↦ rw miss (rw fails (update-select-none p e f es gone one.1))
    | inl passes ↦
        let same : (x.id == e.id) ≡ true =
          subst (λ y. (y.id == e.id) ≡ true) (sym (one.0 passes)) (==_refl e.id) in
        absurd (cc)
  ]
]

freeze-funded :
    (k : ℕ) (e : Option Escrow) (db db' : Db) (u : Unit {0})
    → funded_order_rows k db ≡ to_list e
    → freeze e db ≡ ok (u, db')
    → funded_order_rows k db' ≡ []
freeze-funded k none db db' u found h =
    let same : db ≡ db' = cc in subst (λ d. funded_order_rows k d ≡ []) same found
freeze-funded k (some e) db db' u found h =
    let q : Escrow → Bool = λ x. holds x.service_order_id k && (x.status is EscrowStatus.funded) in
    let f = set_status EscrowStatus.disputed in
    let moved : db'.escrows ≡ update_escrow e.id f db.escrows = ground arith in
    ap (select q) moved
    ∙ update-select-none q e f db.escrows (λ x. ground arith) (select-single q e db.escrows found)

dispute_order-funded :
    (now user : ℕ) (reason : Text) (o : ServiceOrder) (db db' : Db) (u : Unit {0})
    → dispute_order now user reason o db ≡ ok (u, db')
    → funded_order_rows o.id db' ≡ []
unfolding dispute_order
dispute_order-funded now user reason o db db' u h =
    let db0 : Db = record db {
      orders = update_order o.id (open_dispute_on now user reason) db.orders;
    } in
    let (e, found, h1) = find-inv (funded_order_rows o.id) freeze db0 h in
    freeze-funded o.id e db0 db' u found h1

-- The order after the dispute.
disputed-rows :
    (now user j : ℕ) (reason : Text) (o : ServiceOrder) (db db' : Db)
    → order_rows j db ≡ o ∷ []
    → db'.orders ≡ update_order o.id (open_dispute_on now user reason) db.orders
    → order_rows j db' ≡ open_dispute_on now user reason o ∷ []
disputed-rows now user j reason o db db' found moved =
    ap (select (λ x. x.id == j)) moved
    ∙ select-update_row (λ x. x.id) (λ x. x.id == j) o.id (open_dispute_on now user reason)
        (λ _. refl) db.orders
    ∙ ap (update_order o.id (open_dispute_on now user reason)) found
    ∙ rw (==_refl o.id) refl

disputed_not_completed :
    (later who : ℕ) (o : ServiceOrder) (db : Db)
    → (o.status is ServiceOrderStatus.delivered) ≡ false
    → (e : Error) × (complete_checked later who o db ≡ err e)
unfolding complete_checked
disputed_not_completed later who o db h = elim (Bool-cases (o.client_id == who)) [
  | inl same ↦ (bad_request, rw same (rw h refl))
  | inr other ↦ (forbidden, rw other refl)
]

raise_on-inv :
    (now client : ℕ) (reason : Text) (o : ServiceOrder) (db : Db) {r : ℕ × Db}
    → raise_on now client reason o db ≡ ok r
    → (db1 : Db) × (dispute_order now client reason o db ≡ ok (tt, db1))
      × (r.1.orders ≡ db1.orders)
      × (r.1.escrows ≡ db1.escrows)
unfolding raise_on
raise_on-inv now client reason o db {r} h =
    let end : Action ℕ = notify o.freelancer_id NotificationType.dispute_opened >> pure o.id in
    let after : Action ℕ = tell_order now o.id (opened_text reason) >> end in
    let write = dispute_order now client reason o >> after in
    let fresh = raise_if (o.status is ServiceOrderStatus.disputed) bad_request >> write in
    let (_, h1) =
      raise_if-inv (not (o.client_id == client)) forbidden
        (raise_if (not (is_disputable o.status)) bad_request >> fresh) db h in
    let (_, h2) = raise_if-inv (not (is_disputable o.status)) bad_request fresh db h1 in
    let (_, h3) = raise_if-inv (o.status is ServiceOrderStatus.disputed) bad_request write db h2 in
    let (u, db1, done, h4) = bind-inv (dispute_order now client reason o) (λ _. after) db h3 in
    let (v, db2, told, h5) =
      bind-inv (tell_order now o.id (opened_text reason)) (λ _. end) db1 h4 in
    let kept = tell_order-keeps now o.id (opened_text reason) db1 db2 v told in
    let orders : r.1.orders ≡ db2.orders = ground arith in
    let escrows : r.1.escrows ≡ db2.escrows = ground arith in
    (db1, done, orders ∙ kept.0, escrows ∙ kept.1)

-- A dispute that `raise_dispute` recorded freezes the money: no escrow of the order is FUNDED any
-- more, so that no release finds one, and nobody can complete the order.
pub raise_dispute-freezes :
    (now j client : ℕ) (reason : Text) (db : Db) {r : ℕ × Db}
    → raise_dispute now j client reason db ≡ ok r
    → (funded_order_rows j r.1 ≡ [])
      × ((later who : ℕ) → (e : Error) × (complete_order later j who r.1 ≡ err e))
unfolding raise_dispute complete_order
raise_dispute-freezes now j client reason db {r} h =
    let (o, found, h') = with_order-inv j (raise_on now client reason) db h in
    let (db1, done, orders, escrows) = raise_on-inv now client reason o db h' in
    let at_j = ==→eq o.id j (found-test (λ x. x.id == j) o [] db.orders found) in
    let p = open_dispute_on now client reason o in
    let rows : order_rows j r.1 ≡ p ∷ [] =
      disputed-rows now client j reason o db r.1 found
        (orders ∙ dispute_order-orders now client reason o db db1 tt done) in
    let frozen : funded_order_rows o.id r.1 ≡ [] =
      ap (select (λ x. holds x.service_order_id o.id && (x.status is EscrowStatus.funded))) escrows
      ∙ dispute_order-funded now client reason o db db1 tt done in
    (
      subst (λ i. funded_order_rows i r.1 ≡ []) at_j frozen,
      λ later who.
          let (e, refused) = disputed_not_completed later who p r.1 refl in
          (
            e,
            find_one-run (order_rows j) (or_missing (complete_checked later who)) r.1 (some p) rows
                ∙ refused,
          ),
    )
