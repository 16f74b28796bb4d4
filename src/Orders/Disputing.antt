-- ===== src/Orders/Disputing.antt =====
-- Disputes follow the machine of orders (backend/app/services/catalog_service.py and
-- dispute_service.py).
use kaasb.Common.{
  ℕ, suc, not, ◌==◌, ◌||◌, if◌then◌else◌, ◌++◌, ◌≡◌, refl, ◌∙◌, Option, none, some, [], ◌∷◌, arith,
  Text, take,
}
use kaasb.Db.{
  Db, Action, ok, ◌is◌, order_coded, find-inv, bind-inv, raise_if-inv, raise_if, find_one, pure,
  notify, ◌>>=◌, ◌>>◌, forbidden, bad_request, Escrow, ServiceOrder, ServiceOrderStatus, Dispute,
  NotificationType,
}
use kaasb.Payment.Confirm.{update_order}
use kaasb.Orders.Work.{funded_order_rows}
use kaasb.Orders.Threads.{tell_order, tell_order-keeps}
use kaasb.Orders.Disputes.{
  opened_text, is_disputable, open_dispute_on, freeze, dispute_order, raise_on, raise_dispute,
  new_dispute, open_checked, dispute_rows_of, open_on, open_dispute,
}
use kaasb.Orders.Machine.{disputes, Advance, Advance-update, with_order-inv}

freeze-orders :
    (e : Option Escrow) (db db' : Db) (u : Unit {0})
    → freeze e db ≡ ok (u, db')
    → db'.orders ≡ db.orders
freeze-orders none db db' u h = ground arith
freeze-orders (some e) db db' u h = ground arith

-- What a dispute does to the orders, from its first write on.
pub dispute_order-orders :
    (now user : ℕ) (reason : Text) (o : ServiceOrder) (db db' : Db) (u : Unit {0})
    → dispute_order now user reason o db ≡ ok (u, db')
    → db'.orders ≡ update_order o.id (open_dispute_on now user reason) db.orders
unfolding dispute_order
dispute_order-orders now user reason o db db' u h =
    let (e, _, h1) =
      find-inv (funded_order_rows o.id) freeze
        (record db { orders = update_order o.id (open_dispute_on now user reason) db.orders }) h in
    freeze-orders e _ db' u h1

pub raise_dispute-Advance :
    (now j client : ℕ) (reason : Text) (k : ℕ) (db : Db) {r : ℕ × Db}
    → raise_dispute now j client reason db ≡ ok r
    → Advance k db r.1
unfolding raise_dispute raise_on
raise_dispute-Advance now j client reason k db {r} h =
    let (o, found, h') = with_order-inv j (raise_on now client reason) db h in
    let end : Action ℕ = notify o.freelancer_id NotificationType.dispute_opened >> pure o.id in
    let after : Action ℕ = tell_order now o.id (opened_text reason) >> end in
    let (_, h1) =
      raise_if-inv (not (o.client_id == client)) forbidden
        (raise_if (not (is_disputable o.status)) bad_request
          >> (raise_if (o.status is ServiceOrderStatus.disputed) bad_request
              >> (dispute_order now client reason o >> after)))
        db h' in
    let (allowed, h2) =
      raise_if-inv (not (is_disputable o.status)) bad_request
        (raise_if (o.status is ServiceOrderStatus.disputed) bad_request
          >> (dispute_order now client reason o >> after))
        db h1 in
    let (_, h3) =
      raise_if-inv (o.status is ServiceOrderStatus.disputed) bad_request
        (dispute_order now client reason o >> after) db h2 in
    let (u, db1, done, h4) = bind-inv (dispute_order now client reason o) (λ _. after) db h3 in
    let (v, db2, told, h5) =
      bind-inv (tell_order now o.id (opened_text reason)) (λ _. end) db1 h4 in
    let kept = tell_order-keeps now o.id (opened_text reason) db1 db2 v told in
    let end_same : r.1.orders ≡ db2.orders = ground arith in
    let same = end_same ∙ kept.0 in
    Advance-update k j o (open_dispute_on now client reason) db r.1 found (λ _. refl)
      (disputes (ground arith)) (same ∙ dispute_order-orders now client reason o db db1 u done)

open_checked-orders :
    (now user : ℕ) (description : Text) (o : ServiceOrder) (x : Option Dispute) (db : Db)
    {r : ℕ × Db}
    → open_checked now user description o x db ≡ ok r
    → r.1.orders ≡ update_order o.id (open_dispute_on now user (take 500 description)) db.orders
unfolding open_checked
open_checked-orders now user description o (some d) db h = absurd (cc)
open_checked-orders now user description o none db {r} h =
    let by_client = o.client_id == user in
    let db0 : Db = record db {
      next_id = suc db.next_id;
      disputes = db.disputes ++ new_dispute db.next_id o.id by_client ∷ [];
    } in
    let after : Action ℕ =
      notify (if by_client then o.freelancer_id else o.client_id) NotificationType.dispute_opened
      >> pure db.next_id in
    let (u, db1, done, h1) =
      bind-inv (dispute_order now user (take 500 description) o) (λ _. after) db0 h in
    let same : r.1.orders ≡ db1.orders = ground arith in
    same ∙ dispute_order-orders now user (take 500 description) o db0 db1 u done

pub open_dispute-Advance :
    (now j user : ℕ) (description : Text) (k : ℕ) (db : Db) {r : ℕ × Db}
    → open_dispute now j user description db ≡ ok r
    → Advance k db r.1
unfolding open_dispute open_on
open_dispute-Advance now j user description k db {r} h =
    let (o, found, h') = with_order-inv j (open_on now user description) db h in
    let look = find_one (dispute_rows_of o.id) >>= open_checked now user description o in
    let (_, h1) =
      raise_if-inv (not ((o.client_id == user) || (o.freelancer_id == user))) forbidden
        (raise_if (not (is_disputable o.status)) bad_request >> look) db h' in
    let (allowed, h2) = raise_if-inv (not (is_disputable o.status)) bad_request look db h1 in
    let (x, _, h3) = find-inv (dispute_rows_of o.id) (open_checked now user description o) db h2 in
    Advance-update k j o (open_dispute_on now user (take 500 description)) db r.1 found (λ _. refl)
      (disputes (ground arith)) (open_checked-orders now user description o x db h3)
