-- ===== src/Orders/Progress.antt =====
-- Every operation on orders (backend/app/services/catalog_service.py) follows the machine.
use kaasb.Common.{
  ℕ, not, ◌==◌, String, ◌≡◌, refl, sym, ap, subst, ◌∙◌, true, Option, none, some, List, arith,
}
use kaasb.Db.{
  Db, ok, ◌is◌, order_coded, order_is→eq, find-inv, bind-inv, raise_if-inv, raise_if, find_one,
  pure, ◌>>=◌, ◌>>◌, forbidden, bad_request, Escrow, ServiceOrder, ServiceOrderStatus,
}
use kaasb.Payment.Confirm.{update_order, set_order}
use kaasb.Payment.Release.{release_locked_escrow}
use kaasb.Payment.Releasing.{release_locked-Released}
use kaasb.Orders.Work.{
  submit_requirements, submit_order, submit, mark_delivered, deliver_order, deliver,
  request_revision, revise_order, revise, is_deliverable, complete_order, complete_checked,
  complete, finish_order, funded_order_rows, release_or_skip,
}
use kaasb.Orders.Machine.{
  Moves, answered, delivers, redelivers, revises, completes, Advance, Advance-update,
  with_order-inv,
}

-- A move from a state that a guard has tested.
abbrev pub from :
    (s t : ServiceOrderStatus) {u : ServiceOrderStatus} → (u is s) ≡ true → Moves s t → Moves u t
from s t {u} h m = subst (λ v. Moves v t) (sym (order_is→eq u s h)) m

pub submit_requirements-Advance :
    (now j client : ℕ) (answers : List String) (k : ℕ) (db : Db) {r : ℕ × Db}
    → submit_requirements now j client answers db ≡ ok r
    → Advance k db r.1
unfolding submit_requirements submit_order
submit_requirements-Advance now j client answers k db {r} h =
    let (o, found, h') = with_order-inv j (submit_order now client answers) db h in
    let waiting : (o.status is ServiceOrderStatus.pending_requirements) ≡ true = ground arith in
    Advance-update k j o (submit now answers) db r.1 found (λ _. refl)
      (from ServiceOrderStatus.pending_requirements ServiceOrderStatus.in_progress waiting answered)
      (ground arith)

pub request_revision-Advance :
    (now j client : ℕ) (k : ℕ) (db : Db) {r : ℕ × Db}
    → request_revision now j client db ≡ ok r
    → Advance k db r.1
unfolding request_revision revise_order
request_revision-Advance now j client k db {r} h =
    let (o, found, h') = with_order-inv j (revise_order now client) db h in
    let delivered : (o.status is ServiceOrderStatus.delivered) ≡ true = ground arith in
    Advance-update k j o (revise now) db r.1 found (λ _. refl)
      (from ServiceOrderStatus.delivered ServiceOrderStatus.revision_requested delivered revises)
      (ground arith)

deliverable-Moves :
    (s : ServiceOrderStatus) → is_deliverable s ≡ true → Moves s ServiceOrderStatus.delivered
deliverable-Moves ServiceOrderStatus.in_progress h = delivers
deliverable-Moves ServiceOrderStatus.revision_requested h = redelivers
deliverable-Moves _ h = absurd (cc)

pub mark_delivered-Advance :
    (now j freelancer : ℕ) (message : String) (files : List String) (k : ℕ) (db : Db) {r : ℕ × Db}
    → mark_delivered now j freelancer message files db ≡ ok r
    → Advance k db r.1
unfolding mark_delivered deliver_order
mark_delivered-Advance now j freelancer message files k db {r} h =
    let (o, found, h') = with_order-inv j (deliver_order now freelancer message files) db h in
    let ready : is_deliverable o.status ≡ true = ground arith in
    Advance-update k j o (deliver now) db r.1 found (λ _. refl) (deliverable-Moves o.status ready)
      (ground arith)

release_or_skip-orders :
    (now : ℕ) (e : Option Escrow) (db db' : Db) (u : Unit {0})
    → release_or_skip now e db ≡ ok (u, db')
    → db'.orders ≡ db.orders
release_or_skip-orders now none db db' u h = ground arith
release_or_skip-orders now (some e) db db' u h =
    let (resp, db1, locked, h') = bind-inv (release_locked_escrow now e) (λ _. pure tt) db h in
    let same : db1 ≡ db' = cc in
    subst (λ d. d.orders ≡ db.orders) same ((release_locked-Released now e db locked).orders)

-- The orders after a write to one.
pub set_order-orders :
    (k : ℕ) (f : ServiceOrder → ServiceOrder) (db : Db) {db' : Db} {u : Unit {0}}
    → set_order k f db ≡ ok (u, db')
    → db'.orders ≡ update_order k f db.orders
set_order-orders k f db {db'} h =
    let same : record db { orders = update_order k f db.orders } ≡ db' = cc in
    sym (ap (λ d. d.orders) same)

finish_order-orders :
    (now : ℕ) (o : ServiceOrder) (db db' : Db) (u : Unit {0})
    → finish_order now o db ≡ ok (u, db')
    → db'.orders ≡ update_order o.id (complete now) db.orders
unfolding finish_order
finish_order-orders now o db db' u h =
    let (v, db1, set, h1) =
      bind-inv (set_order o.id (complete now))
        (λ _. find_one (funded_order_rows o.id) >>= release_or_skip now) db h in
    let (e, _, h2) = find-inv (funded_order_rows o.id) (release_or_skip now) db1 h1 in
    release_or_skip-orders now e db1 db' u h2 ∙ set_order-orders o.id (complete now) db set

pub complete_order-Advance :
    (now j client : ℕ) (k : ℕ) (db : Db) {r : ℕ × Db}
    → complete_order now j client db ≡ ok r
    → Advance k db r.1
unfolding complete_order complete_checked
complete_order-Advance now j client k db {r} h =
    let (o, found, h') = with_order-inv j (complete_checked now client) db h in
    let (_, h1) =
      raise_if-inv (not (o.client_id == client)) forbidden
        (raise_if (not (o.status is ServiceOrderStatus.delivered)) bad_request
          >> (finish_order now o >> pure o.id))
        db h' in
    let (ready, h2) =
      raise_if-inv (not (o.status is ServiceOrderStatus.delivered)) bad_request
        (finish_order now o >> pure o.id) db h1 in
    let (u, db1, done, h3) = bind-inv (finish_order now o) (λ _. pure o.id) db h2 in
    let same : db1 ≡ r.1 = cc in
    let delivered : (o.status is ServiceOrderStatus.delivered) ≡ true = ground arith in
    Advance-update k j o (complete now) db r.1 found (λ _. refl)
      (from ServiceOrderStatus.delivered ServiceOrderStatus.completed delivered completes)
      (subst (λ d. d.orders ≡ update_order o.id (complete now) db.orders) same
        (finish_order-orders now o db db1 u done))
