-- ===== src/Orders/Resolving.antt =====
-- The resolution of a dispute follows the machine of orders
-- (backend/app/services/catalog_service.py and dispute_service.py).
use kaasb.Common.{
  ℕ, not, ◌≡◌, refl, sym, ap, subst, ◌∙◌, Bool, true, Option, none, some, [], ◌∷◌, arith, Text,
}
use kaasb.Db.{
  Db, Action, ok, ◌is◌, order_coded, find-inv, bind-inv, raise_if-inv, find_one, pure, notify,
  ◌>>=◌, ◌>>◌, bad_request, Escrow, EscrowStatus, ServiceOrder, ServiceOrderStatus, Dispute,
  NotificationType, update_escrow,
}
use kaasb.Payment.Confirm.{update_order, set_order}
use kaasb.Payment.Release.{release_escrow_by_id, release_checked, funded_rows, ReleaseResponse}
use kaasb.Payment.Releasing.{release_by_id-inv, release_locked-Released}
use kaasb.Payment.Refund.{
  refund_escrow_by_service_order, refund_order_found, refund_order_escrow, refundable_order_rows,
}
use kaasb.Orders.Work.{with_order, order_rows}
use kaasb.Orders.Threads.{tell_order, tell_order-keeps}
use kaasb.Orders.Disputes.{
  resolved_text, set_status, Verdict, release, refund, unknown, is_known, disputed_order_rows,
  resolve_completed, resolve_cancelled, release_disputed, refund_disputed, settle_dispute,
  resolve_on, resolve_order, set_dispute, dispute_rows, is_resolved, close, resolve_found,
  resolve_dispute,
}
use kaasb.Orders.Machine.{
  releases, refunds, Advance, Advance-update, Advance-same, Advance-trans, with_order-inv,
}
use kaasb.Orders.Progress.{from, set_order-orders}

released_none-orders :
    (now : ℕ) (e : Option Escrow) (db db' : Db)
    → release_checked now e db ≡ ok (none, db')
    → db'.orders ≡ db.orders
released_none-orders now none db db' h = let same : db ≡ db' = cc in sym (ap (λ d. d.orders) same)
released_none-orders now (some e) db db' h = ground arith

release_by_id-orders :
    (now k : ℕ) (resp : Option ReleaseResponse) (db db' : Db)
    → release_escrow_by_id now k db ≡ ok (resp, db')
    → db'.orders ≡ db.orders
unfolding release_escrow_by_id
release_by_id-orders now k none db db' h =
    let (e, _, h') = find-inv (funded_rows k) (release_checked now) db h in
    released_none-orders now e db db' h'
release_by_id-orders now k (some resp) db db' h =
    let r = release_by_id-inv now k db resp db' h in
    (release_locked-Released now r.escrow db r.locked).orders

release_disputed-orders :
    (now : ℕ) (e : Option Escrow) (db db' : Db) (u : Unit {0})
    → release_disputed now e db ≡ ok (u, db')
    → db'.orders ≡ db.orders
unfolding release_disputed
release_disputed-orders now none db db' u h = ground arith
release_disputed-orders now (some e) db db' u h =
    let db0 : Db = record db {
      escrows = update_escrow e.id (set_status EscrowStatus.funded) db.escrows;
    } in
    let (resp, db1, g, h') = bind-inv (release_escrow_by_id now e.id) (λ _. pure tt) db0 h in
    let same : db1 ≡ db' = cc in
    subst (λ d. d.orders ≡ db.orders) same (release_by_id-orders now e.id resp db0 db1 g)

refund_found-orders :
    (now : ℕ) (e : Option Escrow) (db : Db) {r : Bool × Db}
    → refund_order_found now e db ≡ ok r
    → r.1.orders ≡ db.orders
unfolding refund_order_escrow
refund_found-orders now none db h = ground arith
refund_found-orders now (some e) db h = ground arith

refund_disputed-orders :
    (now k : ℕ) (e : Option Escrow) (db db' : Db) (u : Unit {0})
    → refund_disputed now k e db ≡ ok (u, db')
    → db'.orders ≡ db.orders
unfolding refund_disputed refund_escrow_by_service_order
refund_disputed-orders now k none db db' u h = ground arith
refund_disputed-orders now k (some e) db db' u h =
    let (done, db1, g, h') = bind-inv (refund_escrow_by_service_order now k) (λ _. pure tt) db h in
    let (x, _, g') = find-inv (refundable_order_rows k) (refund_order_found now) db g in
    let same : db1 ≡ db' = cc in
    subst (λ d. d.orders ≡ db.orders) same (refund_found-orders now x db g')

settle_dispute-Advance :
    (now admin j k : ℕ) (verdict : Verdict) (o : ServiceOrder) (e : Option Escrow) (db db' : Db)
    (u : Unit {0})
    → order_rows j db ≡ o ∷ []
    → (o.status is ServiceOrderStatus.disputed) ≡ true
    → settle_dispute now admin verdict o e db ≡ ok (u, db')
    → Advance k db db'
unfolding settle_dispute
settle_dispute-Advance now admin j k release o e db db' u found open_state h =
    let (v, db1, g, h') =
      bind-inv (release_disputed now e) (λ _. set_order o.id (resolve_completed now)) db h in
    let same = release_disputed-orders now e db db1 v g in
    Advance-update k j o (resolve_completed now) db db' found (λ _. refl)
      (from ServiceOrderStatus.disputed ServiceOrderStatus.completed open_state releases)
      (set_order-orders o.id (resolve_completed now) db1 h'
        ∙ ap (update_order o.id (resolve_completed now)) same)
settle_dispute-Advance now admin j k refund o e db db' u found open_state h =
    let (v, db1, g, h') =
      bind-inv (refund_disputed now o.id e) (λ _. set_order o.id (resolve_cancelled now admin)) db
        h in
    let same = refund_disputed-orders now o.id e db db1 v g in
    Advance-update k j o (resolve_cancelled now admin) db db' found (λ _. refl)
      (from ServiceOrderStatus.disputed ServiceOrderStatus.cancelled open_state refunds)
      (set_order-orders o.id (resolve_cancelled now admin) db1 h'
        ∙ ap (update_order o.id (resolve_cancelled now admin)) same)
settle_dispute-Advance now admin j k unknown o e db db' u found open_state h = absurd (cc)

pub resolve_order-Advance :
    (now j admin : ℕ) (verdict : Verdict) (k : ℕ) (db : Db) {r : ℕ × Db}
    → resolve_order now j admin verdict db ≡ ok r
    → Advance k db r.1
unfolding resolve_order resolve_on
resolve_order-Advance now j admin verdict k db {r} h =
    let (_, h0) =
      raise_if-inv (not (is_known verdict)) bad_request
        (with_order j (resolve_on now admin verdict)) db h in
    let (o, found, h1) = with_order-inv j (resolve_on now admin verdict) db h0 in
    let end : Action ℕ =
      notify o.client_id NotificationType.dispute_resolved
      >> (notify o.freelancer_id NotificationType.dispute_resolved >> pure o.id) in
    let after : Action ℕ = tell_order now o.id (resolved_text verdict) >> end in
    let look = find_one (disputed_order_rows o.id) >>= settle_dispute now admin verdict o in
    let (_, h2) =
      raise_if-inv (not (o.status is ServiceOrderStatus.disputed)) bad_request (look >> after) db
        h1 in
    let (u, db1, g, h3) = bind-inv look (λ _. after) db h2 in
    let (e, _, g') =
      find-inv (disputed_order_rows o.id) (settle_dispute now admin verdict o) db g in
    let (v, db2, told, h5) =
      bind-inv (tell_order now o.id (resolved_text verdict)) (λ _. end) db1 h3 in
    let kept = tell_order-keeps now o.id (resolved_text verdict) db1 db2 v told in
    let end_same : r.1.orders ≡ db2.orders = ground arith in
    let same = end_same ∙ kept.0 in
    Advance-trans k db db1 r.1
      (settle_dispute-Advance now admin j k verdict o e db db1 u found (ground arith) g')
      (Advance-same k db1 r.1 same)

resolve_found-Advance :
    (now admin : ℕ) (verdict : Verdict) (notes : Option Text) (d : Option Dispute) (k : ℕ) (db : Db)
    {r : ℕ × Db}
    → resolve_found now admin verdict notes d db ≡ ok r
    → Advance k db r.1
unfolding resolve_found
resolve_found-Advance now admin verdict notes none k db h = absurd (cc)
resolve_found-Advance now admin verdict notes (some d) k db {r} h =
    let after : ℕ → Action ℕ = λ _. set_dispute d.id (close now admin verdict notes) >> pure d.id in
    let (_, h1) =
      raise_if-inv (is_resolved d.status) bad_request
        (resolve_order now d.order_id admin verdict >>= after) db h in
    let (x, db1, g, h2) = bind-inv (resolve_order now d.order_id admin verdict) after db h1 in
    let same : r.1.orders ≡ db1.orders = ground arith in
    Advance-trans k db db1 r.1 (resolve_order-Advance now d.order_id admin verdict k db g)
      (Advance-same k db1 r.1 same)

pub resolve_dispute-Advance :
    (now j admin : ℕ) (verdict : Verdict) (notes : Option Text) (k : ℕ) (db : Db) {r : ℕ × Db}
    → resolve_dispute now j admin verdict notes db ≡ ok r
    → Advance k db r.1
unfolding resolve_dispute
resolve_dispute-Advance now j admin verdict notes k db h =
    let (_, h1) =
      raise_if-inv (not (is_known verdict)) bad_request
        (find_one (dispute_rows j) >>= resolve_found now admin verdict notes) db h in
    let (d, _, h2) = find-inv (dispute_rows j) (resolve_found now admin verdict notes) db h1 in
    resolve_found-Advance now admin verdict notes d k db h2
