-- ===== src/Orders/Tests.antt =====
-- Runs of service orders at concrete inputs, and each theorem at an input that meets its hypotheses.
use kaasb.Common.{ℕ, ◌+◌, ◌≡◌, refl, false, some, List, [], ◌∷◌, arith, map}
use kaasb.Db.{
  Db, Error, ok, err, request, gig_order_ref, PaymentProvider, ServiceStatus, ServiceOrderStatus,
  Escrow, ServiceOrder, Service, ServicePackage, pos,
}
use kaasb.Payment.Fees.{quantize, whole_iqd, calculate_fees}
use kaasb.Payment.Confirm.{
  confirm_qi_card_payment, verify_order_sig, settle, mark_funded, start_order, fund,
}
use kaasb.Payment.Release.{release_locked_escrow}
use kaasb.Payment.Payout.{total_released}
use kaasb.Payment.Samples.{sample_settings, sample_gateway, sample_db}
use kaasb.Orders.Place.{place_order, place_checked, place_package, new_order, order_escrow}
use kaasb.Orders.Work.{
  order_rows, funded_order_rows, submit_requirements, submit_order, mark_delivered, deliver_order,
  request_revision, revise_order, complete_order, complete_checked, complete, finish_order,
}
use kaasb.Orders.Threads.{tell_order}
use kaasb.Orders.Disputes.{
  raise_dispute, raise_on, dispute_order, resolve_order, resolve_on, settle_dispute,
  release_disputed, refund_disputed,
}
use kaasb.Orders.Tasks.{expire_stale_pending_orders, expire_rows, expire_order}
use kaasb.Orders.Machine.{Reaches}
use kaasb.Orders.Calls.{Call, confirms, delivers, revises, completes, raises, step, run}
use kaasb.Orders.Runs.{run-Reaches, run-final}
use kaasb.Orders.Frozen.{raise_dispute-freezes}
use kaasb.Orders.Completing.{complete_order-pays}

abbrev runs : Unit {0}
unfolding place_order place_checked place_package calculate_fees quantize whole_iqd
    confirm_qi_card_payment verify_order_sig settle mark_funded start_order release_locked_escrow
    submit_requirements submit_order mark_delivered deliver_order request_revision revise_order
    complete_order complete_checked finish_order raise_dispute raise_on tell_order dispute_order
    resolve_order resolve_on settle_dispute release_disputed refund_disputed
    expire_stale_pending_orders expire_rows expire_order
runs = tt

-- Freelancer 2 sells a package of 100,000 IQD, with one revision.
abbrev sample_package : ServicePackage
sample_package = record { id = 61; price = 1_000_000_000; delivery_days = 3; revisions = pos 1 }

abbrev sample_service : Service
sample_service = record {
  id = 60;
  freelancer_id = 2;
  status = ServiceStatus.active;
  requirement_questions = [];
  packages = sample_package ∷ [];
  orders_count = 0;
}

abbrev shop_db : Db
shop_db = record sample_db { services = sample_service ∷ [] }

abbrev placed_db : Db
placed_db =
    request (place_order sample_settings sample_gateway 10 false 1 60 61 PaymentProvider.qi_card)
      shop_db

abbrev paid_db : Db
paid_db =
    request (confirm_qi_card_payment sample_settings 20 (gig_order_ref 100) "signed") placed_db

abbrev delivered_db : Db
delivered_db = request (mark_delivered 30 100 2 "done" []) paid_db

abbrev expired_db : Db
expired_db = (expire_stale_pending_orders 2_000 placed_db).1

states :
    (map (λ o. o.status) placed_db.orders ≡ ServiceOrderStatus.pending ∷ [])
    × (map (λ o. o.status) paid_db.orders ≡ ServiceOrderStatus.in_progress ∷ [])
    × (map (λ o. o.status) delivered_db.orders ≡ ServiceOrderStatus.delivered ∷ [])
    × (map (λ o. o.status) expired_db.orders ≡ ServiceOrderStatus.cancelled ∷ [])
    × (map (λ v. v.orders_count) placed_db.services ≡ 1 ∷ [])
    × (map (λ v. v.orders_count) expired_db.services ≡ 0 ∷ [])
unfolding runs
states = (refl, refl, refl, refl, refl, refl)

abbrev placed_order : ServiceOrder
placed_order = new_order 100 10 1 sample_service sample_package

abbrev delivered_order : ServiceOrder
delivered_order = record placed_order {
  status = ServiceOrderStatus.delivered;
  delivered_at = some 30;
}

abbrev paid_escrow : Escrow
paid_escrow =
    fund 20 (order_escrow 102 (calculate_fees 1000 1_000_000_000) 1 sample_service 100 101)

complete_order-pays_example :
    (db' : Db) × (complete_order 40 100 1 delivered_db ≡ ok (100, db'))
    × (order_rows 100 db' ≡ complete 40 delivered_order ∷ [])
    × (funded_order_rows 100 db' ≡ [])
    × (total_released 2 db'.transactions ≡ total_released 2 delivered_db.transactions + 900_000_000)
unfolding runs
complete_order-pays_example =
    complete_order-pays 40 100 delivered_order paid_escrow delivered_db refl refl refl (tt, tt)
      (omega arith) (omega arith)

raise_dispute-freezes_example :
    let db = request (raise_dispute 40 100 1 []) delivered_db in
    (funded_order_rows 100 db ≡ [])
    × ((later who : ℕ) → (e : Error) × (complete_order later 100 who db ≡ err e))
unfolding runs
raise_dispute-freezes_example =
    raise_dispute-freezes 40 100 1 [] delivered_db
      {r = (100, request (raise_dispute 40 100 1 []) delivered_db)} refl

-- One revision, then the completion; a later dispute is refused.
abbrev history : List (ℕ × Call)
history =
    (20, confirms (gig_order_ref 100) "signed")
    ∷ (30, delivers 100 2 "done" [])
    ∷ (40, revises 100 1)
    ∷ (50, delivers 100 2 "done again" [])
    ∷ (60, completes 100 1)
    ∷ (70, raises 100 1 [])
    ∷ []

history-run :
    map (λ o. o.status) (run sample_settings history placed_db).orders
    ≡ ServiceOrderStatus.completed ∷ []
unfolding runs run step
history-run = refl

run-Reaches_example :
    (p : ServiceOrder) × (order_rows 100 (run sample_settings history placed_db) ≡ p ∷ [])
    × Reaches ServiceOrderStatus.pending p.status
unfolding runs
run-Reaches_example = run-Reaches sample_settings 100 history placed_db placed_order refl

run-final_example :
    (p : ServiceOrder) × (order_rows 100 (run sample_settings history expired_db) ≡ p ∷ [])
    × (p.status ≡ ServiceOrderStatus.cancelled)
unfolding runs
run-final_example =
    run-final sample_settings 100 history expired_db
      (record placed_order { status = ServiceOrderStatus.cancelled }) refl refl
