-- ===== src/Payment/Solvency/Runs.antt =====
-- The ledger through any history of requests (backend/app/services/payment_service.py).
use kaasb.Common.{ℕ, ◌+◌, ◌≤◌, List, [], ◌∷◌, not}
use kaasb.Db.{Db, ◌>>◌, raise_if, raise_if-inv, validation_error, request-keeps}
use kaasb.Payment.Settings.{Settings, Gateway}
use kaasb.Payment.Calls.{
  Call, funds, confirms, fails, releases, releases_by_id, refunds, refunds_order, withdraws,
  marks_paid, step, run,
}
use kaasb.Payment.Fund.{fund_escrow}
use kaasb.Payment.Confirm.{confirm_qi_card_payment, handle_qi_card_payment_failed}
use kaasb.Payment.Release.{release_escrow, release_escrow_by_id}
use kaasb.Payment.Refund.{refund_escrow_by_service_order, refund_escrow}
use kaasb.Payment.Payout.{
  is_payout_request, request_payout, mark_payout_paid, total_released, total_paid_out,
}
use kaasb.Payment.Solvency.Base.{IsSound}
use kaasb.Payment.Solvency.Funding.{fund_escrow-IsSound, confirm-IsSound, failed-IsSound}
use kaasb.Payment.Solvency.Release.{release_escrow-IsSound, release_by_id-IsSound}
use kaasb.Payment.Solvency.Payout.{
  refund_escrow-IsSound, refund_by_order-IsSound, request_payout-IsSound, mark_payout_paid-IsSound,
}

module _ (s : Settings) (g : Gateway) where
  pub step-IsSound : (c : ℕ × Call) (db : Db) → IsSound db → IsSound (step s g c db)
  unfolding step
  step-IsSound (now, funds client k p) db =
      request-keeps IsSound (fund_escrow s g client k p) db
        λ r h. fund_escrow-IsSound s g client k p db h
  step-IsSound (now, confirms ref sig) db =
      request-keeps IsSound (confirm_qi_card_payment s now ref sig) db
        λ r h. confirm-IsSound s now ref sig db h
  step-IsSound (now, fails ref sig) db =
      request-keeps IsSound (handle_qi_card_payment_failed s ref sig) db
        λ r h. failed-IsSound s ref sig db h
  step-IsSound (now, releases k) db =
      request-keeps IsSound (release_escrow now k) db λ r h. release_escrow-IsSound now k db h
  step-IsSound (now, releases_by_id k) db =
      request-keeps IsSound (release_escrow_by_id now k) db λ r h. release_by_id-IsSound now k db h
  step-IsSound (now, refunds k) db =
      request-keeps IsSound (refund_escrow g now k) db λ r h. refund_escrow-IsSound g now k db h
  step-IsSound (now, refunds_order k) db =
      request-keeps IsSound (refund_escrow_by_service_order now k) db
        λ r h. refund_by_order-IsSound now k db h
  step-IsSound (now, withdraws user account amount) db =
      let refused = not (is_payout_request amount) in
      let payout = request_payout s now user account amount in
      request-keeps IsSound (raise_if refused validation_error >> payout) db λ r h.
        request_payout-IsSound s now user account amount db
          (raise_if-inv refused validation_error payout db h).1
  step-IsSound (now, marks_paid k admin) db =
      request-keeps IsSound (mark_payout_paid now k admin) db
        λ r h. mark_payout_paid-IsSound now k admin db h

  run-IsSound : (cs : List (ℕ × Call)) (db : Db) → IsSound db → IsSound (run s g cs db)
  unfolding run
  run-IsSound [] db l = l
  run-IsSound (c ∷ cs) db l = run-IsSound cs (step s g c db) (step-IsSound c db l)

  -- After any history of money requests from a sound ledger, what a user has been paid out, or has
  -- under way, is at most what was released to them and half a hundredth of an IQD.
  pub run_solvent :
      (cs : List (ℕ × Call)) (db : Db) (u : ℕ)
      → IsSound db
      → total_paid_out u (run s g cs db).transactions
        ≤ total_released u (run s g cs db).transactions + 50
  run_solvent cs db u l = (run-IsSound cs db l).solvent u
