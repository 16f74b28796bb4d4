-- ===== src/Payment/Calls.antt =====
-- The requests that move money (backend/app/services/payment_service.py), as one type, and a history
-- of them, with the bounds that the schema puts on a payout: each request is one transaction of the database, which serialises them by row locks.
use kaasb.Common.{ℕ, String, List, [], ◌∷◌, not}
use kaasb.Db.{Db, ◌>>◌, raise_if, validation_error, request, PaymentProvider, ExternalRef}
use kaasb.Payment.Settings.{Settings, Gateway}
use kaasb.Payment.Fund.{fund_escrow}
use kaasb.Payment.Confirm.{confirm_qi_card_payment, handle_qi_card_payment_failed}
use kaasb.Payment.Release.{release_escrow, release_escrow_by_id}
use kaasb.Payment.Refund.{refund_escrow_by_service_order, refund_escrow}
use kaasb.Payment.Payout.{is_payout_request, request_payout, mark_payout_paid}

pub data Call : Type 0 where
  funds : ℕ → ℕ → PaymentProvider → Call
  confirms fails : ExternalRef → String → Call
  releases releases_by_id refunds refunds_order : ℕ → Call
  withdraws : ℕ → ℕ → ℕ → Call
  marks_paid : ℕ → ℕ → Call

module _ (s : Settings) (g : Gateway) where
  unfoldable pub step : ℕ × Call → Db → Db
  step (now, funds client milestone provider) = request (fund_escrow s g client milestone provider)
  step (now, confirms ref sig) = request (confirm_qi_card_payment s now ref sig)
  step (now, fails ref sig) = request (handle_qi_card_payment_failed s ref sig)
  step (now, releases milestone) = request (release_escrow now milestone)
  step (now, releases_by_id escrow) = request (release_escrow_by_id now escrow)
  step (now, refunds milestone) = request (refund_escrow g now milestone)
  step (now, refunds_order order) = request (refund_escrow_by_service_order now order)
  step (now, withdraws user account amount) = request do
    raise_if (not (is_payout_request amount)) validation_error
    request_payout s now user account amount
  step (now, marks_paid transaction admin) = request (mark_payout_paid now transaction admin)

  unfoldable pub run : List (ℕ × Call) → Db → Db
  run [] db = db
  run (c ∷ cs) db = run cs (step c db)
