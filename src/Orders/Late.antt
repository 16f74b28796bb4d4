-- ===== src/Orders/Late.antt =====
-- A payment that arrives when its order no longer waits for it
-- (backend/app/services/payment_service.py, `confirm_qi_card_payment`).
use kaasb.Db.{transaction_coded, Db, order_coded, escrow_coded}
use kaasb.Payment.Settings.{Settings}
