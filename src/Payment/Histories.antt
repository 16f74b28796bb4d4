-- ===== src/Payment/Histories.antt =====
-- Refunds, payouts and any history of money requests keep the predicates of single rows
-- (backend/app/services/payment_service.py).
use kaasb.Common.{
  ℕ, ◌≡◌, refl, Bool, true, false, Option, none, some, List, [], ◌∷◌, if◌then◌else◌, not,
}
use kaasb.Db.{
  Db, ◌>>◌, pure, raise_if, notify, new_id, set_escrow, set_transaction, add_transaction,
  bad_request, validation_error, not_found, audit_log, ◌is◌, Keeps, Keeps-pure, Keeps-raise,
  Keeps-bind, Keeps-modify, Keeps-raise_if, Keeps-when, when, PaymentAccount, Keeps-find,
  Keeps-request, Transaction, TransactionType, TransactionStatus, Escrow, NotificationType,
  transaction_type_coded, transaction_coded, escrow_coded, payout_completed,
}
use kaasb.Payment.Settings.{Settings, Gateway}
use kaasb.Payment.Release.{funded_milestone_rows}
use kaasb.Payment.Refund.{
  refund_transaction, mark_refunded, refundable_order_rows, refund_order_escrow, refund_order_found,
  refund_escrow_by_service_order, original_rows, payment_ref, gateway_refunded, refund_recorded,
  refund_found, refund_escrow,
}
use kaasb.Payment.Payout.{
  complete_payout, pay_transaction, pay_found, transaction_rows, mark_payout_paid, request_payout,
  is_payout_request, notify_payee, paid_entry, payout_transaction, own_accounts, payout_account,
  record_payout,
}
use kaasb.Payment.Solvency.Payout.{payout_checked-inv}
use kaasb.Payment.Calls.{
  Call, funds, confirms, fails, releases, releases_by_id, refunds, refunds_order, withdraws,
  marks_paid, step, run,
}
use kaasb.Payment.Kept.{
  IsKept, Rows, Keeps-new_id, Keeps-notify, Keeps-add_transaction, Keeps-set_transaction,
  Keeps-set_escrow, Keeps-release_escrow, Keeps-release_by_id,
}
use kaasb.Payment.Keeping.{Keeps-fund_escrow, Keeps-confirm, Keeps-fails}

module _ (p : Transaction → Bool) (q : Escrow → Bool) (k : IsKept p q) where
  abbrev R : Db → Type 0
  R = Rows p q

  refund_closed :
      (now : ℕ) (i : ℕ) (e : Escrow) → e.id ≡ i → q e ≡ true → q (mark_refunded now e) ≡ true
  refund_closed now i e here h = k.closed e (mark_refunded now e) refl refl refl h

  Keeps-refund_order : (now : ℕ) (e : Option Escrow) → Keeps R (refund_order_found now e)
  unfolding refund_order_escrow
  Keeps-refund_order now none = Keeps-pure R false
  Keeps-refund_order now (some e) = Keeps-bind R new_id _ (Keeps-new_id p q k) λ id.
      Keeps-bind R new_id _ (Keeps-new_id p q k) λ reference.
        let t = refund_transaction id reference TransactionStatus.processing none none none e in
        Keeps-bind R (add_transaction t) _ (Keeps-add_transaction p q k t (k.fresh t refl)) λ _.
          Keeps-bind R (set_escrow e.id (mark_refunded now)) _
            (Keeps-set_escrow p q k e.id (mark_refunded now) (refund_closed now e.id))
            λ _.
              Keeps-bind R (notify e.client_id NotificationType.payment_received) _
                (Keeps-notify p q k _ _) λ _. Keeps-pure R true

  Keeps-refunds_order : (now i : ℕ) → Keeps R (refund_escrow_by_service_order now i)
  unfolding refund_escrow_by_service_order
  Keeps-refunds_order now i =
      Keeps-find R (refundable_order_rows i) (refund_order_found now) (Keeps-refund_order now)

  Keeps-refund_recorded :
      (g : Gateway) (now i : ℕ) (e : Escrow) (original : Option Transaction)
      → Keeps R (refund_recorded g now i e original)
  unfolding refund_recorded
  Keeps-refund_recorded g now i e original =
      let status =
        if gateway_refunded g e (payment_ref original)
        then TransactionStatus.completed
        else TransactionStatus.processing in
      Keeps-bind R new_id _ (Keeps-new_id p q k) λ id.
        Keeps-bind R new_id _ (Keeps-new_id p q k) λ reference.
          let t = refund_transaction id reference status e.contract_id (some i) (some now) e in
          Keeps-bind R (add_transaction t) _ (Keeps-add_transaction p q k t (k.fresh t refl)) λ _.
            Keeps-bind R (set_escrow e.id (mark_refunded now)) _
              (Keeps-set_escrow p q k e.id (mark_refunded now) (refund_closed now e.id))
              λ _. Keeps-pure R true

  Keeps-refund_found :
      (g : Gateway) (now i : ℕ) (e : Option Escrow) → Keeps R (refund_found g now i e)
  Keeps-refund_found g now i none = Keeps-pure R false
  Keeps-refund_found g now i (some e) =
      Keeps-find R (original_rows e) (refund_recorded g now i e) (Keeps-refund_recorded g now i e)

  Keeps-refunds : (g : Gateway) (now i : ℕ) → Keeps R (refund_escrow g now i)
  unfolding refund_escrow
  Keeps-refunds g now i =
      Keeps-find R (funded_milestone_rows i) (refund_found g now i) (Keeps-refund_found g now i)

  Keeps-notify_payee : (u : Option ℕ) (i : ℕ) → Keeps R (notify_payee u >> pure i)
  Keeps-notify_payee none i = Keeps-pure R i
  Keeps-notify_payee (some u) i =
      Keeps-bind R (notify u payout_completed) _ (Keeps-notify p q k _ _) λ _. Keeps-pure R i

  Keeps-pay_found : (now admin : ℕ) (t : Option Transaction) → Keeps R (pay_found now admin t)
  unfolding pay_transaction
  Keeps-pay_found now admin none = Keeps-raise R not_found
  Keeps-pay_found now admin (some t) =
      Keeps-bind R (raise_if (not (t.transaction_type is TransactionType.payout)) bad_request) _
        (Keeps-raise_if R _ _)
        λ _.
          Keeps-bind R (raise_if (not (t.status is TransactionStatus.processing)) bad_request) _
            (Keeps-raise_if R _ _)
            λ _.
              Keeps-bind R (set_transaction t.id (complete_payout now)) _
                (Keeps-set_transaction p q k t.id (complete_payout now) λ x. refl)
                λ _.
                  Keeps-bind R (audit_log (paid_entry now admin t)) _ (Keeps-modify R _ λ db h. h)
                    λ _. Keeps-notify_payee t.payee_id t.id

  Keeps-marks_paid : (now i admin : ℕ) → Keeps R (mark_payout_paid now i admin)
  unfolding mark_payout_paid
  Keeps-marks_paid now i admin =
      Keeps-find R (transaction_rows i) (pay_found now admin) (Keeps-pay_found now admin)

  -- Payouts, where the first predicate holds of every transaction.
  module _ (any : (t : Transaction) → p t ≡ true) (s : Settings) where
    Keeps-record_payout :
        (now user amount : ℕ) (a : PaymentAccount) → Keeps R (record_payout s now user amount a)
    unfolding record_payout
    Keeps-record_payout now user amount a = Keeps-bind R new_id _ (Keeps-new_id p q k) λ id.
        Keeps-bind R new_id _ (Keeps-new_id p q k) λ reference.
          let t = payout_transaction id reference user amount a in
          Keeps-bind R (add_transaction t) _ (Keeps-add_transaction p q k t (any t)) λ _.
            Keeps-bind R
              (when s.auto_complete_payouts
                (set_transaction id (complete_payout now) >> notify user payout_completed))
              _
              (Keeps-when R s.auto_complete_payouts _ (
                Keeps-bind R (set_transaction id (complete_payout now)) _
                  (Keeps-set_transaction p q k id (complete_payout now) λ x. refl)
                  λ _. Keeps-notify p q k user payout_completed))
              λ _. Keeps-pure R id

    Keeps-payout_account :
        (now user amount : ℕ) (a : Option PaymentAccount)
        → Keeps R (payout_account s now user amount a)
    Keeps-payout_account now user amount none = Keeps-raise R not_found
    Keeps-payout_account now user amount (some a) = record {
      keeps = λ db r h old.
          let (_, _, _, recorded) = payout_checked-inv s now user amount a db h in
          (Keeps-record_payout now user amount a).keeps db r recorded old;
    }

    pub Keeps-any_payout :
        (now user account amount : ℕ) → Keeps R (request_payout s now user account amount)
    unfolding request_payout
    Keeps-any_payout now user account amount =
        Keeps-find R (own_accounts user account) (payout_account s now user amount)
          (Keeps-payout_account now user amount)

  -- Payouts are a condition: what they add is for the predicates to say.
  module _ (s : Settings) (g : Gateway)
      (pays : (now user account amount : ℕ)
        → Keeps R (request_payout s now user account amount)) where
    step-Rows : (c : ℕ × Call) (db : Db) → R db → R (step s g c db)
    unfolding step
    step-Rows (now, funds client i provider) db =
        Keeps-request R _ db (Keeps-fund_escrow p q k s g client i provider)
    step-Rows (now, confirms ref sig) db = Keeps-request R _ db (Keeps-confirm p q k s now ref sig)
    step-Rows (now, fails ref sig) db = Keeps-request R _ db (Keeps-fails p q k s ref sig)
    step-Rows (now, releases i) db = Keeps-request R _ db (Keeps-release_escrow p q k now i)
    step-Rows (now, releases_by_id i) db = Keeps-request R _ db (Keeps-release_by_id p q k now i)
    step-Rows (now, refunds i) db = Keeps-request R _ db (Keeps-refunds g now i)
    step-Rows (now, refunds_order i) db = Keeps-request R _ db (Keeps-refunds_order now i)
    step-Rows (now, withdraws user account amount) db = Keeps-request R _ db (
        Keeps-bind R (raise_if (not (is_payout_request amount)) validation_error) _
          (Keeps-raise_if R _ _) λ _. pays now user account amount)
    step-Rows (now, marks_paid i admin) db = Keeps-request R _ db (Keeps-marks_paid now i admin)

    pub run-Rows : (cs : List (ℕ × Call)) (db : Db) → R db → R (run s g cs db)
    unfolding run
    run-Rows [] db h = h
    run-Rows (c ∷ cs) db h = run-Rows cs (step s g c db) (step-Rows c db h)
