-- ===== src/Payment/Solvency/Funding.antt =====
-- Funding an escrow and the gateway's redirects keep the ledger
-- (backend/app/services/payment_service.py).
use kaasb.Common.{
  ℕ, suc, ◌≡◌, refl, subst, String, Bool, true, false, Option, none, some, [], ◌∷◌, found-test,
  Bool-cases, inl, inr, arith,
}
use kaasb.Db.{
  Db, ok, ◌is◌, transaction_coded, update_transaction, find-inv, to_list, PaymentProvider,
  TransactionStatus, Transaction, ExternalRef, escrow_ref,
}
use kaasb.Payment.Settings.{Settings, Gateway}
use kaasb.Payment.Fees.{calculate_fees}
use kaasb.Payment.Fund.{fund_escrow, gateway_ref, funding_transaction}
use kaasb.Payment.Confirm.{
  confirm_qi_card_payment, handle_qi_card_payment_failed, settle, complete_transaction,
  funding_rows, is_funding_of, pending_rows, is_pending_of, fail_transaction, fail_found,
  verify_order_sig, settle_found,
}
use kaasb.Payment.Payout.{paid_share, released_share}
use kaasb.Payment.Callbacks.{settle-transactions, settle-completed}
use kaasb.Payment.Opening.{fund_escrow-Funding}
use kaasb.Payment.Ledger.{IsLedger-append, IsLedger-update}
use kaasb.Payment.Solvency.Base.{IsSound, carry, unchanged, shares-found}

pub fund_escrow-IsSound :
    (s : Settings) (g : Gateway) (client k : ℕ) (provider : PaymentProvider) (db : Db) {r : ℕ × Db}
    → fund_escrow s g client k provider db ≡ ok r
    → IsSound db
    → IsSound r.1
fund_escrow-IsSound s g client k provider db {r} h l =
    let f = fund_escrow-Funding s g client provider db k h in
    let t =
      funding_transaction db.next_id (calculate_fees s.platform_fee_percent f.milestone.amount)
        client f.contract k provider (gateway_ref provider f.operation_id (escrow_ref k)) in
    carry r.1 f.opened.transactions f.opened.next_id
      (IsLedger-append t (suc (suc db.next_id)) (omega arith) (omega arith) (λ u. ground arith) l)

complete_shares :
    (ref : ExternalRef) (now u : ℕ) (t : Transaction)
    → is_funding_of ref t ≡ true
    → (paid_share u (complete_transaction now t) ≡ paid_share u t)
      × (released_share u (complete_transaction now t) ≡ released_share u t)
complete_shares ref now u t h = ground arith

fail_shares :
    (ref : ExternalRef) (u : ℕ) (t : Transaction)
    → is_pending_of ref t ≡ true
    → (paid_share u (fail_transaction t) ≡ paid_share u t)
      × (released_share u (fail_transaction t) ≡ released_share u t)
fail_shares ref u t h = ground arith

settle-IsSound :
    (now : ℕ) (ref : ExternalRef) (t : Transaction) (db : Db) {r : Bool × Db}
    → funding_rows ref db ≡ t ∷ []
    → settle now ref t db ≡ ok r
    → IsSound db
    → IsSound r.1
settle-IsSound now ref t db {r} e h l =
    elim (Bool-cases (t.status is TransactionStatus.completed)) [
      | inl done ↦ subst IsSound (settle-completed now ref t db r.1 done h) l
      | inr fresh ↦
          let (moved, same) = settle-transactions now ref t db fresh h in
          let p = is_funding_of ref in
          let shares =
            λ (u : ℕ). complete_shares ref now u t (found-test p t [] db.transactions e) in
          let f = complete_transaction now in
          carry r.1 moved same (
            IsLedger-update t.id f (λ _. refl)
              (λ u. shares-found (paid_share u) p f t db.transactions l e (shares u).0)
              (λ u. shares-found (released_share u) p f t db.transactions l e (shares u).1) l)
    ]

settle_found-IsSound :
    (now : ℕ) (ref : ExternalRef) (a : Option Transaction) (db : Db) {r : Bool × Db}
    → funding_rows ref db ≡ to_list a
    → settle_found now ref a db ≡ ok r
    → IsSound db
    → IsSound r.1
settle_found-IsSound now ref none db {r} e h l = unchanged false db r h l
settle_found-IsSound now ref (some t) db e h l = settle-IsSound now ref t db e h l

pub confirm-IsSound :
    (s : Settings) (now : ℕ) (ref : ExternalRef) (sig : String) (db : Db) {r : Bool × Db}
    → confirm_qi_card_payment s now ref sig db ≡ ok r
    → IsSound db
    → IsSound r.1
unfolding confirm_qi_card_payment
confirm-IsSound s now ref sig db {r} h l = elim (Bool-cases (verify_order_sig s ref sig)) [
  | inr forged ↦ unchanged false db r (rw forged at h) l
  | inl valid ↦
      let (a, e, h') = find-inv (funding_rows ref) (settle_found now ref) db (rw valid at h) in
      settle_found-IsSound now ref a db e h' l
]

fail_found-moves :
    (t : Transaction) (db : Db) {r : Bool × Db}
    → fail_found (some t) db ≡ ok r
    → (r.1.transactions ≡ update_transaction t.id fail_transaction db.transactions)
      × (r.1.next_id ≡ db.next_id)
fail_found-moves t db h = (ground arith, ground arith)

fail_found-IsSound :
    (ref : ExternalRef) (a : Option Transaction) (db : Db) {r : Bool × Db}
    → pending_rows ref db ≡ to_list a
    → fail_found a db ≡ ok r
    → IsSound db
    → IsSound r.1
fail_found-IsSound ref none db {r} e h l = unchanged false db r h l
fail_found-IsSound ref (some t) db {r} e h l =
    let (moved, same) = fail_found-moves t db h in
    let p = is_pending_of ref in
    let shares = λ (u : ℕ). fail_shares ref u t (found-test p t [] db.transactions e) in
    carry r.1 moved same (
      IsLedger-update t.id fail_transaction (λ _. refl)
        (λ u. shares-found (paid_share u) p fail_transaction t db.transactions l e (shares u).0)
        (λ u. shares-found (released_share u) p fail_transaction t db.transactions l e (shares u).1)
        l)

pub failed-IsSound :
    (s : Settings) (ref : ExternalRef) (sig : String) (db : Db) {r : Bool × Db}
    → handle_qi_card_payment_failed s ref sig db ≡ ok r
    → IsSound db
    → IsSound r.1
unfolding handle_qi_card_payment_failed
failed-IsSound s ref sig db {r} h l = elim (Bool-cases (verify_order_sig s ref sig)) [
  | inr forged ↦ unchanged false db r (rw forged at h) l
  | inl valid ↦
      let (a, e, h') = find-inv (pending_rows ref) fail_found db (rw valid at h) in
      fail_found-IsSound ref a db e h' l
]
