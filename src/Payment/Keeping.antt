-- ===== src/Payment/Keeping.antt =====
-- A funding and the gateway's redirects keep the predicates of single rows
-- (backend/app/services/payment_service.py).
use kaasb.Common.{
  ℕ, String, ◌≡◌, refl, sym, subst, Bool, Bool-cases, inl, inr, true, false, Option, none, some,
  List, [], ◌∷◌, All, All-append, All-imp, All-update_row, found-All, arith,
}
use kaasb.Db.{
  Db, ok, ◌>>◌, pure, set_escrow, set_transaction, ◌is◌, holds, to_list, update_escrow,
  update_transaction, Keeps, Keeps-pure, Keeps-bind, Keeps-find, Keeps-if, Transaction,
  TransactionStatus, Escrow, EscrowStatus, ExternalRef, PaymentProvider, transaction_type_coded,
  transaction_coded, escrow_coded,
}
use kaasb.Payment.Settings.{Settings, Gateway}
use kaasb.Payment.Fund.{fund_escrow}
use kaasb.Payment.Opening.{fund_escrow-Funding}
use kaasb.Payment.Confirm.{
  escrow_rows, complete_transaction, fund, mark_funded, settle, settle_found, funding_rows,
  confirm_qi_card_payment, verify_order_sig, fail_transaction, refund_unpaid, fail_found,
  pending_rows, handle_qi_card_payment_failed,
}
use kaasb.Payment.Callbacks.{settle-inv, settle-completed, start_order-keeps, mark_funded-keeps}
use kaasb.Payment.Kept.{IsKept, Rows, Keeps-set_transaction, Keeps-set_escrow}

mark_funded-escrows :
    (now : ℕ) (e : Escrow) (db db' : Db) (u : Unit {0})
    → mark_funded now (some e) db ≡ ok (u, db')
    → db'.escrows ≡ update_escrow e.id (fund now) db.escrows
unfolding mark_funded
mark_funded-escrows now e db db' u h = ground arith

module _ (p : Transaction → Bool) (q : Escrow → Bool) (k : IsKept p q) where
  abbrev R : Db → Type 0
  R = Rows p q

  carry :
      (db : Db) {ts : List Transaction} {es : List Escrow}
      → db.transactions ≡ ts
      → db.escrows ≡ es
      → All (λ t. p t ≡ true) ts
      → All (λ e. q e ≡ true) es
      → R db
  carry db a b x y =
      (subst (All (λ t. p t ≡ true)) (sym a) x, subst (All (λ e. q e ≡ true)) (sym b) y)

  pub Keeps-fund_escrow :
      (s : Settings) (g : Gateway) (client i : ℕ) (provider : PaymentProvider)
      → Keeps R (fund_escrow s g client i provider)
  Keeps-fund_escrow s g client i provider = record {
    keeps = λ db r h old.
        let f = fund_escrow-Funding s g client provider db i h in
        carry r.1 f.opened.transactions f.opened.escrows
          (All-append (λ t. p t ≡ true) db.transactions _ old.0 (k.fresh _ refl, tt))
          (All-append (λ e. q e ≡ true) db.escrows _ old.1 (k.unlinked _ refl refl, tt));
  }

  -- The escrow that the payment's transaction funds has a link.
  funded-All :
      (now tx : ℕ) (e : Escrow) (es : List Escrow) (db : Db)
      → escrow_rows tx db ≡ e ∷ []
      → All (λ x. q x ≡ true) db.escrows
      → All (λ x. q x ≡ true) (update_escrow e.id (fund now) db.escrows)
  funded-All now tx e es db found old =
      let (good, here) =
        found-All (λ x. q x ≡ true) (λ x. holds x.funding_transaction_id tx) e [] db.escrows old
          found in
      All-update_row (λ x. x.id) (λ x. q x ≡ true) e.id (fund now) db.escrows
        (All-imp (λ x. q x ≡ true) (λ x. x.id ≡ e.id → q (fund now x) ≡ true)
          (λ x h same. k.linked tx e x (fund now x) here good same refl h) db.escrows old)
        old

  marked-All :
      (now tx : ℕ) (e : Option Escrow) (db db1 db' : Db)
      → escrow_rows tx db ≡ to_list e
      → db1.escrows ≡ db.escrows
      → mark_funded now e db1 ≡ ok (tt, db')
      → All (λ x. q x ≡ true) db.escrows
      → All (λ x. q x ≡ true) db'.escrows
  unfolding mark_funded
  marked-All now tx none db db1 db' found same h old =
      let kept : db1 ≡ db' = cc in
      subst (λ d. All (λ x. q x ≡ true) d.escrows) kept
        (subst (All (λ x. q x ≡ true)) (sym same) old)
  marked-All now tx (some e) db db1 db' found same h old =
      subst (All (λ x. q x ≡ true)) (sym (mark_funded-escrows now e db1 db' tt h)) (
        subst (λ es. All (λ x. q x ≡ true) (update_escrow e.id (fund now) es)) (sym same)
          (funded-All now tx e [] db found old))

  completed-All :
      (now i : ℕ) (ts : List Transaction)
      → All (λ t. p t ≡ true) ts
      → All (λ t. p t ≡ true) (update_transaction i (complete_transaction now) ts)
  completed-All now i ts old =
      All-update_row (λ t. t.id) (λ t. p t ≡ true) i (complete_transaction now) ts
        (All-imp (λ t. p t ≡ true) (λ t. t.id ≡ i → p (complete_transaction now t) ≡ true)
          (λ t h _. k.moved t (complete_transaction now t) refl h) ts old)
        old

  Keeps-settle : (now : ℕ) (ref : ExternalRef) (t : Transaction) → Keeps R (settle now ref t)
  Keeps-settle now ref t = record {
    keeps = λ db r h old. elim (Bool-cases (t.status is TransactionStatus.completed)) [
      | inl done ↦ subst R (settle-completed now ref t db r.1 done h) old
      | inr open_state ↦
          let (e, db1, found, marked, started, _) = settle-inv now ref t db open_state h in
          let (ts, es, _) = start_order-keeps ref db1 r.1 tt started in
          let (ts1, _) = mark_funded-keeps now e _ db1 tt marked in
          carry r.1 ts es
            (subst (All (λ x. p x ≡ true)) (sym ts1) (completed-All now t.id db.transactions old.0))
            (marked-All now t.id e db _ db1 found refl marked old.1)
    ];
  }

  pub Keeps-confirm :
      (s : Settings) (now : ℕ) (ref : ExternalRef) (sig : String)
      → Keeps R (confirm_qi_card_payment s now ref sig)
  unfolding confirm_qi_card_payment
  Keeps-confirm s now ref sig =
      Keeps-if R (verify_order_sig s ref sig) _ _
        (Keeps-find R (funding_rows ref) (settle_found now ref) found) (Keeps-pure R false)
    where
      found : (t : Option Transaction) → Keeps R (settle_found now ref t)
      found none = Keeps-pure R false
      found (some t) = Keeps-settle now ref t

  pub Keeps-fails :
      (s : Settings) (ref : ExternalRef) (sig : String)
      → Keeps R (handle_qi_card_payment_failed s ref sig)
  unfolding handle_qi_card_payment_failed
  Keeps-fails s ref sig =
      Keeps-if R (verify_order_sig s ref sig) _ _ (Keeps-find R (pending_rows ref) fail_found found)
        (Keeps-pure R false)
    where
      unpaid : (e : Option Escrow) → Keeps R (refund_unpaid e >> pure true)
      unpaid none = Keeps-pure R true
      unpaid (some e) =
          Keeps-bind R (set_escrow e.id λ x. record x { status = EscrowStatus.refunded }) _
            (Keeps-set_escrow p q k e.id _ λ x here h. k.closed x _ refl refl refl h)
            λ _. Keeps-pure R true

      found : (t : Option Transaction) → Keeps R (fail_found t)
      found none = Keeps-pure R false
      found (some t) =
          Keeps-bind R (set_transaction t.id fail_transaction) _
            (Keeps-set_transaction p q k t.id fail_transaction λ x. refl)
            λ _. Keeps-find R (escrow_rows t.id) (λ e. refund_unpaid e >> pure true) unpaid
