-- ===== src/Payment/Solvency/Payout.antt =====
-- Refunds and payouts keep the ledger (backend/app/services/payment_service.py).
use kaasb.Common.{
  ℕ, suc, ◌≤◌, ◌<◌, ◌≡◌, refl, Bool, true, false, Option, none, some, List, [], ◌∷◌, ◌++◌, All,
  All-imp, All-append, Bool-cases, ltb, inl, inr, if◌then◌else◌, ◌==◌, arith,
}
use kaasb.Db.{
  Db, Action, ok, ◌>>=◌, ◌>>◌, gets, raise_if, raise_if-inv, type_error, bad_request, ◌is◌,
  find-inv, to_list, update_transaction, Escrow, Transaction, PaymentAccount, TransactionType,
  TransactionStatus, transaction_coded, transaction_type_coded,
}
use kaasb.Payment.Settings.{Settings, Gateway}
use kaasb.Payment.Refund.{
  refund_order_escrow, refund_escrow_by_service_order, refund_escrow, refund_order_found,
  refund_found, refundable_order_rows, refund_transaction, refund_recorded, gateway_refunded,
  payment_ref, original_rows,
}
use kaasb.Payment.Release.{funded_milestone_rows}
use kaasb.Payment.Payout.{
  paid_share, released_share, request_payout, mark_payout_paid, record_payout, payout_transaction,
  complete_payout, own_accounts, pay_transaction, pay_found, transaction_rows, payout_account,
  payout_checked, is_refused, is_mixed,
}
use kaasb.Payment.Ledger.{IsLedger, IsLedger-append, IsLedger-update, IsLedger-payout}
use kaasb.Payment.Solvency.Base.{IsSound, carry, unchanged, shares-found}

refund_order-IsSound :
    (now : ℕ) (e : Escrow) (db : Db) {r : Bool × Db}
    → refund_order_escrow now e db ≡ ok r
    → IsSound db
    → IsSound r.1
unfolding refund_order_escrow
refund_order-IsSound now e db {r} h l =
    let n = db.next_id in
    let t = refund_transaction n (suc n) TransactionStatus.processing none none none e in
    carry r.1 {ts = db.transactions ++ t ∷ []} {n = suc (suc n)} (ground arith) (ground arith)
      (IsLedger-append t (suc (suc n)) (omega arith) (omega arith) (λ u. ground arith) l)

refund_order_found-IsSound :
    (now : ℕ) (e : Option Escrow) (db : Db) {r : Bool × Db}
    → refund_order_found now e db ≡ ok r
    → IsSound db
    → IsSound r.1
refund_order_found-IsSound now none db {r} h l = unchanged false db r h l
refund_order_found-IsSound now (some e) db h l = refund_order-IsSound now e db h l

pub refund_by_order-IsSound :
    (now k : ℕ) (db : Db) {r : Bool × Db}
    → refund_escrow_by_service_order now k db ≡ ok r
    → IsSound db
    → IsSound r.1
unfolding refund_escrow_by_service_order
refund_by_order-IsSound now k db h l =
    let (e, _, h') = find-inv (refundable_order_rows k) (refund_order_found now) db h in
    refund_order_found-IsSound now e db h' l

refund_recorded-IsSound :
    (g : Gateway) (now k : ℕ) (e : Escrow) (original : Option Transaction) (db : Db) {r : Bool × Db}
    → refund_recorded g now k e original db ≡ ok r
    → IsSound db
    → IsSound r.1
unfolding refund_recorded
refund_recorded-IsSound g now k e original db {r} h l =
    let n = db.next_id in
    let succeeded = gateway_refunded g e (payment_ref original) in
    let status = if succeeded then TransactionStatus.completed else TransactionStatus.processing in
    let t = refund_transaction n (suc n) status e.contract_id (some k) (some now) e in
    carry r.1 {ts = db.transactions ++ t ∷ []} {n = suc (suc n)} (ground arith) (ground arith)
      (IsLedger-append t (suc (suc n)) (omega arith) (omega arith) (λ u. ground arith) l)

refund_found-IsSound :
    (g : Gateway) (now k : ℕ) (e : Option Escrow) (db : Db) {r : Bool × Db}
    → refund_found g now k e db ≡ ok r
    → IsSound db
    → IsSound r.1
refund_found-IsSound g now k none db {r} h l = unchanged false db r h l
refund_found-IsSound g now k (some e) db h l =
    let (original, _, h') = find-inv (original_rows e) (refund_recorded g now k e) db h in
    refund_recorded-IsSound g now k e original db h' l

pub refund_escrow-IsSound :
    (g : Gateway) (now k : ℕ) (db : Db) {r : Bool × Db}
    → refund_escrow g now k db ≡ ok r
    → IsSound db
    → IsSound r.1
unfolding refund_escrow
refund_escrow-IsSound g now k db h l =
    let (e, _, h') = find-inv (funded_milestone_rows k) (refund_found g now k) db h in
    refund_found-IsSound g now k e db h' l

-- A payout that is under way or completed has the same shares.
payout_shares :
    (now u : ℕ) (t : Transaction)
    → (t.transaction_type is TransactionType.payout) ≡ true
    → (t.status is TransactionStatus.processing) ≡ true
    → (paid_share u (complete_payout now t) ≡ paid_share u t)
      × (released_share u (complete_payout now t) ≡ released_share u t)
payout_shares now u t kind status = ground arith

pay_transaction-inv :
    (now admin : ℕ) (t : Transaction) (db : Db) {r : ℕ × Db}
    → pay_transaction now admin t db ≡ ok r
    → ((t.transaction_type is TransactionType.payout) ≡ true)
      × ((t.status is TransactionStatus.processing) ≡ true)
      × (r.1.transactions ≡ update_transaction t.id (complete_payout now) db.transactions)
      × (r.1.next_id ≡ db.next_id)
unfolding pay_transaction
pay_transaction-inv now admin t db h = (ground arith, ground arith, ground arith, ground arith)

pay_found-IsSound :
    (now admin k : ℕ) (t : Option Transaction) (db : Db) {r : ℕ × Db}
    → transaction_rows k db ≡ to_list t
    → pay_found now admin t db ≡ ok r
    → IsSound db
    → IsSound r.1
pay_found-IsSound now admin k none db e h l = absurd (cc)
pay_found-IsSound now admin k (some t) db {r} e h l =
    let (kind, status, moved, same) = pay_transaction-inv now admin t db h in
    let p : Transaction → Bool = λ x. x.id == k in
    let f = complete_payout now in
    carry r.1 moved same (
      IsLedger-update t.id f (λ _. refl)
        (λ u.
          shares-found (paid_share u) p f t db.transactions l e
            (payout_shares now u t kind status).0)
        (λ u.
          shares-found (released_share u) p f t db.transactions l e
            (payout_shares now u t kind status).1)
        l)

pub mark_payout_paid-IsSound :
    (now k admin : ℕ) (db : Db) {r : ℕ × Db}
    → mark_payout_paid now k admin db ≡ ok r
    → IsSound db
    → IsSound r.1
unfolding mark_payout_paid
mark_payout_paid-IsSound now k admin db h l =
    let (t, e, h') = find-inv (transaction_rows k) (pay_found now admin) db h in
    pay_found-IsSound now admin k t db e h' l

-- The row that `record_payout` adds, and the state that it leaves.
abbrev new_payout : ℕ → ℕ → PaymentAccount → Db → Transaction
new_payout user amount account db =
    payout_transaction db.next_id (suc db.next_id) user amount account

record_payout-manual :
    (s : Settings) (now user amount : ℕ) (account : PaymentAccount) (db : Db) {r : ℕ × Db}
    → s.auto_complete_payouts ≡ false
    → record_payout s now user amount account db ≡ ok r
    → (r.1.transactions ≡ db.transactions ++ new_payout user amount account db ∷ [])
      × (r.1.next_id ≡ suc (suc db.next_id))
unfolding record_payout
record_payout-manual s now user amount account db manual h = (ground arith, ground arith)

record_payout-auto :
    (s : Settings) (now user amount : ℕ) (account : PaymentAccount) (db : Db) {r : ℕ × Db}
    → s.auto_complete_payouts ≡ true
    → record_payout s now user amount account db ≡ ok r
    → (r.1.transactions
        ≡ update_transaction db.next_id
            (complete_payout now)
            (db.transactions ++ new_payout user amount account db ∷ []))
      × (r.1.next_id ≡ suc (suc db.next_id))
unfolding record_payout
record_payout-auto s now user amount account db auto h = (ground arith, ground arith)

-- Completing the new row changes no share: the older rows have other ids.
new_payout-shares :
    (w : Transaction → ℕ) (f : Transaction → Transaction) (n : ℕ) (t : Transaction)
    (ts : List Transaction)
    → IsLedger ts n
    → w (f t) ≡ w t
    → All (λ x. x.id ≡ n → w (f x) ≡ w x) (ts ++ t ∷ [])
new_payout-shares w f n t ts l same =
    All-append (λ x. x.id ≡ n → w (f x) ≡ w x) ts (t ∷ [])
      (All-imp (λ x. x.id < n) (λ x. x.id ≡ n → w (f x) ≡ w x) (λ x older i. absurd (omega arith))
        ts l.below)
      (λ _. same, tt)

record_payout-IsSound :
    (s : Settings) (now user amount : ℕ) (account : PaymentAccount) (db : Db) {r : ℕ × Db}
    → is_refused s user amount db ≡ false
    → record_payout s now user amount account db ≡ ok r
    → IsSound db
    → IsSound r.1
record_payout-IsSound s now user amount account db {r} within h l =
    let n = db.next_id in
    let t = new_payout user amount account db in
    let paid =
      IsLedger-payout n (suc n) user amount (suc (suc n)) account (omega arith) (omega arith) within
        l in
    elim (Bool-cases s.auto_complete_payouts) [
      | inr manual ↦
          let (moved, next) = record_payout-manual s now user amount account db manual h in
          carry r.1 moved next paid
      | inl auto ↦
          let (moved, next) = record_payout-auto s now user amount account db auto h in
          carry r.1 moved next (
            IsLedger-update n (complete_payout now) (λ _. refl)
              (λ u.
                new_payout-shares (paid_share u) (complete_payout now) n t db.transactions l
                  (ground arith))
              (λ u.
                new_payout-shares (released_share u) (complete_payout now) n t db.transactions l
                  (ground arith))
              paid)
    ]

pub payout_checked-inv :
    (s : Settings) (now user amount : ℕ) (account : PaymentAccount) (db : Db) {r : ℕ × Db}
    → payout_checked s now user amount account db ≡ ok r
    → (is_mixed user db ≡ false)
      × (is_refused s user amount db ≡ false)
      × (s.minimum_payout ≤ amount)
      × (record_payout s now user amount account db ≡ ok r)
unfolding payout_checked
payout_checked-inv s now user amount account db h =
    let record_it = record_payout s now user amount account in
    let last : Action ℕ = raise_if (ltb amount s.minimum_payout) bad_request >> record_it in
    let rest : Action ℕ =
      gets (is_refused s user amount) >>= λ refused. raise_if refused bad_request >> last in
    let (mixed, h1) = raise_if-inv (is_mixed user db) type_error rest db h in
    let (refused, h2) = raise_if-inv (is_refused s user amount db) bad_request last db h1 in
    let (low, h3) = raise_if-inv (ltb amount s.minimum_payout) bad_request record_it db h2 in
    (mixed, refused, ground (arith, low), h3)

payout_account-IsSound :
    (s : Settings) (now user amount : ℕ) (account : Option PaymentAccount) (db : Db) {r : ℕ × Db}
    → payout_account s now user amount account db ≡ ok r
    → IsSound db
    → IsSound r.1
payout_account-IsSound s now user amount none db h l = absurd (cc)
payout_account-IsSound s now user amount (some account) db h l =
    let (_, within, _, recorded) = payout_checked-inv s now user amount account db h in
    record_payout-IsSound s now user amount account db within recorded l

pub request_payout-IsSound :
    (s : Settings) (now user account_id amount : ℕ) (db : Db) {r : ℕ × Db}
    → request_payout s now user account_id amount db ≡ ok r
    → IsSound db
    → IsSound r.1
unfolding request_payout
request_payout-IsSound s now user account_id amount db h l =
    let (a, _, h') =
      find-inv (own_accounts user account_id) (payout_account s now user amount) db h in
    payout_account-IsSound s now user amount a db h' l
