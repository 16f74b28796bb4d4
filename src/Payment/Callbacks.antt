-- ===== src/Payment/Callbacks.antt =====
-- What the gateways' redirects do (backend/app/services/payment_service.py,
-- `confirm_qi_card_payment` and `handle_qi_card_payment_failed`).
use text.Mathlib.TextEquality.{eq_iff}
use kaasb.Common.{
  ◌≢◌, ◌⊎◌, ℕ, ◌≡◌, refl, ap, ◌∙◌, select-update_row, String, Bool, true, false, Option, none, some,
  List, [], ◌∷◌, inl, inr, select, arith, Bool-cases,
}
use kaasb.Db.{
  ◌is◌, transaction_coded, update_transaction, Db, ok, err, ◌>>◌, pure, to_list, find-inv,
  find_one-run, find_one-multiple, multiple_results, bind-inv, ExternalRef, Transaction, Escrow,
  TransactionStatus,
}
use kaasb.Payment.Settings.{Settings}
use kaasb.Payment.Confirm.{
  complete_transaction, escrow_rows, funding_rows, is_funding_of, settle_found, pending_rows,
  fail_found, verify_order_sig, mark_funded, start_order, settle, confirm_qi_card_payment,
  handle_qi_card_payment_failed,
}

forged-refused :
    (s : Settings) (ref : ExternalRef) (sig : String)
    → (sig ≡ "") ⊎ (sig ≢ s.sign_order_id ref)
    → verify_order_sig s ref sig ≡ false
unfolding verify_order_sig
forged-refused s ref sig (inl empty) = rw empty refl
forged-refused s ref sig (inr other) =
    ground (arith, eq_iff sig "", eq_iff (s.sign_order_id ref) sig)

-- A redirect whose signature is empty or is not the HMAC of its reference is refused: neither the
-- success nor the failure redirect changes anything.
pub forged_redirect :
    (s : Settings) (now : ℕ) (ref : ExternalRef) (sig : String) (db : Db)
    → (sig ≡ "") ⊎ (sig ≢ s.sign_order_id ref)
    → (confirm_qi_card_payment s now ref sig db ≡ ok (false, db))
      × (handle_qi_card_payment_failed s ref sig db ≡ ok (false, db))
unfolding confirm_qi_card_payment handle_qi_card_payment_failed
forged_redirect s now ref sig db h =
    let refused = forged-refused s ref sig h in (rw refused, rw refused)

pub start_order-keeps :
    (ref : ExternalRef) (db db' : Db) (u : Unit {0})
    → start_order ref db ≡ ok (u, db')
    → (db'.transactions ≡ db.transactions) × (db'.escrows ≡ db.escrows) × (db'.next_id ≡ db.next_id)
unfolding start_order
start_order-keeps (ExternalRef.escrow_ref k) db db' u h = ground arith
start_order-keeps (ExternalRef.gig_order_ref k) db db' u h = ground arith
start_order-keeps (ExternalRef.gig_order_text k) db db' u h = ground arith
start_order-keeps (ExternalRef.operation k) db db' u h = ground arith
start_order-keeps (ExternalRef.generated k) db db' u h = ground arith

pub mark_funded-keeps :
    (now : ℕ) (e : Option Escrow) (db db' : Db) (u : Unit {0})
    → mark_funded now e db ≡ ok (u, db')
    → (db'.transactions ≡ db.transactions) × (db'.next_id ≡ db.next_id)
unfolding mark_funded
mark_funded-keeps now none db db' u h = ground arith
mark_funded-keeps now (some e) db db' u h = ground arith

-- The transactions once one is completed.
abbrev completed : ℕ → Transaction → Db → Db
completed now t db = record db {
  transactions = update_transaction t.id (complete_transaction now) db.transactions;
}

-- A confirmation that finds an open transaction: the escrow that it funds, and the writes.
pub settle-inv :
    (now : ℕ) (ref : ExternalRef) (t : Transaction) (db : Db) {r : Bool × Db}
    → (t.status is TransactionStatus.completed) ≡ false
    → settle now ref t db ≡ ok r
    → (e : Option Escrow) × (db1 : Db) × (escrow_rows t.id db ≡ to_list e)
      × (mark_funded now e (completed now t db) ≡ ok (tt, db1))
      × (start_order ref db1 ≡ ok (tt, r.1))
      × (r.0 ≡ true)
unfolding settle
settle-inv now ref t db fresh h =
    let h' = rw fresh at h in
    let (e, found, h1) =
      find-inv (escrow_rows t.id) (λ e. mark_funded now e >> (start_order ref >> pure true))
        (completed now t db) h' in
    let (u, db1, marked, h2) =
      bind-inv (mark_funded now e) (λ _. start_order ref >> pure true) _ h1 in
    let (u', db2, started, h3) = bind-inv (start_order ref) (λ _. pure true) db1 h2 in
    (e, db1, found, marked, cc, cc)

pub settle-transactions :
    (now : ℕ) (ref : ExternalRef) (t : Transaction) (db : Db) {r : Bool × Db}
    → (t.status is TransactionStatus.completed) ≡ false
    → settle now ref t db ≡ ok r
    → (r.1.transactions ≡ update_transaction t.id (complete_transaction now) db.transactions)
      × (r.1.next_id ≡ db.next_id)
settle-transactions now ref t db {r} fresh h =
    let (e, db1, found, marked, started, same) = settle-inv now ref t db fresh h in
    let kept = start_order-keeps ref db1 r.1 tt started in
    let kept' = mark_funded-keeps now e (completed now t db) db1 tt marked in
    (kept.0 ∙ kept'.0, kept.2 ∙ kept'.1)

-- A confirmation that answers `true` has a valid signature and one transaction.
pub confirm-inv :
    (s : Settings) (now : ℕ) (ref : ExternalRef) (sig : String) (db db' : Db)
    → confirm_qi_card_payment s now ref sig db ≡ ok (true, db')
    → (verify_order_sig s ref sig ≡ true)
      × ((t : Transaction) × (funding_rows ref db ≡ t ∷ [])
          × (settle now ref t db ≡ ok (true, db')))
unfolding confirm_qi_card_payment
confirm-inv s now ref sig db db' h = elim (Bool-cases (verify_order_sig s ref sig)) [
  | inr forged ↦ absurd (cc (rw forged at h))
  | inl valid ↦
      let (a, e, h') = find-inv (funding_rows ref) (settle_found now ref) db (rw valid at h) in
      (valid, confirmed a e h')
]
  where
    confirmed :
        (a : Option Transaction)
        → funding_rows ref db ≡ to_list a
        → settle_found now ref a db ≡ ok (true, db')
        → (t : Transaction) × (funding_rows ref db ≡ t ∷ [])
          × (settle now ref t db ≡ ok (true, db'))
    confirmed none e h' = absurd (cc)
    confirmed (some t) e h' = (t, e, h')

pub settle-completed :
    (now : ℕ) (ref : ExternalRef) (t : Transaction) (db db' : Db) {b : Bool}
    → (t.status is TransactionStatus.completed) ≡ true
    → settle now ref t db ≡ ok (b, db')
    → db ≡ db'
unfolding settle
settle-completed now ref t db db' done h = cc (rw done at h)

confirm-completed :
    (s : Settings) (now : ℕ) (ref : ExternalRef) (sig : String) (t : Transaction) (db : Db)
    → verify_order_sig s ref sig ≡ true
    → funding_rows ref db ≡ t ∷ []
    → (t.status is TransactionStatus.completed) ≡ true
    → confirm_qi_card_payment s now ref sig db ≡ ok (true, db)
unfolding confirm_qi_card_payment settle
confirm-completed s now ref sig t db v e c =
    rw v (find_one-run (funding_rows ref) (settle_found now ref) db (some t) e ∙ rw c refl)

-- Completing the transaction that a redirect found keeps it the one that the redirect finds.
completed-funding_rows :
    (now : ℕ) (ref : ExternalRef) (t : Transaction) (ts : List Transaction)
    → select (is_funding_of ref) ts ≡ t ∷ []
    → select (is_funding_of ref) (update_transaction t.id (complete_transaction now) ts)
      ≡ complete_transaction now t ∷ []
completed-funding_rows now ref t ts e =
    select-update_row (λ u. u.id) (is_funding_of ref) t.id (complete_transaction now) (λ _. refl) ts
    ∙ rw e (ground arith)

settle-funding_rows :
    (now : ℕ) (ref : ExternalRef) (t : Transaction) (db db' : Db)
    → funding_rows ref db ≡ t ∷ []
    → settle now ref t db ≡ ok (true, db')
    → (u : Transaction) × (funding_rows ref db' ≡ u ∷ [])
      × ((u.status is TransactionStatus.completed) ≡ true)
settle-funding_rows now ref t db db' e h =
    elim (Bool-cases (t.status is TransactionStatus.completed)) [
      | inl done ↦ (t, rw (← settle-completed now ref t db db' done h) e, done)
      | inr fresh ↦ (
        complete_transaction now t,
        ap (select (is_funding_of ref)) ((settle-transactions now ref t db fresh h).0)
            ∙ completed-funding_rows now ref t db.transactions e,
        refl,
      )
    ]

-- One redirect that confirms a payment, repeated, confirms it again and changes nothing.
pub confirm_repeated :
    (s : Settings) (now later : ℕ) (ref : ExternalRef) (sig : String) (db db' : Db)
    → confirm_qi_card_payment s now ref sig db ≡ ok (true, db')
    → confirm_qi_card_payment s later ref sig db' ≡ ok (true, db')
confirm_repeated s now later ref sig db db' h =
    let (v, found) = confirm-inv s now ref sig db db' h in
    let (t, e, h') = found in
    let (u, e', c) = settle-funding_rows now ref t db db' e h' in
    confirm-completed s later ref sig u db' v e' c

pub confirm-multiple :
    (s : Settings) (now : ℕ) (ref : ExternalRef) (sig : String) (a b : Transaction)
    (rest : List Transaction) (db : Db)
    → verify_order_sig s ref sig ≡ true
    → funding_rows ref db ≡ a ∷ b ∷ rest
    → confirm_qi_card_payment s now ref sig db ≡ err multiple_results
unfolding confirm_qi_card_payment
confirm-multiple s now ref sig a b rest db v e =
    rw v (find_one-multiple (funding_rows ref) (settle_found now ref) db a b rest e)

pub confirm-none :
    (s : Settings) (now : ℕ) (ref : ExternalRef) (sig : String) (db : Db)
    → funding_rows ref db ≡ []
    → confirm_qi_card_payment s now ref sig db ≡ ok (false, db)
unfolding confirm_qi_card_payment
confirm-none s now ref sig db e = elim (Bool-cases (verify_order_sig s ref sig)) [
  | inl valid ↦ rw valid (find_one-run (funding_rows ref) (settle_found now ref) db none e)
  | inr forged ↦ rw forged
]

pub failed-none :
    (s : Settings) (ref : ExternalRef) (sig : String) (db : Db)
    → pending_rows ref db ≡ []
    → handle_qi_card_payment_failed s ref sig db ≡ ok (false, db)
unfolding handle_qi_card_payment_failed
failed-none s ref sig db e = elim (Bool-cases (verify_order_sig s ref sig)) [
  | inl valid ↦ rw valid (find_one-run (pending_rows ref) fail_found db none e)
  | inr forged ↦ rw forged
]
