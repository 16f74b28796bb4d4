-- ===== src/Payment/Unpaid.antt =====
-- The money that never moves: the escrow of a milestone is never FUNDED, and no first payout is
-- recorded (backend/app/services/payment_service.py, `fund_escrow` and `request_payout`).
use kaasb.Common.{
  ℕ, suc, ◌≡◌, ◌≢◌, refl, sym, subst, Bool, true, false, Option, none, some, List, [], ◌∷◌, ◌++◌,
  All, All-of, All-imp, All-append, select, select-none, ◌==◌, ◌&&◌, ◌||◌, not, is_some, arith,
}
use kaasb.Db.{
  Db, ok, find-inv, find_one-run, ◌is◌, Keeps, Transaction, TransactionType, Escrow, EscrowStatus,
  PaymentProvider, PaymentAccount, transaction_type_coded, transaction_coded, escrow_coded,
}
use kaasb.Payment.Settings.{Settings, Gateway}
use kaasb.Payment.Fees.{calculate_fees}
use kaasb.Payment.Fund.{fund_escrow, pending_escrow}
use kaasb.Payment.Opening.{fund_escrow-Funding}
use kaasb.Payment.Release.{funded_rows, release_checked, release_escrow_by_id}
use kaasb.Payment.Payout.{
  total_paid_out, total_released, mixes, exceeds_balance, record_payout, own_accounts,
  payout_account, request_payout, round_cents,
}
use kaasb.Payment.Solvency.Payout.{payout_checked-inv}
use kaasb.Payment.Calls.{Call, run}
use kaasb.Payment.Kept.{IsKept, Rows}
use kaasb.Payment.Histories.{run-Rows, Keeps-any_payout}

-- Of the escrows, that with the id `k` is unlinked and not FUNDED.
abbrev stays_unpaid : ℕ → Escrow → Bool
stays_unpaid k e =
    not (e.id == k)
    || (not (is_some e.funding_transaction_id) && not (e.status is EscrowStatus.funded))

unpaid-IsKept : (k : ℕ) → IsKept (λ _. true) (stays_unpaid k)
unpaid-IsKept k = record {
  fresh = λ t h. refl;
  moved = λ t t' same h. refl;
  unlinked = λ e link status. ground arith;
  closed = λ e e' id link status h. ground arith;
  linked = λ tx e x x' link h here same hx. ground arith;
}

not_funded :
    (k : ℕ) (es : List Escrow)
    → All (λ e. stays_unpaid k e ≡ true) es
    → select (λ e. (e.id == k) && (e.status is EscrowStatus.funded)) es ≡ []
not_funded k es h =
    select-none (λ e. (e.id == k) && (e.status is EscrowStatus.funded)) es
      (All-imp (λ e. stays_unpaid k e ≡ true)
        (λ e. ((e.id == k) && (e.status is EscrowStatus.funded)) ≡ false) (λ e u. ground arith) es
        h)

-- The escrow that `fund_escrow` makes for a milestone, under an id that no escrow had, is never
-- FUNDED, through any history of money requests, the client's payment and its confirmation among
-- them: a release by its id returns nothing and changes nothing.
pub fund_escrow-never_funded :
    (s : Settings) (g : Gateway) (client i now : ℕ) (provider : PaymentProvider)
    (cs : List (ℕ × Call)) (db : Db) {r : ℕ × Db}
    → fund_escrow s g client i provider db ≡ ok r
    → All (λ e. e.id ≢ r.0) db.escrows
    → ((e : Escrow) × (r.1.escrows ≡ db.escrows ++ e ∷ []) × (e.id ≡ r.0))
      × (funded_rows r.0 (run s g cs r.1) ≡ [])
      × (release_escrow_by_id now r.0 (run s g cs r.1) ≡ ok (none, run s g cs r.1))
unfolding release_escrow_by_id
fund_escrow-never_funded s g client i now provider cs db {r} h fresh =
    let f = fund_escrow-Funding s g client provider db i h in
    let fees = calculate_fees s.platform_fee_percent f.milestone.amount in
    let e = pending_escrow (suc db.next_id) fees client f.contract i in
    let q = stays_unpaid r.0 in
    let start : All (λ e. q e ≡ true) r.1.escrows =
      subst (All (λ e. q e ≡ true)) (sym f.opened.escrows) (
        All-append (λ e. q e ≡ true) db.escrows (e ∷ [])
          (All-imp (λ e. e.id ≢ r.0) (λ e. q e ≡ true) (λ e other. ground arith) db.escrows fresh)
          ((unpaid-IsKept r.0).unlinked e refl refl, tt)) in
    let kept =
      run-Rows (λ _. true) q (unpaid-IsKept r.0) s g
        (Keeps-any_payout (λ _. true) q (unpaid-IsKept r.0) (λ t. refl) s) cs r.1
        (All-of (λ t. refl) r.1.transactions, start) in
    let gone = not_funded r.0 (run s g cs r.1).escrows kept.1 in
    (
      (e, f.opened.escrows, sym f.opened.id),
      gone,
      find_one-run (funded_rows r.0) (release_checked now) (run s g cs r.1) none gone,
    )

abbrev pub pays_nobody : Transaction → Bool
pays_nobody t = not (t.transaction_type is TransactionType.payout)

payout-IsKept : IsKept pays_nobody (λ _. true)
payout-IsKept = record {
  fresh = λ t h. ground arith;
  moved = λ t t' same h. ground arith;
  unlinked = λ e link status. refl;
  closed = λ e e' id link status h. refl;
  linked = λ tx e x x' link h here same hx. refl;
}

none_paid :
    (u : ℕ) (ts : List Transaction) → All (λ t. pays_nobody t ≡ true) ts → total_paid_out u ts ≡ 0
none_paid u [] h = refl
none_paid u (t ∷ ts) h = ground (arith, h.0, none_paid u ts h.1)

-- With nothing paid out before, only a freelancer to whom nothing was released passes the
-- subtraction, and then only the amount zero is within the balance.
within_nothing :
    (amount released : ℕ)
    → mixes released 0 ≡ false
    → exceeds_balance amount released 0 ≡ false
    → amount ≡ 0
unfolding exceeds_balance round_cents
within_nothing amount released mixed within = ground arith

record_payout-nothing :
    (s : Settings) (now user : ℕ) (account : PaymentAccount) (db : Db) {r : ℕ × Db}
    → record_payout s now user 0 account db ≢ ok r
unfolding record_payout
record_payout-nothing s now user account db h = absurd (cc)

module _ (s : Settings) (now user amount : ℕ) (db : Db)
    (clean : All (λ t. pays_nobody t ≡ true) db.transactions) where
  first_payout-refused :
      (a : Option PaymentAccount) {r : ℕ × Db} → payout_account s now user amount a db ≢ ok r
  first_payout-refused none h = absurd (cc)
  first_payout-refused (some a) {r} h =
      let (mixed, within, _, recorded) = payout_checked-inv s now user amount a db h in
      let paid = none_paid user db.transactions clean in
      let released = total_released user db.transactions in
      let nothing : amount ≡ 0 =
        within_nothing amount released (rw paid at mixed) (rw paid at within) in
      record_payout-nothing s now user a db
        (subst (λ n. record_payout s now user n a db ≡ ok r) nothing recorded)

  request_payout-refused :
      (account : ℕ) {r : ℕ × Db} → request_payout s now user account amount db ≢ ok r
  unfolding request_payout
  request_payout-refused account h =
      let (a, _, h') =
        find-inv (own_accounts user account) (payout_account s now user amount) db h in
      first_payout-refused a h'

Keeps-payout :
    (s : Settings) (now user account amount : ℕ)
    → Keeps (Rows pays_nobody (λ _. true)) (request_payout s now user account amount)
Keeps-payout s now user account amount = record {
  keeps = λ db r h old. absurd (request_payout-refused s now user amount db old.0 account h);
}

-- Where no payout is on record, none is ever recorded, through any history of money requests,
-- whatever was released to the freelancers: the total of the payouts of everybody stays zero.
pub run-no_payout :
    (s : Settings) (g : Gateway) (cs : List (ℕ × Call)) (db : Db) (u : ℕ)
    → All (λ t. (t.transaction_type is TransactionType.payout) ≡ false) db.transactions
    → let after = (run s g cs db).transactions in
      All (λ t. (t.transaction_type is TransactionType.payout) ≡ false) after
      × (total_paid_out u after ≡ 0)
run-no_payout s g cs db u clean =
    let start =
      All-imp (λ t. (t.transaction_type is TransactionType.payout) ≡ false)
        (λ t. pays_nobody t ≡ true) (λ t h. ground arith) db.transactions clean in
    let kept =
      run-Rows pays_nobody (λ _. true) payout-IsKept s g (Keeps-payout s) cs db
        (start, All-of (λ e. refl) db.escrows) in
    (
      All-imp (λ t. pays_nobody t ≡ true)
          (λ t. (t.transaction_type is TransactionType.payout) ≡ false) (λ t h. ground arith) _
          kept.0,
      none_paid u _ kept.0,
    )
