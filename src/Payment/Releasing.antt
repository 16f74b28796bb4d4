-- ===== src/Payment/Releasing.antt =====
-- What a release leaves (backend/app/services/payment_service.py, `_release_locked_escrow`): the two
-- ledger rows and the escrow's new state, and that no escrow is released twice.
use kaasb.Common.{
  ℕ, suc, ◌<◌, ◌≡◌, refl, ap, ◌∙◌, Bool, true, false, Option, none, some, List, [], ◌∷◌, ◌++◌,
  select, select-single, subst, sym, length, All, All-of, All-imp, found-test, ◌&&◌, ◌==◌, arith,
}
use kaasb.Db.{
  Db, ok, ◌is◌, find-inv, find_one-run, to_list, Escrow, EscrowStatus, PaymentAccount, escrow_coded,
}
use kaasb.Payment.Release.{
  release_locked_escrow, release_rows, release_escrow_by_id, is_expected, fee_transaction,
  release_transaction, mark_released, ReleaseResponse, funded_rows, release_checked, is_payable,
  payout_accounts, is_filled,
}

pub record Released (now : ℕ) (e : Escrow) (db db' : Db) : Type 0 where
  pub transactions :
      db'.transactions
      ≡ (db.transactions ++ fee_transaction db.next_id now e ∷ [])
        ++ release_transaction (suc db.next_id) (suc (suc db.next_id)) now e ∷ []
  pub escrows : db'.escrows ≡ release_rows (suc db.next_id) now e db.escrows
  pub next_id : db'.next_id ≡ suc (suc (suc db.next_id))
  pub accounts : db'.accounts ≡ db.accounts
  pub approvals : db'.approvals ≡ db.approvals
  pub orders : db'.orders ≡ db.orders
  pub audit : db'.audit ≡ db.audit
  pub single : length (select (is_expected e) db.escrows) ≡ 1
  pub charged : 0 < e.platform_fee
  pub paid : 0 < e.freelancer_amount

pub release_locked-Released :
    (now : ℕ) (e : Escrow) (db : Db) {r : ReleaseResponse × Db}
    → release_locked_escrow now e db ≡ ok r
    → Released now e db r.1
unfolding release_locked_escrow
release_locked-Released now e db h = record {
  transactions = ground arith;
  escrows = ground arith;
  next_id = ground arith;
  accounts = ground arith;
  approvals = ground arith;
  orders = ground arith;
  audit = ground arith;
  single = ground arith;
  charged = ground arith;
  paid = ground arith;
}

module _ (tx now : ℕ) (e : Escrow) (q : Escrow → Bool) where
  -- The UPDATE takes every row out of a query that only finds rows the UPDATE expects.
  pub release_rows-select :
      (es : List Escrow)
      → All (λ x. q x ≡ true → is_expected e x ≡ true) es
      → All (λ x. q (mark_released tx now e x) ≡ false) es
      → select q (release_rows tx now e es) ≡ []
  unfolding release_rows
  release_rows-select [] h k = refl
  release_rows-select (x ∷ es) h k = ground (arith, h.0, k.0, release_rows-select es h.1 k.1)

-- A funded escrow that its id finds is one that the UPDATE expects.
expected_self :
    (k : ℕ) (e : Escrow)
    → ((e.id == k) && (e.status is EscrowStatus.funded)) ≡ true
    → is_expected e e ≡ true
expected_self k e h = ground arith

-- A call of `release_escrow_by_id` that releases: the one funded escrow under the id, whose
-- freelancer has complete payout details.
pub record ReleasedById (now k : ℕ) (db : Db) (resp : ReleaseResponse) (db' : Db) : Type 0 where
  pub escrow : Escrow
  pub found : funded_rows k db ≡ escrow ∷ []
  pub payable : is_payable (payout_accounts escrow.freelancer_id db) ≡ true
  pub locked : release_locked_escrow now escrow db ≡ ok (resp, db')

release_checked-inv :
    (now k : ℕ) (e : Option Escrow) (db : Db) (resp : ReleaseResponse) (db' : Db)
    → funded_rows k db ≡ to_list e
    → release_checked now e db ≡ ok (some resp, db')
    → ReleasedById now k db resp db'
release_checked-inv now k none db resp db' e h = absurd (cc)
release_checked-inv now k (some x) db resp db' e h = record {
  escrow = x;
  found = e;
  payable = ground arith;
  locked = ground arith;
}

pub release_by_id-inv :
    (now k : ℕ) (db : Db) (resp : ReleaseResponse) (db' : Db)
    → release_escrow_by_id now k db ≡ ok (some resp, db')
    → ReleasedById now k db resp db'
unfolding release_escrow_by_id
release_by_id-inv now k db resp db' h =
    let (e, found, h') = find-inv (funded_rows k) (release_checked now) db h in
    release_checked-inv now k e db resp db' found h'

funded_rows-Released :
    (now k : ℕ) (e : Escrow) (db db' : Db)
    → funded_rows k db ≡ e ∷ []
    → Released now e db db'
    → funded_rows k db' ≡ []
funded_rows-Released now k e db db' found r =
    let q : Escrow → Bool = λ x. (x.id == k) && (x.status is EscrowStatus.funded) in
    let funded = expected_self k e (found-test q e [] db.escrows found) in
    ap (select q) r.escrows
    ∙ release_rows-select (suc db.next_id) now e q db.escrows
        (All-imp (λ x. q x ≡ true → x ≡ e) (λ x. q x ≡ true → is_expected e x ≡ true)
          (λ x same pass. subst (λ y. is_expected e y ≡ true) (sym (same pass)) funded) db.escrows
          (select-single q e db.escrows found))
        (All-of (λ x. ground arith) db.escrows)

-- Once `release_escrow_by_id` has released an escrow, it finds no funded escrow under that id: a
-- second call returns nothing and changes nothing.
pub release_twice :
    (now later k : ℕ) (db : Db) (resp : ReleaseResponse) (db' : Db)
    → release_escrow_by_id now k db ≡ ok (some resp, db')
    → release_escrow_by_id later k db' ≡ ok (none, db')
unfolding release_escrow_by_id
release_twice now later k db resp db' h =
    let r = release_by_id-inv now k db resp db' h in
    find_one-run (funded_rows k) (release_checked later) db' none (
      funded_rows-Released now k r.escrow db db' r.found
        (release_locked-Released now r.escrow db r.locked))

-- The account that a release pays to, with its details.
pub record Payee (user : ℕ) (db : Db) : Type 0 where
  pub account : PaymentAccount
  pub others : List PaymentAccount
  pub first : payout_accounts user db ≡ account ∷ others
  pub phone : is_filled account.qi_card_phone ≡ true
  pub holder_name : is_filled account.qi_card_holder_name ≡ true
  pub account_number : is_filled account.qi_card_account_number ≡ true

payable-Payee :
    (user : ℕ) (db : Db) (accounts : List PaymentAccount)
    → payout_accounts user db ≡ accounts
    → is_payable accounts ≡ true
    → Payee user db
payable-Payee user db [] e h = absurd (cc)
payable-Payee user db (a ∷ rest) e h = record {
  account = a;
  others = rest;
  first = e;
  phone = ground arith;
  holder_name = ground arith;
  account_number = ground arith;
}

-- What `release_escrow_by_id` releases is an escrow that was FUNDED, and the freelancer's first
-- verified Qi Card account had the phone, the cardholder's name and the account number filled in.
pub release_payable :
    (now k : ℕ) (db : Db) (resp : ReleaseResponse) (db' : Db)
    → release_escrow_by_id now k db ≡ ok (some resp, db')
    → (e : Escrow) × (funded_rows k db ≡ e ∷ []) × Payee e.freelancer_id db
release_payable now k db resp db' h =
    let r = release_by_id-inv now k db resp db' h in
    (r.escrow, r.found, payable-Payee r.escrow.freelancer_id db _ refl r.payable)
