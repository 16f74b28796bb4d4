-- ===== src/Payment/Payout.antt =====
-- `PaymentService.request_payout`, `mark_payout_paid` and `get_payment_summary`: what a freelancer
-- may withdraw.
use kaasb.Common.{
  ℕ, ◌+◌, ◌-◌, ◌*◌, ◌/◌, ◌%◌, Bool, true, Option, none, some, List, length, select, sum_of,
  if◌then◌else◌, ltb, leb, ◌==◌, ◌&&◌, ◌||◌, not,
}
use kaasb.Db.{
  Db, Action, ◌>>=◌, ◌>>◌, pure, raise, gets, raise_if, when, find_one, new_id, add_transaction,
  set_transaction, audit_log, notify, ◌is◌, holds, not_found, bad_request, type_error,
  PaymentAccountStatus, TransactionType, TransactionStatus, EscrowStatus, PaymentAccount,
  Transaction, AdminAuditLog, generated, payout_completed, payout_marked_paid, AuditTarget,
  account_coded, transaction_coded, transaction_type_coded, escrow_coded,
}
use kaasb.Payment.Settings.{Settings}

-- The bounds that `PayoutRequest` (backend/app/schemas/payment.py) puts on the amount.
abbrev pub is_payout_request : ℕ → Bool
is_payout_request amount = leb 100_000 amount && leb amount 500_000_000

abbrev pub is_release_to : ℕ → Transaction → Bool
is_release_to u t =
    holds t.payee_id u
    && ((t.transaction_type is TransactionType.escrow_release)
        && (t.status is TransactionStatus.completed))

abbrev pub is_payout_to : ℕ → Transaction → Bool
is_payout_to u t =
    holds t.payee_id u
    && ((t.transaction_type is TransactionType.payout)
        && ((t.status is TransactionStatus.completed)
            || (t.status is TransactionStatus.processing)))

abbrev pub released_share : ℕ → Transaction → ℕ
released_share u t = if is_release_to u t then t.net_amount else 0

abbrev pub paid_share : ℕ → Transaction → ℕ
paid_share u t = if is_payout_to u t then t.amount else 0

-- `SELECT SUM(net_amount)` over the completed releases, and `SUM(amount)` over the payouts that are
-- completed or under way.
abbrev pub total_released : ℕ → List Transaction → ℕ
total_released u ts = sum_of (released_share u) ts

abbrev pub total_paid_out : ℕ → List Transaction → ℕ
total_paid_out u ts = sum_of (paid_share u) ts

-- `round(x, 2)` of a decimal: to the nearest hundredth, and to the even one of two.
unfoldable pub round_cents : ℕ → ℕ
round_cents x =
    let q = x / 100 in
    let r = x % 100 in
    if ltb r 50
    then 100 * q
    else if ltb 50 r
    then 100 * (q + 1)
    else if q % 2 == 0
    then 100 * q
    else 100 * (q + 1)

-- `scalar() or 0.0` makes a sum that is zero a float, and any other stays a `Decimal`: an operator on
-- two such totals raises `TypeError` where just one of them is zero.
abbrev pub mixes : ℕ → ℕ → Bool
mixes x y = if x == 0 then not (y == 0) else y == 0

-- `amount > available`, where a negative balance is below every amount.
unfoldable pub exceeds_balance : ℕ → ℕ → ℕ → Bool
unfolding round_cents
exceeds_balance amount released paid =
    if ltb released paid then true else ltb (round_cents (released - paid)) amount

abbrev pub payout_transaction : ℕ → ℕ → ℕ → ℕ → PaymentAccount → Transaction
payout_transaction id reference user amount account = record {
  id = id;
  transaction_type = TransactionType.payout;
  status = TransactionStatus.processing;
  amount = amount;
  platform_fee = 0;
  net_amount = amount;
  payer_id = none;
  payee_id = some user;
  contract_id = none;
  milestone_id = none;
  provider = some account.provider;
  external_transaction_id = some (generated reference);
  completed_at = none;
}

abbrev pub complete_payout : ℕ → Transaction → Transaction
complete_payout now t = record t { status = TransactionStatus.completed; completed_at = some now }

abbrev pub own_accounts : ℕ → ℕ → Db → List PaymentAccount
own_accounts user account_id db =
    select
      (λ a.
        (a.id == account_id)
        && ((a.user_id == user) && (a.status is PaymentAccountStatus.verified)))
      db.accounts

-- The row of a payout, completed at once in the sandbox and in development.
unfoldable pub record_payout : Settings → ℕ → ℕ → ℕ → PaymentAccount → Action ℕ
record_payout s now user amount account = do
  id ← new_id
  reference ← new_id
  add_transaction (payout_transaction id reference user amount account)
  when s.auto_complete_payouts
      do set_transaction id (complete_payout now); notify user payout_completed
  pure id

abbrev pub is_mixed : ℕ → Db → Bool
is_mixed user db = mixes (total_released user db.transactions) (total_paid_out user db.transactions)

abbrev pub is_refused : Settings → ℕ → ℕ → Db → Bool
is_refused s user amount db =
    exceeds_balance amount (total_released user db.transactions)
      (total_paid_out user db.transactions)

unfoldable pub payout_checked : Settings → ℕ → ℕ → ℕ → PaymentAccount → Action ℕ
payout_checked s now user amount account = do
  mixed ← gets (is_mixed user)
  raise_if mixed type_error
  refused ← gets (is_refused s user amount)
  raise_if refused bad_request
  raise_if (ltb amount s.minimum_payout) bad_request
  record_payout s now user amount account

abbrev pub payout_account : Settings → ℕ → ℕ → ℕ → Option PaymentAccount → Action ℕ
payout_account s now user amount none = raise not_found
payout_account s now user amount (some account) = payout_checked s now user amount account

-- `pg_advisory_xact_lock` makes the check and the insert one step for each freelancer.
unfoldable pub request_payout : Settings → ℕ → ℕ → ℕ → ℕ → Action ℕ
request_payout s now user account_id amount =
    find_one (own_accounts user account_id) >>= payout_account s now user amount

-- The entry in the audit log.
abbrev pub paid_entry : ℕ → ℕ → Transaction → AdminAuditLog
paid_entry now admin tx = record {
  admin_id = admin;
  action = payout_marked_paid;
  target_type = AuditTarget.transaction;
  target_id = some tx.id;
  amount = some tx.amount;
  created_at = now;
}

abbrev pub notify_payee : Option ℕ → Action (Unit {0})
notify_payee none = pure tt
notify_payee (some u) = notify u payout_completed

unfoldable pub pay_transaction : ℕ → ℕ → Transaction → Action ℕ
pay_transaction now admin tx = do
  raise_if (not (tx.transaction_type is TransactionType.payout)) bad_request
  raise_if (not (tx.status is TransactionStatus.processing)) bad_request
  set_transaction tx.id (complete_payout now)
  audit_log (paid_entry now admin tx)
  notify_payee tx.payee_id
  pure tx.id

abbrev pub pay_found : ℕ → ℕ → Option Transaction → Action ℕ
pay_found now admin none = raise not_found
pay_found now admin (some tx) = pay_transaction now admin tx

abbrev pub transaction_rows : ℕ → Db → List Transaction
transaction_rows k db = select (λ t. t.id == k) db.transactions

unfoldable pub mark_payout_paid : ℕ → ℕ → ℕ → Action ℕ
mark_payout_paid now transaction_id admin =
    find_one (transaction_rows transaction_id) >>= pay_found now admin

pub record PaymentSummary : Type 0 where
  pub total_earned : ℕ
  pub total_spent : ℕ
  pub pending_escrow : ℕ
  pub available_balance : ℕ
  pub total_paid_out : ℕ
  pub pending_payout : ℕ
  pub total_platform_fees : ℕ
  pub transaction_count : ℕ

-- `SUM(value) WHERE who = user AND transaction_type = kind AND status = state`
abbrev total_where :
    (Transaction → Option ℕ)
    → TransactionType
    → TransactionStatus
    → (Transaction → ℕ)
    → ℕ
    → List Transaction
    → ℕ
total_where who kind state value u ts =
    sum_of
      (λ t.
        if holds (who t) u && ((t.transaction_type is kind) && (t.status is state))
        then value t
        else 0)
      ts

abbrev paid_in : TransactionStatus → ℕ → Db → ℕ
paid_in state u db =
    total_where (λ t. t.payee_id) TransactionType.payout state (λ t. t.amount) u db.transactions

unfoldable pub summary : ℕ → ℕ → ℕ → ℕ → Db → PaymentSummary
unfolding round_cents
summary u earned completed processing db = record {
  total_earned = earned;
  total_spent =
      total_where (λ t. t.payer_id) TransactionType.escrow_fund TransactionStatus.completed
        (λ t. t.amount) u db.transactions;
  pending_escrow =
      sum_of
        (λ e.
          if ((e.client_id == u) || (e.freelancer_id == u)) && (e.status is EscrowStatus.funded)
          then e.amount
          else 0)
        db.escrows;
  available_balance = round_cents (earned - (completed + processing));
  total_paid_out = completed;
  pending_payout = processing;
  total_platform_fees =
      total_where (λ t. t.payer_id) TransactionType.platform_fee TransactionStatus.completed
        (λ t. t.platform_fee) u db.transactions;
  transaction_count =
      length (select (λ t. holds t.payer_id u || holds t.payee_id u) db.transactions);
}

unfoldable pub get_payment_summary : ℕ → Action PaymentSummary
get_payment_summary u = do
  earned ← gets λ db. total_released u db.transactions
  completed ← gets (paid_in TransactionStatus.completed u)
  processing ← gets (paid_in TransactionStatus.processing u)
  raise_if (mixes completed processing) type_error
  raise_if (mixes earned (completed + processing)) type_error
  gets (summary u earned completed processing)
