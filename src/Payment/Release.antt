-- ===== src/Payment/Release.antt =====
-- `PaymentService._release_locked_escrow`, `release_escrow` and `release_escrow_by_id`.
use text.Mathlib.Text.{◌==◌ as str_eq}
use kaasb.Common.{
  ℕ, ◌+◌, String, Bool, false, Option, none, some, List, [], ◌∷◌, length, select, if◌then◌else◌,
  ◌==◌, ◌&&◌, not,
}
use kaasb.Db.{
  Db, Action, ◌>>=◌, ◌>>◌, pure, gets, modify, raise_if, find_one, new_id, add_transaction, notify,
  ◌is◌, holds, conflict, bad_request, PaymentProvider, PaymentAccountStatus, TransactionType,
  TransactionStatus, EscrowStatus, Transaction, Escrow, PaymentAccount, generated, payment_received,
  escrow_coded, provider_coded, account_coded,
}

-- The platform keeps its fee.
abbrev pub fee_transaction : ℕ → ℕ → Escrow → Transaction
fee_transaction id now e = record {
  id = id;
  transaction_type = TransactionType.platform_fee;
  status = TransactionStatus.completed;
  amount = e.platform_fee;
  platform_fee = e.platform_fee;
  net_amount = e.platform_fee;
  payer_id = some e.freelancer_id;
  payee_id = none;
  contract_id = e.contract_id;
  milestone_id = e.milestone_id;
  provider = none;
  external_transaction_id = none;
  completed_at = some now;
}

abbrev pub release_transaction : ℕ → ℕ → ℕ → Escrow → Transaction
release_transaction id reference now e = record {
  id = id;
  transaction_type = TransactionType.escrow_release;
  status = TransactionStatus.completed;
  amount = e.freelancer_amount;
  platform_fee = 0;
  net_amount = e.freelancer_amount;
  payer_id = some e.client_id;
  payee_id = some e.freelancer_id;
  contract_id = e.contract_id;
  milestone_id = e.milestone_id;
  provider = some PaymentProvider.qi_card;
  external_transaction_id = some (generated reference);
  completed_at = some now;
}

-- `WHERE id = … AND version = :expected AND status = FUNDED`
abbrev pub is_expected : Escrow → Escrow → Bool
is_expected e f = (f.id == e.id) && ((f.version == e.version) && (f.status is EscrowStatus.funded))

abbrev pub mark_released : ℕ → ℕ → Escrow → Escrow → Escrow
mark_released release_tx now e f = record f {
  status = EscrowStatus.released;
  released_at = some now;
  release_transaction_id = some release_tx;
  version = e.version + 1;
}

-- The optimistic UPDATE, on every row that its WHERE selects.
unfoldable pub release_rows : ℕ → ℕ → Escrow → List Escrow → List Escrow
release_rows tx now e [] = []
release_rows tx now e (f ∷ fs) =
    (if is_expected e f then mark_released tx now e f else f) ∷ release_rows tx now e fs

pub record ReleaseResponse : Type 0 where
  pub escrow_id : ℕ
  pub amount : ℕ
  pub freelancer_amount : ℕ

unfoldable pub release_locked_escrow : ℕ → Escrow → Action ReleaseResponse
unfolding release_rows
release_locked_escrow now e = do
  fee_id ← new_id
  add_transaction (fee_transaction fee_id now e)
  release_id ← new_id
  reference ← new_id
  add_transaction (release_transaction release_id reference now e)
  rowcount ← gets λ db. length (select (is_expected e) db.escrows)
  raise_if (not (rowcount == 1)) conflict
  modify λ db. record db { escrows = release_rows release_id now e db.escrows }
  notify e.freelancer_id payment_received
  pure (record { escrow_id = e.id; amount = e.amount; freelancer_amount = e.freelancer_amount })

abbrev pub release_found : ℕ → Option Escrow → Action (Option ReleaseResponse)
release_found now none = pure none
release_found now (some e) = do r ← release_locked_escrow now e; pure (some r)

abbrev pub funded_milestone_rows : ℕ → Db → List Escrow
funded_milestone_rows k db =
    select (λ e. holds e.milestone_id k && (e.status is EscrowStatus.funded)) db.escrows

unfoldable pub release_escrow : ℕ → ℕ → Action (Option ReleaseResponse)
release_escrow now milestone_id =
    find_one (funded_milestone_rows milestone_id) >>= release_found now

abbrev pub is_filled : Option String → Bool
is_filled none = false
is_filled (some s) = not (str_eq s "")

-- The account that `acct_result.first()` reads.
abbrev pub payout_accounts : ℕ → Db → List PaymentAccount
payout_accounts user db =
    select
      (λ a.
        (a.user_id == user)
        && ((a.provider is PaymentProvider.qi_card) && (a.status is PaymentAccountStatus.verified)))
      db.accounts

abbrev pub is_payable : List PaymentAccount → Bool
is_payable [] = false
is_payable (a ∷ rest) =
    is_filled a.qi_card_phone
    && (is_filled a.qi_card_holder_name && is_filled a.qi_card_account_number)

abbrev pub funded_rows : ℕ → Db → List Escrow
funded_rows k db = select (λ e. (e.id == k) && (e.status is EscrowStatus.funded)) db.escrows

abbrev pub release_checked : ℕ → Option Escrow → Action (Option ReleaseResponse)
release_checked now none = pure none
release_checked now (some e) = do
  payable ← gets λ db. is_payable (payout_accounts e.freelancer_id db)
  raise_if (not payable) bad_request
  r ← release_locked_escrow now e
  pure (some r)

unfoldable pub release_escrow_by_id : ℕ → ℕ → Action (Option ReleaseResponse)
release_escrow_by_id now escrow_id = find_one (funded_rows escrow_id) >>= release_checked now
