-- ===== src/Payment/Fund.antt =====
-- `PaymentService.setup_payment_account` and `fund_escrow`: a payout account, and the escrow of a
-- milestone, which waits for the gateway's confirmation.
use kaasb.Common.{
  ℕ, String, Bool, true, Option, none, some, List, [], ◌∷◌, ◌++◌, select, update_row, if◌then◌else◌,
  ◌==◌, ◌&&◌, ◌||◌, not, is_some,
}
use kaasb.Db.{
  Db, Action, ◌>>=◌, ◌>>◌, pure, raise, modify, or_raise, raise_if, find_one, or_conflict, new_id,
  add_transaction, add_escrow, ◌is◌, holds, is_active, not_found, forbidden, bad_request,
  external_service, PaymentProvider, PaymentAccountStatus, TransactionType, TransactionStatus,
  EscrowStatus, MilestoneStatus, PaymentAccount, Transaction, Escrow, Milestone, Contract,
  ExternalRef, escrow_ref, operation, provider_coded, milestone_coded,
}
use kaasb.Payment.Settings.{Settings, Gateway}
use kaasb.Payment.Fees.{Fees, calculate_fees, whole_iqd}

abbrev or_keep : Option String → Option String → Option String
or_keep none old = old
or_keep (some s) old = some s

abbrev update_account :
    ℕ → (PaymentAccount → PaymentAccount) → List PaymentAccount → List PaymentAccount
update_account = update_row λ a. a.id

-- The phone of an account that exists is never replaced.
unfoldable pub setup_payment_account :
    ℕ → PaymentProvider → Option String → Option String → Option String → ℕ → Action ℕ
setup_payment_account user provider phone holder number now = do
  found ← find_one λ db. select (λ a. a.user_id == user && (a.provider is provider)) db.accounts
  elim found [
    | some a ↦ do
      modify λ db. record db {
        accounts =
            update_account a.id
              (λ a'. record a' {
                qi_card_holder_name = or_keep holder a'.qi_card_holder_name;
                qi_card_account_number = or_keep number a'.qi_card_account_number;
              })
              db.accounts;
      }
      pure a.id
    | none ↦ do
      k ← new_id
      modify λ db. record db {
        accounts =
            db.accounts
            ++ record {
              id = k;
              user_id = user;
              provider = provider;
              status = PaymentAccountStatus.verified;
              qi_card_phone = phone;
              qi_card_holder_name = holder;
              qi_card_account_number = number;
              is_default = true;
              verified_at = some now;
            }
              ∷ [];
      }
      pure k
  ]

-- The reference under which the gateway will report, and the provider that is stored.
abbrev pub gateway_ref : PaymentProvider → ℕ → ExternalRef → ExternalRef
gateway_ref provider op ours = if provider is PaymentProvider.zain_cash then operation op else ours

abbrev pub stored_provider : PaymentProvider → PaymentProvider
stored_provider provider =
    if provider is PaymentProvider.zain_cash
    then PaymentProvider.zain_cash
    else PaymentProvider.qi_card

abbrev pub funding_transaction :
    ℕ → Fees → ℕ → Contract → ℕ → PaymentProvider → ExternalRef → Transaction
funding_transaction id fees client contract milestone provider ref = record {
  id = id;
  transaction_type = TransactionType.escrow_fund;
  status = TransactionStatus.pending;
  amount = fees.amount;
  platform_fee = 0;
  net_amount = fees.amount;
  payer_id = some client;
  payee_id = none;
  contract_id = some contract.id;
  milestone_id = some milestone;
  provider = some (stored_provider provider);
  external_transaction_id = some ref;
  completed_at = none;
}

abbrev pub pending_escrow : ℕ → Fees → ℕ → Contract → ℕ → Escrow
pending_escrow id fees client contract milestone = record {
  id = id;
  amount = fees.amount;
  platform_fee = fees.platform_fee;
  freelancer_amount = fees.net_amount;
  status = EscrowStatus.pending;
  contract_id = some contract.id;
  milestone_id = some milestone;
  service_order_id = none;
  client_id = client;
  freelancer_id = contract.freelancer_id;
  funding_transaction_id = none;
  release_transaction_id = none;
  funded_at = none;
  released_at = none;
  version = 1;
}

-- The two rows of a funding, flushed together. The source reads the transaction's id for the escrow's
-- `funding_transaction_id` before the flush that makes it, so that the column stays null.
abbrev pub open_escrow : Fees → ℕ → Contract → ℕ → PaymentProvider → ExternalRef → Action ℕ
open_escrow fees client contract milestone provider ref = do
  tx_id ← new_id
  escrow_id ← new_id
  add_transaction (funding_transaction tx_id fees client contract milestone provider ref)
  add_escrow (pending_escrow escrow_id fees client contract milestone)
  pure escrow_id

abbrev pub is_fundable : MilestoneStatus → Bool
is_fundable s = (s is MilestoneStatus.pending) || (s is MilestoneStatus.in_progress)

abbrev pub active_rows : ℕ → Db → List Escrow
active_rows milestone_id db =
    select (λ e. holds e.milestone_id milestone_id && is_active e) db.escrows

-- The gateway is asked before anything is written: its failure rolls back.
unfoldable pub fund_through :
    Settings → Gateway → ℕ → PaymentProvider → Milestone → Contract → Action ℕ
fund_through s g client provider m c = do
  let fees = calculate_fees s.platform_fee_percent m.amount
  let ours = escrow_ref m.id
  op ← or_raise (g.create_payment provider (whole_iqd fees.amount) ours) external_service
  or_conflict (open_escrow fees client c m.id provider (gateway_ref provider op ours))

unfoldable pub fund_checked :
    Settings → Gateway → ℕ → PaymentProvider → Milestone → Contract → Action ℕ
fund_checked s g client provider m c = do
  raise_if (not (c.client_id == client)) forbidden
  raise_if (not (is_fundable m.status)) bad_request
  existing ← find_one (active_rows m.id)
  raise_if (is_some existing) bad_request
  fund_through s g client provider m c

abbrev pub fund_contract :
    Settings → Gateway → ℕ → PaymentProvider → Milestone → Option Contract → Action ℕ
fund_contract s g client provider m none = raise not_found
fund_contract s g client provider m (some c) = fund_checked s g client provider m c

abbrev pub contract_rows : ℕ → Db → List Contract
contract_rows k db = select (λ c. c.id == k) db.contracts

abbrev pub fund_milestone : Settings → Gateway → ℕ → PaymentProvider → Option Milestone → Action ℕ
fund_milestone s g client provider none = raise not_found
fund_milestone s g client provider (some m) =
    find_one (contract_rows m.contract_id) >>= fund_contract s g client provider m

abbrev pub milestone_rows : ℕ → Db → List Milestone
milestone_rows k db = select (λ m. m.id == k) db.milestones

-- The result is the id of the escrow.
unfoldable pub fund_escrow : Settings → Gateway → ℕ → ℕ → PaymentProvider → Action ℕ
fund_escrow s g client milestone_id provider =
    find_one (milestone_rows milestone_id) >>= fund_milestone s g client provider
