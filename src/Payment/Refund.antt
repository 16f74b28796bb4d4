-- ===== src/Payment/Refund.antt =====
-- `PaymentService.refund_escrow_by_service_order` and `refund_escrow`.
use kaasb.Common.{
  ℕ, Bool, true, false, Option, none, some, List, [], select, if◌then◌else◌, ◌==◌, ◌&&◌, ◌||◌,
}
use kaasb.Db.{
  Db, Action, ◌>>=◌, ◌>>◌, pure, find_one, new_id, add_transaction, set_escrow, notify, ◌is◌, holds,
  PaymentProvider, TransactionType, TransactionStatus, EscrowStatus, Transaction, Escrow,
  ExternalRef, generated, payment_received, escrow_coded,
}
use kaasb.Payment.Settings.{Gateway}
use kaasb.Payment.Fees.{whole_iqd}
use kaasb.Payment.Release.{funded_milestone_rows}

abbrev pub refund_transaction :
    ℕ → ℕ → TransactionStatus → Option ℕ → Option ℕ → Option ℕ → Escrow → Transaction
refund_transaction id reference status contract milestone completed e = record {
  id = id;
  transaction_type = TransactionType.escrow_refund;
  status = status;
  amount = e.amount;
  platform_fee = 0;
  net_amount = e.amount;
  payer_id = none;
  payee_id = some e.client_id;
  contract_id = contract;
  milestone_id = milestone;
  provider = some PaymentProvider.qi_card;
  external_transaction_id = some (generated reference);
  completed_at = completed;
}

abbrev pub mark_refunded : ℕ → Escrow → Escrow
mark_refunded now e = record e { status = EscrowStatus.refunded; released_at = some now }

abbrev pub refundable_order_rows : ℕ → Db → List Escrow
refundable_order_rows k db =
    select
      (λ e.
        holds e.service_order_id k
        && ((e.status is EscrowStatus.funded) || (e.status is EscrowStatus.disputed)))
      db.escrows

-- The refund itself is made by hand in the gateway's portal: the transaction stays PROCESSING.
unfoldable pub refund_order_escrow : ℕ → Escrow → Action Bool
refund_order_escrow now e = do
  id ← new_id
  reference ← new_id
  add_transaction (refund_transaction id reference TransactionStatus.processing none none none e)
  set_escrow e.id (mark_refunded now)
  notify e.client_id payment_received
  pure true

abbrev pub refund_order_found : ℕ → Option Escrow → Action Bool
refund_order_found now none = pure false
refund_order_found now (some e) = refund_order_escrow now e

unfoldable pub refund_escrow_by_service_order : ℕ → ℕ → Action Bool
refund_escrow_by_service_order now order_id =
    find_one (refundable_order_rows order_id) >>= refund_order_found now

-- The funding transaction of the escrow, if it names one.
abbrev pub original_rows : Escrow → Db → List Transaction
original_rows e db = elim e.funding_transaction_id [
  | none ↦ []
  | some k ↦ select (λ t. t.id == k) db.transactions
]

abbrev pub payment_ref : Option Transaction → Option ExternalRef
payment_ref none = none
payment_ref (some t) = t.external_transaction_id

-- With no reference there is nothing to ask of the gateway.
abbrev pub gateway_refunded : Gateway → Escrow → Option ExternalRef → Bool
gateway_refunded g e none = true
gateway_refunded g e (some ref) = g.refund_payment ref (whole_iqd e.amount)

unfoldable pub refund_recorded : Gateway → ℕ → ℕ → Escrow → Option Transaction → Action Bool
refund_recorded g now milestone_id e original = do
  let succeeded = gateway_refunded g e (payment_ref original)
  id ← new_id
  reference ← new_id
  add_transaction (
      refund_transaction id reference
        (if succeeded then TransactionStatus.completed else TransactionStatus.processing)
        e.contract_id (some milestone_id) (some now) e)
  set_escrow e.id (mark_refunded now)
  pure true

abbrev pub refund_milestone_escrow : Gateway → ℕ → ℕ → Escrow → Action Bool
refund_milestone_escrow g now milestone_id e =
    find_one (original_rows e) >>= refund_recorded g now milestone_id e

abbrev pub refund_found : Gateway → ℕ → ℕ → Option Escrow → Action Bool
refund_found g now milestone_id none = pure false
refund_found g now milestone_id (some e) = refund_milestone_escrow g now milestone_id e

unfoldable pub refund_escrow : Gateway → ℕ → ℕ → Action Bool
refund_escrow g now milestone_id =
    find_one (funded_milestone_rows milestone_id) >>= refund_found g now milestone_id
