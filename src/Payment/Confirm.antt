-- ===== src/Payment/Confirm.antt =====
-- `PaymentService.confirm_qi_card_payment` and `handle_qi_card_payment_failed`: what a gateway's
-- redirect does to the funding transaction, its escrow and its service order.
use text.Mathlib.Text.{◌==◌ as str_eq}
use kaasb.Common.{
  ℕ, String, Bool, true, false, Option, none, some, List, [], ◌∷◌, select, update_row,
  if◌then◌else◌, ◌==◌, ◌&&◌,
}
use kaasb.Db.{
  Db, Action, ◌>>=◌, ◌>>◌, pure, modify, when, find_one, set_escrow, set_transaction, notify, ◌is◌,
  holds, holds_ref, holds_provider, PaymentProvider, TransactionType, TransactionStatus,
  EscrowStatus, ServiceOrderStatus, Transaction, Escrow, Service, ServiceOrder, ExternalRef,
  escrow_ref, gig_order_ref, gig_order_text, operation, generated, milestone_funded,
  transaction_type_coded, transaction_coded, order_coded,
}
use kaasb.Payment.Settings.{Settings}

-- `_verify_order_sig`
unfoldable pub verify_order_sig : Settings → ExternalRef → String → Bool
verify_order_sig s ref sig = if str_eq sig "" then false else str_eq (s.sign_order_id ref) sig

abbrev pub is_funding_of : ExternalRef → Transaction → Bool
is_funding_of ref t =
    holds_ref t.external_transaction_id ref
    && (holds_provider t.provider PaymentProvider.qi_card
        && (t.transaction_type is TransactionType.escrow_fund))

-- The transaction that a success redirect is about, under whatever status.
abbrev pub funding_rows : ExternalRef → Db → List Transaction
funding_rows ref db = select (is_funding_of ref) db.transactions

abbrev pub escrow_rows : ℕ → Db → List Escrow
escrow_rows tx_id db = select (λ e. holds e.funding_transaction_id tx_id) db.escrows

abbrev pub complete_transaction : ℕ → Transaction → Transaction
complete_transaction now t = record t {
  status = TransactionStatus.completed;
  completed_at = some now;
}

abbrev pub fund : ℕ → Escrow → Escrow
fund now e = record e { status = EscrowStatus.funded; funded_at = some now }

-- The escrow that the transaction funds, if there is one, becomes FUNDED.
unfoldable pub mark_funded : ℕ → Option Escrow → Action (Unit {0})
mark_funded now none = pure tt
mark_funded now (some e) = do
  set_escrow e.id (fund now)
  elim e.milestone_id [ none ↦ pure tt | some m ↦ notify e.freelancer_id milestone_funded ]

abbrev pub has_questions : Option Service → Bool
has_questions none = false
has_questions (some v) = elim v.requirement_questions [ [] ↦ false | q ∷ qs ↦ true ]

abbrev pub update_order : ℕ → (ServiceOrder → ServiceOrder) → List ServiceOrder → List ServiceOrder
update_order = update_row λ o. o.id

abbrev pub set_order : ℕ → (ServiceOrder → ServiceOrder) → Action (Unit {0})
set_order k f = modify λ db. record db { orders = update_order k f db.orders }

abbrev pub started : Option Service → ServiceOrder → ServiceOrder
started service o = record o {
  status =
      if has_questions service
      then ServiceOrderStatus.pending_requirements
      else ServiceOrderStatus.in_progress;
}

abbrev pub service_of : ServiceOrder → Db → List Service
service_of o db = select (λ v. v.id == o.service_id) db.services

abbrev pub start_pending : ServiceOrder → Option Service → Action (Unit {0})
start_pending o service = set_order o.id (started service)

abbrev pub start_found : Option ServiceOrder → Action (Unit {0})
start_found none = pure tt
start_found (some o) =
    when (o.status is ServiceOrderStatus.pending) (find_one (service_of o) >>= start_pending o)

-- A paid service order leaves PENDING. A reference whose rest is no id is logged and skipped.
unfoldable pub start_order : ExternalRef → Action (Unit {0})
start_order (gig_order_ref k) = find_one (λ db. select (λ o. o.id == k) db.orders) >>= start_found
start_order (gig_order_text k) = pure tt
start_order (escrow_ref k) = pure tt
start_order (operation k) = pure tt
start_order (generated k) = pure tt

-- The writes for the transaction that was found.
unfoldable pub settle : ℕ → ExternalRef → Transaction → Action Bool
settle now ref t = if t.status is TransactionStatus.completed then pure true else do
  set_transaction t.id (complete_transaction now)
  escrow ← find_one (escrow_rows t.id)
  mark_funded now escrow
  start_order ref
  pure true

abbrev pub settle_found : ℕ → ExternalRef → Option Transaction → Action Bool
settle_found now ref none = pure false
settle_found now ref (some t) = settle now ref t

unfoldable pub confirm_qi_card_payment : Settings → ℕ → ExternalRef → String → Action Bool
confirm_qi_card_payment s now ref sig =
    if verify_order_sig s ref sig
    then find_one (funding_rows ref) >>= settle_found now ref
    else pure false

abbrev pub is_pending_of : ExternalRef → Transaction → Bool
is_pending_of ref t =
    holds_ref t.external_transaction_id ref
    && (holds_provider t.provider PaymentProvider.qi_card
        && (t.status is TransactionStatus.pending))

abbrev pub pending_rows : ExternalRef → Db → List Transaction
pending_rows ref db = select (is_pending_of ref) db.transactions

abbrev pub fail_transaction : Transaction → Transaction
fail_transaction t = record t { status = TransactionStatus.failed }

abbrev pub refund_unpaid : Option Escrow → Action (Unit {0})
refund_unpaid none = pure tt
refund_unpaid (some e) = set_escrow e.id λ e'. record e' { status = EscrowStatus.refunded }

abbrev pub fail_found : Option Transaction → Action Bool
fail_found none = pure false
fail_found (some t) = do
  set_transaction t.id fail_transaction
  escrow ← find_one (escrow_rows t.id)
  refund_unpaid escrow
  pure true

unfoldable pub handle_qi_card_payment_failed : Settings → ExternalRef → String → Action Bool
handle_qi_card_payment_failed s ref sig =
    if verify_order_sig s ref sig then find_one (pending_rows ref) >>= fail_found else pure false
