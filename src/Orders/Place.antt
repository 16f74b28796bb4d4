-- ===== src/Orders/Place.antt =====
-- `CatalogService.place_order` (backend/app/services/catalog_service.py): an order of a service, its
-- payment and its escrow, both waiting for the gateway.
use kaasb.Common.{
  ℕ, ◌+◌, ◌*◌, Bool, true, false, Option, none, some, List, [], ◌∷◌, ◌++◌, select, update_row, ◌==◌,
  not,
}
use kaasb.Db.{
  Db, Action, ◌>>=◌, ◌>>◌, pure, raise, modify, or_raise, raise_if, find_one, new_id,
  add_transaction, add_escrow, ◌is◌, not_found, forbidden, bad_request, external_service,
  PaymentProvider, TransactionType, TransactionStatus, EscrowStatus, ServiceStatus,
  ServiceOrderStatus, Transaction, Escrow, Service, ServicePackage, ServiceOrder, ExternalRef,
  gig_order_ref, service_coded,
}
use kaasb.Payment.Settings.{Settings, Gateway}
use kaasb.Payment.Fees.{Fees, calculate_fees, whole_iqd}
use kaasb.Payment.Fund.{gateway_ref, stored_provider}

abbrev pub seconds_per_day : ℕ
seconds_per_day = 86_400

-- Every order starts as PENDING.
abbrev pub new_order : ℕ → ℕ → ℕ → Service → ServicePackage → ServiceOrder
new_order id now client v p = record {
  id = id;
  created_at = now;
  service_id = v.id;
  package_id = p.id;
  client_id = client;
  freelancer_id = v.freelancer_id;
  status = ServiceOrderStatus.pending;
  requirement_answers = none;
  requirements_submitted_at = none;
  price_paid = p.price;
  delivery_days = p.delivery_days;
  revisions_remaining = p.revisions;
  due_date = some (now + p.delivery_days * seconds_per_day);
  delivered_at = none;
  completed_at = none;
  cancelled_by = none;
  dispute_reason = none;
  dispute_opened_at = none;
  dispute_opened_by = none;
  dispute_resolved_at = none;
  dispute_resolution = none;
}

abbrev pub add_order : ServiceOrder → Action (Unit {0})
add_order o = modify λ db. record db { orders = db.orders ++ o ∷ [] }

-- `orders_count + 1`
abbrev pub count_order : ℕ → Action (Unit {0})
count_order k = modify λ db. record db {
  services =
      update_row (λ v. v.id) k (λ v. record v { orders_count = v.orders_count + 1 }) db.services;
}

abbrev pub order_transaction : ℕ → Fees → ℕ → Service → PaymentProvider → ExternalRef → Transaction
order_transaction id fees client v provider ref = record {
  id = id;
  transaction_type = TransactionType.escrow_fund;
  status = TransactionStatus.pending;
  amount = fees.amount;
  platform_fee = fees.platform_fee;
  net_amount = fees.net_amount;
  payer_id = some client;
  payee_id = some v.freelancer_id;
  contract_id = none;
  milestone_id = none;
  provider = some (stored_provider provider);
  external_transaction_id = some ref;
  completed_at = none;
}

abbrev pub order_escrow : ℕ → Fees → ℕ → Service → ℕ → ℕ → Escrow
order_escrow id fees client v order funding = record {
  id = id;
  amount = fees.amount;
  platform_fee = fees.platform_fee;
  freelancer_amount = fees.net_amount;
  status = EscrowStatus.pending;
  contract_id = none;
  milestone_id = none;
  service_order_id = some order;
  client_id = client;
  freelancer_id = v.freelancer_id;
  funding_transaction_id = some funding;
  release_transaction_id = none;
  funded_at = none;
  released_at = none;
  version = 1;
}

-- The order and the count, the payment at the gateway, then the transaction and the escrow.
unfoldable pub place_package :
    Settings → Gateway → ℕ → ℕ → PaymentProvider → Service → ServicePackage → Action ℕ
place_package s g now client provider v p = do
  let fees = calculate_fees s.platform_fee_percent p.price
  order_id ← new_id
  add_order (new_order order_id now client v p)
  count_order v.id
  op ←
      or_raise (g.create_payment provider (whole_iqd fees.amount) (gig_order_ref order_id))
        external_service
  tx_id ← new_id
  add_transaction (
      order_transaction tx_id fees client v provider
        (gateway_ref provider op (gig_order_ref order_id)))
  escrow_id ← new_id
  add_escrow (order_escrow escrow_id fees client v order_id tx_id)
  pure order_id

-- `next((p for p in service.packages if …), None)`
abbrev pub find_package : ℕ → List ServicePackage → Option ServicePackage
find_package k [] = none
find_package k (p ∷ ps) = elim (p.id == k) [ true ↦ some p | false ↦ find_package k ps ]

unfoldable pub place_checked : Settings → Gateway → ℕ → ℕ → ℕ → PaymentProvider → Service → Action ℕ
place_checked s g now client package_id provider v = do
  raise_if (not (v.status is ServiceStatus.active)) not_found
  raise_if (v.freelancer_id == client) bad_request
  p ← or_raise (find_package package_id v.packages) not_found
  place_package s g now client provider v p

abbrev pub place_found :
    Settings → Gateway → ℕ → ℕ → ℕ → PaymentProvider → Option Service → Action ℕ
place_found s g now client package_id provider none = raise not_found
place_found s g now client package_id provider (some v) =
    place_checked s g now client package_id provider v

abbrev pub service_rows : ℕ → Db → List Service
service_rows k db = select (λ v. v.id == k) db.services

-- `is_admin` is the client's role.
unfoldable pub place_order : Settings → Gateway → ℕ → Bool → ℕ → ℕ → ℕ → PaymentProvider → Action ℕ
place_order s g now is_admin client service_id package_id provider = do
  raise_if is_admin forbidden
  find_one (service_rows service_id) >>= place_found s g now client package_id provider
