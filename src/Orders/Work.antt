-- ===== src/Orders/Work.antt =====
-- The work on an order (backend/app/services/catalog_service.py): `submit_requirements`,
-- `mark_delivered`, `request_revision` and `complete_order`.
use kaasb.Common.{
  ℕ, zero, suc, ◌+◌, ◌*◌, String, Bool, false, Option, none, some, List, [], ◌∷◌, ◌++◌, length,
  select, ◌==◌, ◌&&◌, ◌||◌, not, min,
}
use kaasb.Db.{
  Db, Action, ◌>>=◌, ◌>>◌, pure, raise, gets, modify, raise_if, find_one, new_id, notify, ◌is◌,
  holds, not_found, forbidden, bad_request, EscrowStatus, ServiceOrderStatus, Escrow, ServiceOrder,
  ServiceOrderDelivery, ℤ, pos, negsuc, order_requirements_submitted, order_delivered, order_coded,
  escrow_coded,
}
use kaasb.Payment.Confirm.{set_order}
use kaasb.Payment.Release.{release_locked_escrow}
use kaasb.Orders.Place.{seconds_per_day}

abbrev pub order_rows : ℕ → Db → List ServiceOrder
order_rows k db = select (λ o. o.id == k) db.orders

abbrev pub or_missing : {A : Type 0} → (ServiceOrder → Action A) → Option ServiceOrder → Action A
or_missing f none = raise not_found
or_missing f (some o) = f o

-- `_get_order`, and what follows it.
abbrev pub with_order : {A : Type 0} → ℕ → (ServiceOrder → Action A) → Action A
with_order k f = find_one (order_rows k) >>= or_missing f

abbrev pub submit : ℕ → List String → ServiceOrder → ServiceOrder
submit now answers o = record o {
  requirement_answers = some answers;
  requirements_submitted_at = some now;
  status = ServiceOrderStatus.in_progress;
  due_date = some (now + o.delivery_days * seconds_per_day);
}

unfoldable pub submit_order : ℕ → ℕ → List String → ServiceOrder → Action ℕ
submit_order now client answers o = do
  raise_if (not (o.client_id == client)) forbidden
  raise_if (not (o.status is ServiceOrderStatus.pending_requirements)) bad_request
  set_order o.id (submit now answers)
  notify o.freelancer_id order_requirements_submitted
  pure o.id

unfoldable pub submit_requirements : ℕ → ℕ → ℕ → List String → Action ℕ
submit_requirements now k client answers = with_order k (submit_order now client answers)

abbrev pub delivery_row : ℕ → ServiceOrder → String → List String → ℕ → ServiceOrderDelivery
delivery_row id o message files number = record {
  id = id;
  order_id = o.id;
  message = message;
  files = files;
  revision_number = number;
}

abbrev pub deliver : ℕ → ServiceOrder → ServiceOrder
deliver now o = record o { status = ServiceOrderStatus.delivered; delivered_at = some now }

abbrev pub is_deliverable : ServiceOrderStatus → Bool
is_deliverable s =
    (s is ServiceOrderStatus.in_progress) || (s is ServiceOrderStatus.revision_requested)

abbrev pub deliveries_of : ℕ → Db → List ServiceOrderDelivery
deliveries_of k db = select (λ d. d.order_id == k) db.deliveries

unfoldable pub deliver_order : ℕ → ℕ → String → List String → ServiceOrder → Action ℕ
deliver_order now freelancer message files o = do
  raise_if (not (o.freelancer_id == freelancer)) forbidden
  raise_if (not (is_deliverable o.status)) bad_request
  number ← gets λ db. length (deliveries_of o.id db)
  id ← new_id
  modify
      λ db. record db { deliveries = db.deliveries ++ delivery_row id o message files number ∷ [] }
  set_order o.id (deliver now)
  notify o.client_id order_delivered
  pure o.id

unfoldable pub mark_delivered : ℕ → ℕ → ℕ → String → List String → Action ℕ
mark_delivered now k freelancer message files =
    with_order k (deliver_order now freelancer message files)

abbrev pub is_spent : ℤ → Bool
is_spent (pos n) = n == 0
is_spent (negsuc n) = false

-- A positive count goes down; a negative one stands for no limit.
abbrev pub spend : ℤ → ℤ
spend (pos zero) = pos zero
spend (pos (suc n)) = pos n
spend (negsuc n) = negsuc n

abbrev pub revise : ℕ → ServiceOrder → ServiceOrder
revise now o = record o {
  status = ServiceOrderStatus.revision_requested;
  revisions_remaining = spend o.revisions_remaining;
  due_date = some (now + min o.delivery_days 3 * seconds_per_day);
}

unfoldable pub revise_order : ℕ → ℕ → ServiceOrder → Action ℕ
revise_order now client o = do
  raise_if (not (o.client_id == client)) forbidden
  raise_if (not (o.status is ServiceOrderStatus.delivered)) bad_request
  raise_if (is_spent o.revisions_remaining) bad_request
  set_order o.id (revise now)
  pure o.id

unfoldable pub request_revision : ℕ → ℕ → ℕ → Action ℕ
request_revision now k client = with_order k (revise_order now client)

abbrev pub complete : ℕ → ServiceOrder → ServiceOrder
complete now o = record o { status = ServiceOrderStatus.completed; completed_at = some now }

abbrev pub funded_order_rows : ℕ → Db → List Escrow
funded_order_rows k db =
    select (λ e. holds e.service_order_id k && (e.status is EscrowStatus.funded)) db.escrows

-- The escrow is released whatever the freelancer's payout account holds.
abbrev pub release_or_skip : ℕ → Option Escrow → Action (Unit {0})
release_or_skip now none = pure tt
release_or_skip now (some e) = do resp ← release_locked_escrow now e; pure tt

-- The writes of a completion.
unfoldable pub finish_order : ℕ → ServiceOrder → Action (Unit {0})
finish_order now o = do
  set_order o.id (complete now)
  find_one (funded_order_rows o.id) >>= release_or_skip now

unfoldable pub complete_checked : ℕ → ℕ → ServiceOrder → Action ℕ
complete_checked now client o = do
  raise_if (not (o.client_id == client)) forbidden
  raise_if (not (o.status is ServiceOrderStatus.delivered)) bad_request
  finish_order now o
  pure o.id

unfoldable pub complete_order : ℕ → ℕ → ℕ → Action ℕ
complete_order now k client = with_order k (complete_checked now client)
