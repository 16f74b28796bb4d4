-- ===== src/Orders/Disputes.antt =====
-- Disputes on orders: `CatalogService.raise_dispute` and `resolve_dispute`
-- (backend/app/services/catalog_service.py), and `DisputeService` (dispute_service.py).
use kaasb.Common.{
  ℕ, Bool, true, false, Option, none, some, List, [], ◌∷◌, ◌++◌, select, update_row, is_some,
  if◌then◌else◌, ◌==◌, ◌&&◌, ◌||◌, not, Text, take,
}
use kaasb.Db.{
  Db, Action, ◌>>=◌, ◌>>◌, pure, raise, modify, raise_if, find_one, new_id, notify, set_escrow,
  ◌is◌, holds, not_found, forbidden, bad_request, conflict, EscrowStatus, ServiceOrderStatus,
  DisputeStatus, DisputeResolution, Escrow, ServiceOrder, Dispute, NotificationType, order_coded,
  escrow_coded, dispute_coded,
}
use kaasb.Payment.Confirm.{set_order}
use kaasb.Payment.Release.{release_escrow_by_id}
use kaasb.Payment.Refund.{refund_escrow_by_service_order}
use kaasb.Orders.Threads.{code_points, tell_order}
use kaasb.Orders.Work.{with_order, funded_order_rows}

abbrev pub is_disputable : ServiceOrderStatus → Bool
is_disputable s =
    (s is ServiceOrderStatus.pending_requirements)
    || ((s is ServiceOrderStatus.in_progress)
        || ((s is ServiceOrderStatus.delivered) || (s is ServiceOrderStatus.revision_requested)))

abbrev pub open_dispute_on : ℕ → ℕ → Text → ServiceOrder → ServiceOrder
open_dispute_on now user reason o = record o {
  status = ServiceOrderStatus.disputed;
  dispute_reason = some reason;
  dispute_opened_at = some now;
  dispute_opened_by = some user;
}

abbrev pub set_status : EscrowStatus → Escrow → Escrow
set_status s e = record e { status = s }

-- A funded escrow is frozen.
abbrev pub freeze : Option Escrow → Action (Unit {0})
freeze none = pure tt
freeze (some e) = set_escrow e.id (set_status EscrowStatus.disputed)

-- The order's and the escrow's part of a new dispute.
unfoldable pub dispute_order : ℕ → ℕ → Text → ServiceOrder → Action (Unit {0})
dispute_order now user reason o = do
  set_order o.id (open_dispute_on now user reason)
  find_one (funded_order_rows o.id) >>= freeze

-- The f-strings of the two messages; that on the outcome is given without the admin's note.
abbrev pub opened_text : Text → Text
opened_text reason =
    (9888 ∷ 65039 ∷ code_points " Dispute opened\nReason: ")
    ++ (take 500 reason
        ++ code_points "\nThe escrow has been frozen. An admin will review and resolve.")

unfoldable pub raise_on : ℕ → ℕ → Text → ServiceOrder → Action ℕ
raise_on now client reason o = do
  raise_if (not (o.client_id == client)) forbidden
  raise_if (not (is_disputable o.status)) bad_request
  raise_if (o.status is ServiceOrderStatus.disputed) bad_request
  dispute_order now client reason o
  tell_order now o.id (opened_text reason)
  notify o.freelancer_id NotificationType.dispute_opened
  pure o.id

unfoldable pub raise_dispute : ℕ → ℕ → ℕ → Text → Action ℕ
raise_dispute now k client reason = with_order k (raise_on now client reason)

-- The text `resolution`.
pub data Verdict : Type 0 where
  release refund unknown : Verdict

abbrev pub is_known : Verdict → Bool
is_known release = true
is_known refund = true
is_known unknown = false

abbrev pub resolved_text : Verdict → Text
resolved_text release = code_points "✅ Dispute resolved\nOutcome: released to freelancer"
resolved_text refund = code_points "✅ Dispute resolved\nOutcome: refunded to client"
resolved_text unknown = code_points "✅ Dispute resolved\nOutcome: refunded to client"

abbrev pub disputed_order_rows : ℕ → Db → List Escrow
disputed_order_rows k db =
    select (λ e. holds e.service_order_id k && (e.status is EscrowStatus.disputed)) db.escrows

abbrev pub resolve_completed : ℕ → ServiceOrder → ServiceOrder
resolve_completed now o = record o {
  status = ServiceOrderStatus.completed;
  completed_at = some now;
  dispute_resolution = some DisputeResolution.released_to_freelancer;
  dispute_resolved_at = some now;
}

abbrev pub resolve_cancelled : ℕ → ℕ → ServiceOrder → ServiceOrder
resolve_cancelled now admin o = record o {
  status = ServiceOrderStatus.cancelled;
  cancelled_by = some admin;
  dispute_resolution = some DisputeResolution.refunded_to_client;
  dispute_resolved_at = some now;
}

-- The escrow is unfrozen and released; that nothing was released goes unnoticed.
unfoldable pub release_disputed : ℕ → Option Escrow → Action (Unit {0})
release_disputed now none = pure tt
release_disputed now (some e) = do
  set_escrow e.id (set_status EscrowStatus.funded)
  resp ← release_escrow_by_id now e.id
  pure tt

unfoldable pub refund_disputed : ℕ → ℕ → Option Escrow → Action (Unit {0})
refund_disputed now k none = pure tt
refund_disputed now k (some e) = do done ← refund_escrow_by_service_order now k; pure tt

unfoldable pub settle_dispute : ℕ → ℕ → Verdict → ServiceOrder → Option Escrow → Action (Unit {0})
settle_dispute now admin release o e = do
  release_disputed now e
  set_order o.id (resolve_completed now)
settle_dispute now admin refund o e = do
  refund_disputed now o.id e
  set_order o.id (resolve_cancelled now admin)
settle_dispute now admin unknown o e = raise bad_request

unfoldable pub resolve_on : ℕ → ℕ → Verdict → ServiceOrder → Action ℕ
resolve_on now admin verdict o = do
  raise_if (not (o.status is ServiceOrderStatus.disputed)) bad_request
  find_one (disputed_order_rows o.id) >>= settle_dispute now admin verdict o
  tell_order now o.id (resolved_text verdict)
  notify o.client_id NotificationType.dispute_resolved
  notify o.freelancer_id NotificationType.dispute_resolved
  pure o.id

-- `CatalogService.resolve_dispute`
unfoldable pub resolve_order : ℕ → ℕ → ℕ → Verdict → Action ℕ
resolve_order now k admin verdict = do
  raise_if (not (is_known verdict)) bad_request
  with_order k (resolve_on now admin verdict)

abbrev pub new_dispute : ℕ → ℕ → Bool → Dispute
new_dispute id order by_client = record {
  id = id;
  order_id = order;
  by_client = by_client;
  status = DisputeStatus.open_status;
  admin_id = none;
  admin_notes = none;
  resolved_at = none;
}

unfoldable pub open_checked : ℕ → ℕ → Text → ServiceOrder → Option Dispute → Action ℕ
open_checked now user description o existing = do
  raise_if (is_some existing) conflict
  let by_client = o.client_id == user
  id ← new_id
  modify λ db. record db { disputes = db.disputes ++ new_dispute id o.id by_client ∷ [] }
  dispute_order now user (take 500 description) o
  notify (if by_client then o.freelancer_id else o.client_id) NotificationType.dispute_opened
  pure id

abbrev pub dispute_rows_of : ℕ → Db → List Dispute
dispute_rows_of k db = select (λ d. d.order_id == k) db.disputes

unfoldable pub open_on : ℕ → ℕ → Text → ServiceOrder → Action ℕ
open_on now user description o = do
  raise_if (not ((o.client_id == user) || (o.freelancer_id == user))) forbidden
  raise_if (not (is_disputable o.status)) bad_request
  find_one (dispute_rows_of o.id) >>= open_checked now user description o

-- `DisputeService.open_dispute`
unfoldable pub open_dispute : ℕ → ℕ → ℕ → Text → Action ℕ
open_dispute now k user description = with_order k (open_on now user description)

abbrev pub set_dispute : ℕ → (Dispute → Dispute) → Action (Unit {0})
set_dispute k f = modify λ db. record db { disputes = update_row (λ d. d.id) k f db.disputes }

abbrev pub dispute_rows : ℕ → Db → List Dispute
dispute_rows k db = select (λ d. d.id == k) db.disputes

abbrev pub is_open : DisputeStatus → Bool
is_open s = (s is DisputeStatus.open_status) || (s is DisputeStatus.under_review)

abbrev pub notes_or : Option Text → Option Text → Option Text
notes_or none old = old
notes_or (some []) old = old
notes_or (some (c ∷ cs)) old = some (c ∷ cs)

unfoldable pub assign_found : ℕ → Option Text → Option Dispute → Action ℕ
assign_found admin notes none = raise not_found
assign_found admin notes (some d) = do
  raise_if (not (is_open d.status)) bad_request
  set_dispute d.id λ x. record x {
    admin_id = some admin;
    status = DisputeStatus.under_review;
    admin_notes = notes_or notes x.admin_notes;
  }
  pure d.id

unfoldable pub assign_admin : ℕ → ℕ → Option Text → Action ℕ
assign_admin k admin notes = find_one (dispute_rows k) >>= assign_found admin notes

abbrev pub verdict_status : Verdict → DisputeStatus
verdict_status release = DisputeStatus.resolved_release
verdict_status refund = DisputeStatus.resolved_refund
verdict_status unknown = DisputeStatus.resolved_refund

abbrev pub is_resolved : DisputeStatus → Bool
is_resolved s = (s is DisputeStatus.resolved_refund) || (s is DisputeStatus.resolved_release)

abbrev pub close : ℕ → ℕ → Verdict → Option Text → Dispute → Dispute
close now admin verdict notes d = record d {
  status = verdict_status verdict;
  admin_id = some admin;
  admin_notes = notes;
  resolved_at = some now;
}

unfoldable pub resolve_found : ℕ → ℕ → Verdict → Option Text → Option Dispute → Action ℕ
resolve_found now admin verdict notes none = raise not_found
resolve_found now admin verdict notes (some d) = do
  raise_if (is_resolved d.status) bad_request
  order ← resolve_order now d.order_id admin verdict
  set_dispute d.id (close now admin verdict notes)
  pure d.id

-- `DisputeService.resolve_dispute`
unfoldable pub resolve_dispute : ℕ → ℕ → ℕ → Verdict → Option Text → Action ℕ
resolve_dispute now k admin verdict notes = do
  raise_if (not (is_known verdict)) bad_request
  find_one (dispute_rows k) >>= resolve_found now admin verdict notes
