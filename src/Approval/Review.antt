-- ===== src/Approval/Review.antt =====
-- `PayoutApprovalService`: `request_release`, `approve` and `reject`.
use kaasb.Common.{
  ℕ, ◌+◌, Bool, true, false, Option, none, some, List, [], ◌∷◌, length, select, sum_of,
  if◌then◌else◌, ltb, leb, ◌==◌, ◌&&◌, ◌||◌, not, is_some, Text, strip,
}
use kaasb.Db.{
  Db, Action, ◌>>=◌, ◌>>◌, pure, raise, gets, raise_if, find_one, new_id, set_approval,
  add_approval, audit_log, ◌is◌, holds, not_found, bad_request, forbidden, conflict, Escrow,
  PayoutApproval, PayoutApprovalStatus, AdminAuditLog, AdminAuditAction, AuditTarget,
  approval_coded, audit_coded,
}
use kaasb.Payment.Settings.{Settings}
use kaasb.Payment.Release.{funded_rows, ReleaseResponse, release_escrow_by_id}

-- `_FREELANCER_AGGREGATION_WINDOW`, 24 hours.
abbrev pub aggregation_window : ℕ
aggregation_window = 86_400

abbrev is_escrow : AuditTarget → Bool
is_escrow AuditTarget.escrow = true
is_escrow _ = false

abbrev pub is_recent_release : ℕ → AdminAuditLog → Bool
is_recent_release now l =
    (l.action is AdminAuditAction.escrow_released)
    && (is_escrow l.target_type && leb now (l.created_at + aggregation_window))

-- One row joined with the escrows of the freelancer: its amount for each that has the id.
abbrev pub joined_amount : Option ℕ → ℕ → ℕ → List Escrow → ℕ
joined_amount k freelancer amount es =
    sum_of (λ e. if holds k e.id && (e.freelancer_id == freelancer) then amount else 0) es

-- SUM skips NULL.
abbrev pub value_of : Option ℕ → ℕ
value_of none = 0
value_of (some x) = x

abbrev pub recent_share : ℕ → ℕ → List Escrow → AdminAuditLog → ℕ
recent_share now freelancer es l =
    if is_recent_release now l
    then joined_amount l.target_id freelancer (value_of l.amount) es
    else 0

abbrev pub pending_share : ℕ → List Escrow → PayoutApproval → ℕ
pending_share freelancer es a =
    if a.status is PayoutApprovalStatus.pending
    then joined_amount (some a.escrow_id) freelancer a.amount es
    else 0

-- `_freelancer_recent_release_total`
unfoldable pub freelancer_recent_release_total : ℕ → ℕ → Db → ℕ
freelancer_recent_release_total now freelancer db =
    sum_of (recent_share now freelancer db.escrows) db.audit
    + sum_of (pending_share freelancer db.escrows) db.approvals

-- The answer of `request_release`: the freelancer's amount, or the id of the approval.
pub data ReleaseRequest : Type 0 where
  released pending_second_approval : ℕ → ReleaseRequest

abbrev pub release_entry : ℕ → ℕ → ℕ → ℕ → AdminAuditLog
release_entry now admin escrow_id amount = record {
  admin_id = admin;
  action = AdminAuditAction.escrow_released;
  target_type = AuditTarget.escrow;
  target_id = some escrow_id;
  amount = some amount;
  created_at = now;
}

abbrev pub single_released : ℕ → ℕ → ℕ → Escrow → Option ReleaseResponse → Action ReleaseRequest
single_released now escrow_id admin e none = raise conflict
single_released now escrow_id admin e (some resp) = do
  audit_log (release_entry now admin escrow_id e.amount)
  pure (released resp.freelancer_amount)

abbrev pub pending_approval : ℕ → ℕ → ℕ → ℕ → Option Text → PayoutApproval
pending_approval id escrow_id admin amount remark = record {
  id = id;
  escrow_id = escrow_id;
  requested_by_id = some admin;
  decided_by_id = none;
  amount = amount;
  status = PayoutApprovalStatus.pending;
  request_note = remark;
  decision_note = none;
  decided_at = none;
}

abbrev pub request_entry : ℕ → ℕ → ℕ → ℕ → AdminAuditLog
request_entry now admin escrow_id amount = record {
  admin_id = admin;
  action = AdminAuditAction.escrow_release_requested;
  target_type = AuditTarget.escrow;
  target_id = some escrow_id;
  amount = some amount;
  created_at = now;
}

abbrev pub pending_approvals : ℕ → Db → List PayoutApproval
pending_approvals escrow_id db =
    select (λ a. (a.escrow_id == escrow_id) && (a.status is PayoutApprovalStatus.pending))
      db.approvals

abbrev pub queue_approval :
    ℕ → ℕ → ℕ → Option Text → Escrow → Option PayoutApproval → Action ReleaseRequest
queue_approval now escrow_id admin remark e existing = do
  raise_if (is_some existing) conflict
  id ← new_id
  add_approval (pending_approval id escrow_id admin e.amount remark)
  audit_log (request_entry now admin escrow_id e.amount)
  pure (pending_second_approval id)

abbrev pub requires_dual : ℕ → ℕ → ℕ → Bool
requires_dual threshold total amount = ltb threshold amount || ltb threshold (total + amount)

-- Below the threshold the escrow is released at once, above it waits for a second admin.
unfoldable pub request_decided : ℕ → ℕ → ℕ → Option Text → Escrow → Bool → Action ReleaseRequest
request_decided now escrow_id admin remark e false =
    release_escrow_by_id now escrow_id >>= single_released now escrow_id admin e
request_decided now escrow_id admin remark e true =
    find_one (pending_approvals escrow_id) >>= queue_approval now escrow_id admin remark e

abbrev pub is_dual : Settings → ℕ → Escrow → Db → Bool
is_dual s now e db =
    requires_dual s.payout_approval_threshold
      (freelancer_recent_release_total now e.freelancer_id db) e.amount

abbrev pub request_found :
    Settings → ℕ → ℕ → ℕ → Option Text → Option Escrow → Action ReleaseRequest
request_found s now escrow_id admin remark none = raise not_found
request_found s now escrow_id admin remark (some e) =
    gets (is_dual s now e) >>= request_decided now escrow_id admin remark e

unfoldable pub request_release : Settings → ℕ → ℕ → ℕ → Option Text → Action ReleaseRequest
request_release s now escrow_id admin remark =
    find_one (funded_rows escrow_id) >>= request_found s now escrow_id admin remark

abbrev pub load_found : Option PayoutApproval → Action PayoutApproval
load_found none = raise not_found
load_found (some a) = do raise_if (not (a.status is PayoutApprovalStatus.pending)) conflict; pure a

abbrev pub approval_rows : ℕ → Db → List PayoutApproval
approval_rows k db = select (λ a. a.id == k) db.approvals

-- `_load_pending`
unfoldable pub load_pending : ℕ → Action PayoutApproval
load_pending k = find_one (approval_rows k) >>= load_found

abbrev pub decide : PayoutApprovalStatus → ℕ → ℕ → Option Text → PayoutApproval → PayoutApproval
decide status admin now remark a = record a {
  status = status;
  decided_by_id = some admin;
  decided_at = some now;
  decision_note = remark;
}

-- The answer of `approve`: the freelancer's amount, or that the escrow is no longer FUNDED. The
-- latter is a `ConflictError` in the code, raised after the cancellation is committed.
pub data ApproveOutcome : Type 0 where
  approved : ℕ → ApproveOutcome
  unavailable : ApproveOutcome

abbrev pub decision_entry : AdminAuditAction → ℕ → ℕ → PayoutApproval → AdminAuditLog
decision_entry action now admin a = record {
  admin_id = admin;
  action = action;
  target_type = AuditTarget.payout_approval;
  target_id = some a.id;
  amount = some a.amount;
  created_at = now;
}

-- "Cancelled — escrow no longer in FUNDED state."
abbrev pub cancelled_note : Text
cancelled_note =
    67 ∷ 97 ∷ 110 ∷ 99 ∷ 101 ∷ 108 ∷ 108 ∷ 101 ∷ 100 ∷ 32 ∷ 8212 ∷ 32 ∷ 101 ∷ 115 ∷ 99 ∷ 114 ∷ 111
    ∷ 119 ∷ 32 ∷ 110 ∷ 111 ∷ 32 ∷ 108 ∷ 111 ∷ 110 ∷ 103 ∷ 101 ∷ 114 ∷ 32 ∷ 105 ∷ 110 ∷ 32 ∷ 70 ∷ 85
    ∷ 78 ∷ 68 ∷ 69 ∷ 68 ∷ 32 ∷ 115 ∷ 116 ∷ 97 ∷ 116 ∷ 101 ∷ 46 ∷ []

unfoldable pub approve_released :
    ℕ → ℕ → Option Text → PayoutApproval → Option ReleaseResponse → Action ApproveOutcome
approve_released now admin remark a none = do
  set_approval a.id (decide PayoutApprovalStatus.cancelled admin now (some cancelled_note))
  pure unavailable
approve_released now admin remark a (some resp) = do
  set_approval a.id (decide PayoutApprovalStatus.approved admin now remark)
  audit_log (decision_entry AdminAuditAction.payout_approved now admin a)
  audit_log (release_entry now admin a.escrow_id a.amount)
  pure (approved resp.freelancer_amount)

unfoldable pub approve_loaded : ℕ → ℕ → Option Text → PayoutApproval → Action ApproveOutcome
approve_loaded now admin remark a = do
  raise_if (holds a.requested_by_id admin) forbidden
  release_escrow_by_id now a.escrow_id >>= approve_released now admin remark a

unfoldable pub approve : ℕ → ℕ → ℕ → Option Text → Action ApproveOutcome
approve now k admin remark = load_pending k >>= approve_loaded now admin remark

-- A reason of three characters or more.
abbrev pub is_reason : Option Text → Bool
is_reason none = false
is_reason (some remark) = leb 3 (length (strip remark))

abbrev pub stripped : Option Text → Option Text
stripped none = none
stripped (some remark) = some (strip remark)

unfoldable pub reject_loaded : ℕ → ℕ → Option Text → PayoutApproval → Action ℕ
reject_loaded now admin remark a = do
  raise_if (holds a.requested_by_id admin) forbidden
  raise_if (not (is_reason remark)) bad_request
  set_approval a.id (decide PayoutApprovalStatus.rejected admin now (stripped remark))
  audit_log (decision_entry AdminAuditAction.payout_rejected now admin a)
  pure a.id

unfoldable pub reject : ℕ → ℕ → ℕ → Option Text → Action ℕ
reject now k admin remark = load_pending k >>= reject_loaded now admin remark
