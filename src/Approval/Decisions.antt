-- ===== src/Approval/Decisions.antt =====
-- The decisions of backend/app/services/payout_approval_service.py (`approve` and `reject`): an
-- approval is decided at most once.
use kaasb.Common.{
  ℕ, ◌≡◌, refl, ap, subst, ◌∙◌, sym, true, false, Option, none, some, [], ◌∷◌, select,
  select-update_row, update_row, not, arith, Text, ◌==◌, ==_refl,
}
use kaasb.Db.{
  Db, ok, err, conflict, forbidden, ◌>>=◌, pure, Escrow, ◌is◌, holds, find-inv, find_one-run,
  bind-inv, raise_if-inv, to_list, PayoutApproval, PayoutApprovalStatus, approval_coded,
}
use kaasb.Payment.Release.{release_escrow_by_id, release_checked, funded_rows, ReleaseResponse}
use kaasb.Payment.Releasing.{release_by_id-inv, release_locked-Released}
use kaasb.Approval.Review.{
  load_pending, load_found, approval_rows, approve, approve_loaded, approve_released,
  ApproveOutcome, reject, reject_loaded, decide, stripped, cancelled_note,
}

load_found-inv :
    (x : Option PayoutApproval) (a : PayoutApproval) (db db1 : Db)
    → load_found x db ≡ ok (a, db1)
    → (x ≡ some a) × ((a.status is PayoutApprovalStatus.pending) ≡ true) × (db1 ≡ db)
load_found-inv none a db db1 h = absurd (cc)
load_found-inv (some b) a db db1 h =
    let (pending, h') =
      raise_if-inv (not (b.status is PayoutApprovalStatus.pending)) conflict (pure b) db h in
    let same : b ≡ a = cc in
    (cc, subst (λ x. (x.status is PayoutApprovalStatus.pending) ≡ true) same (ground arith), cc)

pub load_pending-inv :
    (k : ℕ) (a : PayoutApproval) (db db1 : Db)
    → load_pending k db ≡ ok (a, db1)
    → (approval_rows k db ≡ a ∷ [])
      × ((a.status is PayoutApprovalStatus.pending) ≡ true)
      × (db1 ≡ db)
unfolding load_pending
load_pending-inv k a db db1 h =
    let (x, rows, h') = find-inv (approval_rows k) load_found db h in
    let (e, pending, same) = load_found-inv x a db db1 h' in (rows ∙ ap to_list e, pending, same)

-- A decision that `admin` took on the approval under `k`.
pub record Decided (now k admin : ℕ) (db db' : Db) : Type 0 where
  pub row : PayoutApproval
  pub status : PayoutApprovalStatus
  pub remark : Option Text
  pub found : approval_rows k db ≡ row ∷ []
  pub other : holds row.requested_by_id admin ≡ false
  pub decided : (status is PayoutApprovalStatus.pending) ≡ false
  pub approvals :
      db'.approvals ≡ update_row (λ a. a.id) row.id (decide status admin now remark) db.approvals

released_none-approvals :
    (now : ℕ) (e : Option Escrow) (db db' : Db)
    → release_checked now e db ≡ ok (none, db')
    → db'.approvals ≡ db.approvals
released_none-approvals now none db db' h =
    let same : db ≡ db' = cc in sym (ap (λ d. d.approvals) same)
released_none-approvals now (some e) db db' h = ground arith

pub release-approvals :
    (now k : ℕ) (resp : Option ReleaseResponse) (db db' : Db)
    → release_escrow_by_id now k db ≡ ok (resp, db')
    → db'.approvals ≡ db.approvals
unfolding release_escrow_by_id
release-approvals now k none db db' h =
    let (e, _, h') = find-inv (funded_rows k) (release_checked now) db h in
    released_none-approvals now e db db' h'
release-approvals now k (some resp) db db' h =
    let r = release_by_id-inv now k db resp db' h in
    (release_locked-Released now r.escrow db r.locked).approvals

approve_loaded-inv :
    (now admin : ℕ) (remark : Option Text) (a : PayoutApproval) (db : Db) {r : ApproveOutcome × Db}
    → approve_loaded now admin remark a db ≡ ok r
    → (holds a.requested_by_id admin ≡ false)
      × ((resp : Option ReleaseResponse) × (db1 : Db) × (release_escrow_by_id now a.escrow_id db
            ≡ ok (resp, db1))
          × (approve_released now admin remark a resp db1 ≡ ok r))
unfolding approve_loaded
approve_loaded-inv now admin remark a db h =
    let (other, h') =
      raise_if-inv (holds a.requested_by_id admin) forbidden
        (release_escrow_by_id now a.escrow_id >>= approve_released now admin remark a) db h in
    (
      other,
      bind-inv (release_escrow_by_id now a.escrow_id) (approve_released now admin remark a) db h',
    )

approve_released-Decided :
    (now k admin : ℕ) (remark : Option Text) (a : PayoutApproval) (resp : Option ReleaseResponse)
    (db db1 : Db) {r : ApproveOutcome × Db}
    → approval_rows k db ≡ a ∷ []
    → holds a.requested_by_id admin ≡ false
    → db1.approvals ≡ db.approvals
    → approve_released now admin remark a resp db1 ≡ ok r
    → Decided now k admin db r.1
unfolding approve_released
approve_released-Decided now k admin remark a none db db1 found other same h = record {
  row = a;
  status = PayoutApprovalStatus.cancelled;
  remark = some cancelled_note;
  found = found;
  other = other;
  decided = refl;
  approvals = ground (arith, same);
}
approve_released-Decided now k admin remark a (some resp) db db1 found other same h = record {
  row = a;
  status = PayoutApprovalStatus.approved;
  remark = remark;
  found = found;
  other = other;
  decided = refl;
  approvals = ground (arith, same);
}

pub approve-Decided :
    (now k admin : ℕ) (remark : Option Text) (db : Db) {r : ApproveOutcome × Db}
    → approve now k admin remark db ≡ ok r
    → Decided now k admin db r.1
unfolding approve
approve-Decided now k admin remark db {r} h =
    let (a, db1, loaded, h') = bind-inv (load_pending k) (approve_loaded now admin remark) db h in
    let (found, _, same) = load_pending-inv k a db db1 loaded in
    let (other, rest) = approve_loaded-inv now admin remark a db1 h' in
    let (resp, db2, g, h2) = rest in
    approve_released-Decided now k admin remark a resp db db2 found other
      (release-approvals now a.escrow_id resp db1 db2 g ∙ ap (λ d. d.approvals) same) h2

reject_loaded-Decided :
    (now k admin : ℕ) (remark : Option Text) (a : PayoutApproval) (db : Db) {r : ℕ × Db}
    → approval_rows k db ≡ a ∷ []
    → reject_loaded now admin remark a db ≡ ok r
    → Decided now k admin db r.1
unfolding reject_loaded
reject_loaded-Decided now k admin remark a db found h = record {
  row = a;
  status = PayoutApprovalStatus.rejected;
  remark = stripped remark;
  found = found;
  other = ground arith;
  decided = refl;
  approvals = ground arith;
}

pub reject-Decided :
    (now k admin : ℕ) (remark : Option Text) (db : Db) {r : ℕ × Db}
    → reject now k admin remark db ≡ ok r
    → Decided now k admin db r.1
unfolding reject
reject-Decided now k admin remark db {r} h =
    let (a, db1, loaded, h') = bind-inv (load_pending k) (reject_loaded now admin remark) db h in
    let (found, _, same) = load_pending-inv k a db db1 loaded in
    let h2 = subst (λ d. reject_loaded now admin remark a d ≡ ok r) same h' in
    reject_loaded-Decided now k admin remark a db found h2

load_pending-Decided :
    (now k admin : ℕ) (db db' : Db) → Decided now k admin db db' → load_pending k db' ≡ err conflict
unfolding load_pending
load_pending-Decided now k admin db db' d =
    let f = decide d.status admin now d.remark in
    let rows : approval_rows k db' ≡ f d.row ∷ [] =
      ap (select (λ a. a.id == k)) d.approvals
      ∙ select-update_row (λ a. a.id) (λ a. a.id == k) d.row.id f (λ a. refl) db.approvals
      ∙ ap (update_row (λ a. a.id) d.row.id f) d.found
      ∙ rw (==_refl d.row.id) refl in
    find_one-run (approval_rows k) load_found db' (some (f d.row)) rows ∙ rw d.decided refl

module _ (now k admin later other : ℕ) (remark again : Option Text) (db : Db) where
  final :
      {db' : Db}
      → Decided now k admin db db'
      → (approve later k other again db' ≡ err conflict)
        × (reject later k other again db' ≡ err conflict)
  unfolding approve reject
  final {db'} d =
      let closed = load_pending-Decided now k admin db db' d in
      (
        ap (λ x. ((λ _. x) >>= approve_loaded later other again) db') closed,
        ap (λ x. ((λ _. x) >>= reject_loaded later other again) db') closed,
      )

  -- After an approval or a cancellation that `approve` recorded, neither `approve` nor `reject`
  -- decides the same approval again: both raise a conflict.
  pub approve-final :
      {r : ApproveOutcome × Db}
      → approve now k admin remark db ≡ ok r
      → (approve later k other again r.1 ≡ err conflict)
        × (reject later k other again r.1 ≡ err conflict)
  approve-final h = final (approve-Decided now k admin remark db h)

  -- After a rejection, neither `approve` nor `reject` decides the same approval again: both raise a
  -- conflict.
  pub reject-final :
      {r : ℕ × Db}
      → reject now k admin remark db ≡ ok r
      → (approve later k other again r.1 ≡ err conflict)
        × (reject later k other again r.1 ≡ err conflict)
  reject-final h = final (reject-Decided now k admin remark db h)
