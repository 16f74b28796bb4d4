-- ===== src/Approval/Threshold.antt =====
-- The threshold of backend/app/services/payout_approval_service.py (`request_release`): what one
-- admin may release alone.
use kaasb.Common.{
  ℕ, suc, ◌+◌, ◌≤◌, ◌<◌, ◌≡◌, ◌≢◌, refl, sym, ap, ◌∙◌, subst, Bool, ◌==◌, ◌&&◌, true, false, Option,
  none, some, [], ◌∷◌, ◌++◌, Distinct, sum_of, any-none, cons-head, arith, Text,
}
use kaasb.Db.{
  Db, ok, ◌is◌, PayoutApprovalStatus, approval_coded, find-inv, find_one-run, bind-inv, to_list,
  Escrow, PayoutApproval,
}
use kaasb.Payment.Settings.{Settings}
use kaasb.Payment.Release.{funded_rows, release_escrow_by_id}
use kaasb.Approval.Totals.{Single, Single-inv, Single-total}
use kaasb.Approval.Review.{
  freelancer_recent_release_total, recent_share, pending_share, released, pending_second_approval,
  single_released, queue_approval, requires_dual, request_decided, is_dual, request_found,
  request_release, pending_approvals, pending_approval, request_entry,
}

not_dual : (t total amount : ℕ) → requires_dual t total amount ≡ false → total + amount ≤ t
not_dual t total amount h = ground arith

is_above : (t total amount : ℕ) → t < total + amount → requires_dual t total amount ≡ true
is_above t total amount h = ground arith

module _ (s : Settings) (now k admin : ℕ) (remark : Option Text) where
  queued_not_released :
      (e : Escrow) (existing : Option PayoutApproval) (n : ℕ) (db db' : Db)
      → queue_approval now k admin remark e existing db ≢ ok (released n, db')
  queued_not_released e none n db db' h = ground arith
  queued_not_released e (some a) n db db' h = absurd (cc)

  abbrev queued_db : Escrow → Db → Db
  queued_db e db = record db {
    next_id = suc db.next_id;
    approvals = db.approvals ++ pending_approval db.next_id k admin e.amount remark ∷ [];
    audit = db.audit ++ request_entry now admin k e.amount ∷ [];
  }

  queue-run :
      (e : Escrow) (db : Db)
      → pending_approvals k db ≡ []
      → 0 < e.amount
      → queue_approval now k admin remark e none db
        ≡ ok (pending_second_approval db.next_id, queued_db e db)
  queue-run e db free positive = ground (
    arith,
    any-none (λ a. (a.escrow_id == k) && (a.status is PayoutApprovalStatus.pending)) db.approvals
        free,
  )

  bounded :
      (db db' : Db) (e : Escrow)
      → Distinct (λ x. x.id) db.escrows
      → (is_dual s now e db ≡ false) × Single now k admin e db db'
      → freelancer_recent_release_total now e.freelancer_id db' ≤ s.payout_approval_threshold
  bounded db db' e d (single, r) = omega (
    arith,
    not_dual s.payout_approval_threshold (freelancer_recent_release_total now e.freelancer_id db)
        e.amount single,
    Single-total now k admin e.freelancer_id e db db' d r,
  )

  request_decided-inv :
      (e : Escrow) (dual : Bool) (n : ℕ) (db db' : Db)
      → request_decided now k admin remark e dual db ≡ ok (released n, db')
      → (dual ≡ false) × Single now k admin e db db'
  unfolding request_decided
  request_decided-inv e false n db db' h =
      let (resp, db1, g, h') =
        bind-inv (release_escrow_by_id now k) (single_released now k admin e) db h in
      (refl, Single-inv now k admin n e resp db db1 db' g h')
  request_decided-inv e true n db db' h =
      let (existing, _, h') =
        find-inv (pending_approvals k) (queue_approval now k admin remark e) db h in
      absurd (queued_not_released e existing n db db' h')

  request_found-inv :
      (x : Option Escrow) (n : ℕ) (db db' : Db)
      → request_found s now k admin remark x db ≡ ok (released n, db')
      → (e : Escrow) × (x ≡ some e) × (is_dual s now e db ≡ false) × Single now k admin e db db'
  request_found-inv none n db db' h = absurd (cc)
  request_found-inv (some e) n db db' h =
      let (single, r) = request_decided-inv e (is_dual s now e db) n db db' h in
      (e, refl, single, r)

  -- Where one admin alone has released an escrow, the releases to its freelancer of the last 24 hours
  -- that are in the audit log, by any admin, with all that is waiting for approval, are within the
  -- threshold. Escrow ids are unique. A release for a dispute is not in the log.
  pub single_release-bounded :
      (db db' : Db) (e : Escrow) (n : ℕ)
      → Distinct (λ x. x.id) db.escrows
      → funded_rows k db ≡ e ∷ []
      → request_release s now k admin remark db ≡ ok (released n, db')
      → sum_of (recent_share now e.freelancer_id db'.escrows) db'.audit
          + sum_of (pending_share e.freelancer_id db'.escrows) db'.approvals
        ≤ s.payout_approval_threshold
  unfolding request_release freelancer_recent_release_total
  single_release-bounded db db' e n d found h =
      let (x, same, h') = find-inv (funded_rows k) (request_found s now k admin remark) db h in
      let (e', is_e', single, r) = request_found-inv x n db db' h' in
      let here : to_list x ≡ e' ∷ [] = ap to_list is_e' in
      let eq : e' ≡ e = cons-head (sym here ∙ sym same ∙ found) in
      bounded db db' e d
        (subst (λ y. (is_dual s now y db ≡ false) × Single now k admin y db db') eq (single, r))

  -- An escrow that takes the total of the window above the threshold moves no money: the request is
  -- queued for a second admin, and the ledger and the escrows stay as they were. No approval for
  -- the escrow is pending and its amount is positive.
  pub request-queued :
      (db : Db) (e : Escrow)
      → funded_rows k db ≡ e ∷ []
      → s.payout_approval_threshold
        < freelancer_recent_release_total now e.freelancer_id db + e.amount
      → pending_approvals k db ≡ []
      → 0 < e.amount
      → (db' : Db) × (request_release s now k admin remark db
          ≡ ok (pending_second_approval db.next_id, db'))
        × (db'.transactions ≡ db.transactions)
        × (db'.escrows ≡ db.escrows)
        × (db'.approvals ≡ db.approvals ++ pending_approval db.next_id k admin e.amount remark ∷ [])
  unfolding request_release request_decided
  request-queued db e found above free positive =
      let dual : is_dual s now e db ≡ true =
        is_above s.payout_approval_threshold
          (freelancer_recent_release_total now e.freelancer_id db) e.amount above in
      (
        queued_db e db,
        find_one-run (funded_rows k) (request_found s now k admin remark) db (some e) found
            ∙ ap (λ b. request_decided now k admin remark e b db) dual
            ∙ find_one-run (pending_approvals k) (queue_approval now k admin remark e) db none free
            ∙ queue-run e db free positive,
        refl,
        refl,
        refl,
      )
