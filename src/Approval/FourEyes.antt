-- ===== src/Approval/FourEyes.antt =====
-- Four eyes (backend/app/services/payout_approval_service.py): whoever decides an approval is not
-- the admin who asked for it.
use kaasb.Common.{
  ℕ, ◌≡◌, refl, sym, subst, Bool, true, false, Option, none, some, List, [], ◌∷◌, ◌++◌, All,
  All-append, All-imp, All-update_row, select-single, found-test, ◌==◌, arith, Text,
}
use kaasb.Db.{
  Db, ok, ◌is◌, holds, find-inv, bind-inv, request-keeps, PayoutApproval, PayoutApprovalStatus,
  approval_coded, Escrow,
}
use kaasb.Payment.Settings.{Settings}
use kaasb.Payment.Release.{funded_rows, ReleaseResponse, release_escrow_by_id}
use kaasb.Approval.Review.{
  ReleaseRequest, request_release, request_found, request_decided, is_dual, queue_approval,
  pending_approvals, pending_approval, single_released, approve, reject, decide,
}
use kaasb.Approval.Decisions.{Decided, approve-Decided, reject-Decided, release-approvals}
use kaasb.Approval.Calls.{Call, requests, approves, rejects, step, run}

-- An approval that is no longer pending was decided by an admin who did not ask for it.
abbrev pub IsFourEyes : PayoutApproval → Type 0
IsFourEyes a =
    (a.status is PayoutApprovalStatus.pending) ≡ false
    → (d : ℕ) × (a.decided_by_id ≡ some d) × (holds a.requested_by_id d ≡ false)

abbrev pub AllFourEyes : Db → Type 0
AllFourEyes db = All IsFourEyes db.approvals

Decided-FourEyes :
    (now k admin : ℕ) (db db' : Db) → Decided now k admin db db' → AllFourEyes db → AllFourEyes db'
Decided-FourEyes now k admin db db' d all =
    let f = decide d.status admin now d.remark in
    subst (All IsFourEyes) (sym d.approvals) (
      All-update_row (λ a. a.id) IsFourEyes d.row.id f db.approvals
        (All-imp (λ x. (x.id == k) ≡ true → x ≡ d.row) (λ x. x.id ≡ d.row.id → IsFourEyes (f x))
          (λ x only same _.
            let here = found-test (λ a. a.id == k) d.row [] db.approvals d.found in
            let at_k = subst (λ i. (i == k) ≡ true) (sym same) here in
            (
              admin,
              refl,
              subst (λ y. holds y.requested_by_id admin ≡ false) (sym (only at_k)) d.other,
            ))
          db.approvals (select-single (λ a. a.id == k) d.row db.approvals d.found))
        all)

module _ (s : Settings) where
  queue_approval-FourEyes :
      (now k admin : ℕ) (remark : Option Text) (e : Escrow) (x : Option PayoutApproval) (db : Db)
      {r : ReleaseRequest × Db}
      → queue_approval now k admin remark e x db ≡ ok r
      → AllFourEyes db
      → AllFourEyes r.1
  queue_approval-FourEyes now k admin remark e none db {r} h all =
      let a = pending_approval db.next_id k admin e.amount remark in
      let added : r.1.approvals ≡ db.approvals ++ a ∷ [] = ground arith in
      subst (All IsFourEyes) (sym added)
        (All-append IsFourEyes db.approvals (a ∷ []) all (λ closed. absurd (cc), tt))
  queue_approval-FourEyes now k admin remark e (some a) db h all = absurd (cc)

  single_released-FourEyes :
      (now k admin : ℕ) (e : Escrow) (resp : Option ReleaseResponse) (db : Db)
      {r : ReleaseRequest × Db}
      → single_released now k admin e resp db ≡ ok r
      → AllFourEyes db
      → AllFourEyes r.1
  single_released-FourEyes now k admin e none db h all = absurd (cc)
  single_released-FourEyes now k admin e (some resp) db {r} h all =
      let same : r.1.approvals ≡ db.approvals = ground arith in
      subst (All IsFourEyes) (sym same) all

  request_Decided-FourEyes :
      (now k admin : ℕ) (remark : Option Text) (e : Escrow) (dual : Bool) (db : Db)
      {r : ReleaseRequest × Db}
      → request_decided now k admin remark e dual db ≡ ok r
      → AllFourEyes db
      → AllFourEyes r.1
  unfolding request_decided
  request_Decided-FourEyes now k admin remark e true db h all =
      let (x, _, h') = find-inv (pending_approvals k) (queue_approval now k admin remark e) db h in
      queue_approval-FourEyes now k admin remark e x db h' all
  request_Decided-FourEyes now k admin remark e false db h all =
      let (resp, db1, g, h') =
        bind-inv (release_escrow_by_id now k) (single_released now k admin e) db h in
      single_released-FourEyes now k admin e resp db1 h'
        (subst (All IsFourEyes) (sym (release-approvals now k resp db db1 g)) all)

  request_found-FourEyes :
      (now k admin : ℕ) (remark : Option Text) (x : Option Escrow) (db : Db)
      {r : ReleaseRequest × Db}
      → request_found s now k admin remark x db ≡ ok r
      → AllFourEyes db
      → AllFourEyes r.1
  request_found-FourEyes now k admin remark none db h all = absurd (cc)
  request_found-FourEyes now k admin remark (some e) db h all =
      request_Decided-FourEyes now k admin remark e (is_dual s now e db) db h all

  step-FourEyes : (c : ℕ × Call) (db : Db) → AllFourEyes db → AllFourEyes (step s c db)
  unfolding step request_release
  step-FourEyes (now, requests k admin remark) db =
      request-keeps AllFourEyes (request_release s now k admin remark) db λ r h all.
        let (x, _, h') = find-inv (funded_rows k) (request_found s now k admin remark) db h in
        request_found-FourEyes now k admin remark x db h' all
  step-FourEyes (now, approves k admin remark) db =
      request-keeps AllFourEyes (approve now k admin remark) db
        λ r h all. Decided-FourEyes now k admin db r.1 (approve-Decided now k admin remark db h) all
  step-FourEyes (now, rejects k admin remark) db =
      request-keeps AllFourEyes (reject now k admin remark) db
        λ r h all. Decided-FourEyes now k admin db r.1 (reject-Decided now k admin remark db h) all

  -- After any history of the admins' requests, each approval that is no longer pending was decided
  -- by an admin other than the one who asked for it, if this was so at first.
  pub run-FourEyes : (cs : List (ℕ × Call)) (db : Db) → AllFourEyes db → AllFourEyes (run s cs db)
  unfolding run
  run-FourEyes [] db all = all
  run-FourEyes (c ∷ cs) db all = run-FourEyes cs (step s c db) (step-FourEyes c db all)
