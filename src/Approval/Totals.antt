-- ===== src/Approval/Totals.antt =====
-- The total of the last 24 hours (backend/app/services/payout_approval_service.py,
-- `_freelancer_recent_release_total`), and what one admin's release adds to it.
use kaasb.Common.{
  ℕ, suc, ◌+◌, ◌≤◌, ◌≡◌, ◌≢◌, refl, sym, ap₂, ◌∙◌, subst, Bool-cases, inl, inr, ==→eq, ◌==◌, Option,
  none, some, List, [], ◌∷◌, ◌++◌, All, Distinct, sum_of, sum_of-append, sum_of-ext, arith,
}
use kaasb.Db.{Db, ok, approval_coded, Escrow, PayoutApproval, AdminAuditLog}
use kaasb.Payment.Release.{ReleaseResponse, release_escrow_by_id, release_rows}
use kaasb.Payment.Releasing.{release_by_id-inv, release_locked-Released}
use kaasb.Approval.Review.{
  joined_amount, recent_share, pending_share, freelancer_recent_release_total, released,
  release_entry, single_released, value_of,
}

module _ (k freelancer amount : ℕ) where
  joined-zero :
      (es : List Escrow) → All (λ e. e.id ≢ k) es → joined_amount (some k) freelancer amount es ≡ 0
  joined-zero [] h = refl
  joined-zero (e ∷ es) h = ground (arith, h.0, joined-zero es h.1)

  -- Ids are unique, so one row of the log counts at most once.
  joined-le :
      (es : List Escrow)
      → Distinct (λ e. e.id) es
      → joined_amount (some k) freelancer amount es ≤ amount
  joined-le [] d = omega arith
  joined-le (e ∷ es) d = elim (Bool-cases (k == e.id)) [
    | inl hit ↦
        let same : k ≡ e.id = ==→eq k e.id hit in
        let rest = joined-zero es (subst (λ i. All (λ y. y.id ≢ i) es) (sym same) d.0) in
        ground (arith, rest)
    | inr miss ↦ ground (arith, joined-le es d.1)
  ]

module _ (tx now : ℕ) (e : Escrow) (k : Option ℕ) (freelancer amount : ℕ) where
  joined-release_rows :
      (es : List Escrow)
      → joined_amount k freelancer amount (release_rows tx now e es)
        ≡ joined_amount k freelancer amount es
  unfolding release_rows
  joined-release_rows [] = refl
  joined-release_rows (x ∷ es) = ground (arith, joined-release_rows es)

-- A release by one admin: the release itself, and its entry in the log.
pub record Single (now k admin : ℕ) (e : Escrow) (db db' : Db) : Type 0 where
  tx : ℕ
  paid : Escrow
  escrows : db'.escrows ≡ release_rows tx now paid db.escrows
  approvals : db'.approvals ≡ db.approvals
  audit : db'.audit ≡ db.audit ++ release_entry now admin k e.amount ∷ []

pub Single-inv :
    (now k admin n : ℕ) (e : Escrow) (resp : Option ReleaseResponse) (db db1 db' : Db)
    → release_escrow_by_id now k db ≡ ok (resp, db1)
    → single_released now k admin e resp db1 ≡ ok (released n, db')
    → Single now k admin e db db'
Single-inv now k admin n e none db db1 db' h g = absurd (cc)
Single-inv now k admin n e (some resp) db db1 db' h g =
    let r = release_by_id-inv now k db resp db1 h in
    let d = release_locked-Released now r.escrow db r.locked in
    record {
      tx = suc db.next_id;
      paid = r.escrow;
      escrows = ground (arith, d.escrows);
      approvals = ground (arith, d.approvals);
      audit = ground (arith, d.audit);
    }

recent-release_rows :
    (tx now : ℕ) (e : Escrow) (f : ℕ) (es : List Escrow) (l : AdminAuditLog)
    → recent_share now f (release_rows tx now e es) l ≡ recent_share now f es l
recent-release_rows tx now e f es l =
    ground (arith, joined-release_rows tx now e l.target_id f (value_of l.amount) es)

pending-release_rows :
    (tx now : ℕ) (e : Escrow) (f : ℕ) (es : List Escrow) (a : PayoutApproval)
    → pending_share f (release_rows tx now e es) a ≡ pending_share f es a
pending-release_rows tx now e f es a =
    ground (arith, joined-release_rows tx now e (some a.escrow_id) f a.amount es)

entry-le :
    (now admin k f amount : ℕ) (es : List Escrow)
    → Distinct (λ e. e.id) es
    → recent_share now f es (release_entry now admin k amount) ≤ amount
entry-le now admin k f amount es d = ground (arith, joined-le k f amount es d)

-- What a release by one admin adds to the total of the window.
pub Single-total :
    (now k admin f : ℕ) (e : Escrow) (db db' : Db)
    → Distinct (λ x. x.id) db.escrows
    → Single now k admin e db db'
    → freelancer_recent_release_total now f db'
      ≤ freelancer_recent_release_total now f db + e.amount
unfolding freelancer_recent_release_total
Single-total now k admin f e db db' d r =
    let es = db.escrows in
    let entry = release_entry now admin k e.amount in
    let es' = release_rows r.tx now r.paid es in
    let recent : sum_of (recent_share now f db'.escrows) db'.audit
        ≡ sum_of (recent_share now f es) db.audit + recent_share now f es entry =
      ap₂ (λ x y. sum_of (recent_share now f x) y) r.escrows r.audit
      ∙ sum_of-ext (recent_share now f es') (recent_share now f es)
          (recent-release_rows r.tx now r.paid f es) (db.audit ++ entry ∷ [])
      ∙ sum_of-append (recent_share now f es) db.audit (entry ∷ [])
      ∙ omega arith in
    let waiting : sum_of (pending_share f db'.escrows) db'.approvals
        ≡ sum_of (pending_share f es) db.approvals =
      ap₂ (λ x y. sum_of (pending_share f x) y) r.escrows r.approvals
      ∙ sum_of-ext (pending_share f es') (pending_share f es)
          (pending-release_rows r.tx now r.paid f es) db.approvals in
    omega (arith, recent, waiting, entry-le now admin k f e.amount es d)
