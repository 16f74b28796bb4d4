-- ===== src/Contracts/Review.antt =====
-- `ContractService.review_milestone` (backend/app/services/contract_service.py): the approval, which
-- releases the milestone's escrow, or the request of a revision.
use kaasb.Common.{
  ℕ, ◌+◌, Bool, Option, none, some, List, sum_of, all, length, update_row, if◌then◌else◌, ltb, ◌==◌,
  ◌&&◌, not, Text,
}
use kaasb.Db.{
  Db, Action, ◌>>=◌, ◌>>◌, pure, gets, modify, raise_if, when, notify, ◌is◌, forbidden, bad_request,
  integrity, ContractStatus, MilestoneStatus, JobStatus, Contract, Milestone, NotificationType,
  contract_coded, milestone_coded,
}
use kaasb.Payment.Release.{release_escrow, ReleaseResponse}
use kaasb.Contracts.Milestones.{milestones_of, with_milestone, set_milestone, set_contract}

pub data ReviewAction : Type 0 where
  approve request_revision : ReviewAction

abbrev pub is_paid : Milestone → Bool
is_paid m = m.status is MilestoneStatus.paid

abbrev pub paid_amount : Milestone → ℕ
paid_amount m = if is_paid m then m.amount else 0

-- What `amount_paid` is set to.
abbrev pub paid_total : ℕ → Db → ℕ
paid_total k db = sum_of paid_amount (milestones_of k db)

abbrev pub is_complete : List Milestone → Bool
is_complete ms = all is_paid ms && ltb 0 (length ms)

abbrev complete_job : ℕ → Action (Unit {0})
complete_job k = modify λ db. record db {
  jobs = update_row (λ j. j.id) k (λ j. record j { status = JobStatus.completed }) db.jobs;
}

-- The counters of the two users; `jobs` is 1 when the contract is complete.
abbrev credit : Contract → ℕ → ℕ → Action (Unit {0})
credit c amount jobs = do
  modify λ db. record db {
    users =
        update_row (λ u. u.id) c.freelancer_id
          (λ u. record u {
            total_earnings = u.total_earnings + amount;
            jobs_completed = u.jobs_completed + jobs;
          })
          db.users;
  }
  modify λ db. record db {
    users =
        update_row (λ u. u.id) c.client_id (λ u. record u { total_spent = u.total_spent + amount })
          db.users;
  }

unfoldable pub complete_contract : ℕ → Contract → Action (Unit {0})
complete_contract now c = do
  set_contract c.id λ x. record x { status = ContractStatus.completed; completed_at = some now }
  complete_job c.job_id
  notify c.client_id NotificationType.contract_completed
  notify c.freelancer_id NotificationType.contract_completed

-- The flush of `amount_paid` checks `ck_contract_amount_paid_le_total`.
unfoldable pub pay_milestone : ℕ → Milestone → Contract → Action (Unit {0})
pay_milestone now m c = do
  set_milestone m.id λ x. record x { status = MilestoneStatus.paid; paid_at = some now }
  paid ← gets (paid_total c.id)
  raise_if (ltb c.total_amount paid) integrity
  set_contract c.id λ x. record x { amount_paid = paid }
  complete ← gets λ db. is_complete (milestones_of c.id db)
  when complete (complete_contract now c)
  credit c m.amount (if complete then 1 else 0)

-- Without a funded escrow the milestone stays APPROVED.
abbrev pub pay_released : ℕ → Milestone → Contract → Option ReleaseResponse → Action (Unit {0})
pay_released now m c none = pure tt
pay_released now m c (some resp) = pay_milestone now m c

abbrev pub approve_row : ℕ → Option Text → Milestone → Milestone
approve_row now feedback m = record m {
  feedback = feedback;
  status = MilestoneStatus.approved;
  approved_at = some now;
}

unfoldable pub review_as : ℕ → ReviewAction → Option Text → Milestone → Contract → Action ℕ
review_as now approve feedback m c = do
  set_milestone m.id (approve_row now feedback)
  release_escrow now m.id >>= pay_released now m c
  notify c.freelancer_id NotificationType.milestone_approved
  pure m.id
review_as now request_revision feedback m c = do
  set_milestone m.id
      λ x. record x { feedback = feedback; status = MilestoneStatus.revision_requested }
  notify c.freelancer_id NotificationType.milestone_revision
  pure m.id

unfoldable pub review_checked : ℕ → ℕ → ReviewAction → Option Text → Milestone → Contract → Action ℕ
review_checked now client action feedback m c = do
  raise_if (not (c.status is ContractStatus.active)) bad_request
  raise_if (not (c.client_id == client)) forbidden
  raise_if (not (m.status is MilestoneStatus.submitted)) bad_request
  review_as now action feedback m c

unfoldable pub review_milestone : ℕ → ℕ → ℕ → ReviewAction → Option Text → Action ℕ
review_milestone now client k action feedback =
    with_milestone k (review_checked now client action feedback)
