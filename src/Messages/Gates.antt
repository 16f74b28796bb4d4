-- ===== src/Messages/Gates.antt =====
-- The tests before a first message (backend/app/services/message_service.py), which write nothing.
use kaasb.Common.{ℕ, Option, none, some, ◌==◌, ◌||◌, not, is_some}
use kaasb.Db.{
  Db, pure, gets, raise_if, Keeps, Keeps-pure, Keeps-gets, Keeps-raise, Keeps-raise_if, Keeps-bind,
  Keeps-find, Keeps-if, User, Job, JobStatus, ServiceOrder, job_coded, conversation_coded,
  forbidden, not_found, user_coded, ◌is◌,
}
use kaasb.Messages.Sending.{is_staff}
use kaasb.Messages.Starting.{
  may_start_on, may_start_cold, can_initiate, job_rows, check_order, check_context, order_rows_of,
  has_proposal, has_worked, differ,
}

module _ (P : Db → Type 0) where
  Keeps-may_start_on :
      (sender recipient job : ℕ) (o : Option Job) → Keeps P (may_start_on sender recipient job o)
  Keeps-may_start_on sender recipient job none = Keeps-raise P not_found
  Keeps-may_start_on sender recipient job (some j) =
      Keeps-bind P
        (raise_if (not (differ (sender == j.client_id) (recipient == j.client_id))) forbidden) _
        (Keeps-raise_if P _ _)
        λ _.
          Keeps-if P (sender == j.client_id) _
            (raise_if (not (j.status is JobStatus.open_status)) forbidden)
            (Keeps-bind P (gets (has_proposal job recipient)) _ (Keeps-gets P _)
              λ b. Keeps-raise_if P (not b) forbidden)
            (Keeps-raise_if P _ _)

  Keeps-may_start_cold :
      (sender recipient : ℕ) (job : Option ℕ) → Keeps P (may_start_cold sender recipient job)
  Keeps-may_start_cold sender recipient none =
      Keeps-bind P (gets (has_worked sender recipient)) _ (Keeps-gets P _)
        λ b. Keeps-raise_if P (not b) forbidden
  Keeps-may_start_cold sender recipient (some job) =
      Keeps-find P (job_rows job) (may_start_on sender recipient job)
        (Keeps-may_start_on sender recipient job)

  pub Keeps-can_initiate :
      (sender recipient : User) (job order : Option ℕ)
      → Keeps P (can_initiate sender recipient job order)
  unfolding can_initiate
  Keeps-can_initiate sender recipient job order =
      Keeps-if P (is_staff sender || is_staff recipient || is_some order) (pure tt)
        (may_start_cold sender.id recipient.id job) (Keeps-pure P tt)
        (Keeps-may_start_cold sender.id recipient.id job)

  pub Keeps-check_context :
      (sender recipient : ℕ) (order : Option ℕ) → Keeps P (check_context sender recipient order)
  Keeps-check_context sender recipient none = Keeps-pure P tt
  Keeps-check_context sender recipient (some k) =
      Keeps-find P (order_rows_of k) (check_order sender recipient) λ o. found o
    where
      found : (o : Option ServiceOrder) → Keeps P (check_order sender recipient o)
      found none = Keeps-raise P not_found
      found (some o) = Keeps-raise_if P _ _
