-- ===== src/Jobs/Postings.antt =====
-- `JobService` (backend/app/services/job_service.py): a job is posted and closed.
use kaasb.Common.{ℕ, Option, none, some, [], ◌∷◌, ◌++◌, update_row, ◌==◌, ◌||◌, not}
use kaasb.Db.{
  Action, ◌>>=◌, ◌>>◌, pure, raise, modify, raise_if, find_one, new_id, ◌is◌, not_found,
  bad_request, forbidden, Job, JobStatus, User, UserRole, job_coded, role_coded,
}
use kaasb.Messages.Starting.{job_rows}

abbrev pub or_no_job : {A : Type 0} → (Job → Action A) → Option Job → Action A
or_no_job f none = raise not_found
or_no_job f (some j) = f j

-- `_get_job` and `get_by_id`, and what follows them.
abbrev pub with_job : {A : Type 0} → ℕ → (Job → Action A) → Action A
with_job k f = find_one (job_rows k) >>= or_no_job f

abbrev pub set_job : ℕ → (Job → Job) → Action (Unit {0})
set_job k f = modify λ db. record db { jobs = update_row (λ j. j.id) k f db.jobs }

abbrev pub new_job : ℕ → ℕ → ℕ → Option ℕ → Job
new_job id now client budget_max = record {
  id = id;
  budget_max = budget_max;
  status = JobStatus.open_status;
  client_id = client;
  freelancer_id = none;
  proposal_count = 0;
  published_at = some now;
  closed_at = none;
}

abbrev pub add_job : Job → Action (Unit {0})
add_job j = modify λ db. record db { jobs = db.jobs ++ j ∷ [] }

-- The texts, the other limits of the budget and their constraints are left out.
unfoldable pub create_job : ℕ → User → Option ℕ → Action ℕ
create_job now client budget_max = do
  raise_if (not (client.primary_role is UserRole.client)) forbidden
  id ← new_id
  add_job (new_job id now client.id budget_max)
  pure id

abbrev pub close : ℕ → Job → Job
close now j = record j { status = JobStatus.closed; closed_at = some now }

abbrev pub close_checked : ℕ → ℕ → Job → Action (Unit {0})
close_checked now client j = do
  raise_if (not (j.client_id == client)) forbidden
  raise_if (not ((j.status is JobStatus.open_status) || (j.status is JobStatus.draft))) bad_request
  set_job j.id (close now)

unfoldable pub close_job : ℕ → ℕ → ℕ → Action (Unit {0})
close_job now k client = with_job k (close_checked now client)
