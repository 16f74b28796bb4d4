-- ===== src/Jobs/Calls.antt =====
-- The requests about jobs and proposals (backend/app/api/v1/endpoints/jobs.py and proposals.py), each
-- by the current user, and a history of them.
use kaasb.Common.{ℕ, Option, some, List, [], ◌∷◌, Text, not}
use kaasb.Db.{
  Db, Action, ◌>>◌, raise_if, request, ◌is◌, forbidden, validation_error, User, UserRole,
  role_coded,
}
use kaasb.Auth.Current.{as_user}
use kaasb.Jobs.Postings.{create_job, close_job}
use kaasb.Jobs.Proposals.{
  ProposalUpdate, is_bid, submit_proposal, update_proposal, withdraw_proposal,
}
use kaasb.Jobs.Responding.{Answer, respond_to_proposal}

-- `get_current_client` and `get_current_freelancer`
abbrev pub as_role : {A : Type 0} → UserRole → ℕ → (User → Action A) → Action A
as_role role k f = as_user k λ u. do raise_if (not (u.primary_role is role)) forbidden; f u

pub data Call : Type 0 where
  posts : Option ℕ → Call
  closes : ℕ → Call
  submits : ℕ → ℕ → Call
  updates : ℕ → ProposalUpdate → Call
  withdraws : ℕ → Call
  responds : ℕ → Answer → Option Text → Text → Call

abbrev pub act : ℕ → ℕ → Call → Db → Db
act now k (posts budget_max) = request (as_role UserRole.client k λ u. create_job now u budget_max)
act now k (closes job) = request (as_role UserRole.client k λ u. close_job now job u.id)
act now k (submits job bid) = request (
    as_role UserRole.freelancer k λ u. do
      raise_if (not (is_bid (some (some bid)))) validation_error
      submit_proposal now u.id job bid)
act now k (updates p data_set) = request (
    as_role UserRole.freelancer k λ u. do
      raise_if (not (is_bid data_set.bid_amount)) validation_error
      update_proposal u.id p data_set)
act now k (withdraws p) = request (as_role UserRole.freelancer k λ u. withdraw_proposal u.id p)
act now k (responds p a note text) =
    request (as_role UserRole.client k λ u. respond_to_proposal now u.id p a note text)

-- A time, a user and what the user does.
unfoldable pub run : List (ℕ × (ℕ × Call)) → Db → Db
run [] db = db
run ((now, (k, call)) ∷ es) db = run es (act now k call db)
