-- ===== src/Jobs/Proposals.antt =====
-- `ProposalService` (backend/app/services/proposal_service.py): what a freelancer does with a proposal.
use kaasb.Common.{
  ℕ, suc, ◌*◌, ◌-◌, Bool, true, false, Option, none, some, List, [], ◌∷◌, ◌++◌, any, select,
  is_some, update_row, if◌then◌else◌, ltb, leb, ◌==◌, ◌&&◌, ◌||◌, not, Text,
}
use kaasb.Db.{
  Db, Action, ok, err, ◌>>=◌, ◌>>◌, pure, raise, modify, raise_if, find_one, new_id, notify, ◌is◌,
  not_found, bad_request, forbidden, conflict, integrity, Job, JobStatus, Proposal, ProposalStatus,
  NotificationType, job_coded, proposal_coded,
}
use kaasb.Jobs.Postings.{with_job, set_job}

abbrev pub proposal_rows : ℕ → Db → List Proposal
proposal_rows k db = select (λ p. p.id == k) db.proposals

abbrev pub or_no_proposal : {A : Type 0} → (Proposal → Action A) → Option Proposal → Action A
or_no_proposal f none = raise not_found
or_no_proposal f (some p) = f p

abbrev pub with_proposal : {A : Type 0} → ℕ → (Proposal → Action A) → Action A
with_proposal k f = find_one (proposal_rows k) >>= or_no_proposal f

abbrev pub set_proposal : ℕ → (Proposal → Proposal) → Action (Unit {0})
set_proposal k f = modify λ db. record db { proposals = update_row (λ p. p.id) k f db.proposals }

abbrev pub is_on : ℕ → ℕ → Proposal → Bool
is_on job freelancer p = (p.job_id == job) && (p.freelancer_id == freelancer)

abbrev pub own_proposals : ℕ → ℕ → Db → List Proposal
own_proposals job freelancer db = select (is_on job freelancer) db.proposals

abbrev pub new_proposal : ℕ → ℕ → ℕ → ℕ → ℕ → Proposal
new_proposal id now job freelancer bid = record {
  id = id;
  bid_amount = bid;
  status = ProposalStatus.pending;
  job_id = job;
  freelancer_id = freelancer;
  client_note = none;
  submitted_at = now;
  responded_at = none;
}

-- `uq_proposal_job_freelancer`
abbrev pub add_proposal : Proposal → Action (Unit {0})
add_proposal p db =
    if not (any (is_on p.job_id p.freelancer_id) db.proposals)
    then ok (tt, record db { proposals = db.proposals ++ p ∷ [] })
    else err integrity

-- No limit, or one of 0, is none.
abbrev pub exceeds_budget : ℕ → Option ℕ → Bool
exceeds_budget bid none = false
exceeds_budget bid (some limit) = ltb 0 limit && ltb (limit * 2) bid

abbrev pub count_up : Job → Job
count_up j = record j { proposal_count = suc j.proposal_count }

-- It stops at 0.
abbrev pub count_down : Job → Job
count_down j = record j { proposal_count = j.proposal_count - 1 }

abbrev pub submit_new : ℕ → ℕ → ℕ → Job → Option Proposal → Action ℕ
submit_new now freelancer bid j (some p) = raise conflict
submit_new now freelancer bid j none = do
  raise_if (not (ltb 0 bid)) bad_request
  raise_if (exceeds_budget bid j.budget_max) bad_request
  id ← new_id
  add_proposal (new_proposal id now j.id freelancer bid)
  set_job j.id count_up
  notify j.client_id NotificationType.proposal_received
  pure id

abbrev pub submit_on : ℕ → ℕ → ℕ → Job → Action ℕ
submit_on now freelancer bid j = do
  raise_if (not (j.status is JobStatus.open_status)) bad_request
  raise_if (j.client_id == freelancer) bad_request
  find_one (own_proposals j.id freelancer) >>= submit_new now freelancer bid j

unfoldable pub submit_proposal : ℕ → ℕ → ℕ → ℕ → Action ℕ
submit_proposal now freelancer job bid = with_job job (submit_on now freelancer bid)

-- The fields that are set, perhaps to null; the two texts are not in the row.
pub record ProposalUpdate : Type 0 where
  pub cover_letter : Option (Option Text)
  pub bid_amount : Option (Option ℕ)
  pub estimated_duration : Option (Option Text)

-- The bounds of `ProposalUpdate` on a bid that is set and not null.
abbrev pub is_bid : Option (Option ℕ) → Bool
is_bid none = true
is_bid (some none) = true
is_bid (some (some bid)) = leb 50_000 bid && leb bid 1_000_000_000

abbrev pub is_null {ℓ} : {A : Type ℓ} → Option (Option A) → Bool
is_null none = false
is_null (some o) = not (is_some o)

abbrev pub set_bid : Option (Option ℕ) → Proposal → Proposal
set_bid none p = p
set_bid (some none) p = p
set_bid (some (some bid)) p = record p { bid_amount = bid }

-- Null is refused at the flush where the column is not nullable.
abbrev pub update_bid : ℕ → ProposalUpdate → Proposal → Action (Unit {0})
update_bid freelancer data_set p = do
  raise_if (not (p.freelancer_id == freelancer)) forbidden
  raise_if (not (p.status is ProposalStatus.pending)) bad_request
  raise_if
      (not (is_some data_set.cover_letter)
        && (not (is_some data_set.bid_amount) && not (is_some data_set.estimated_duration)))
      bad_request
  raise_if (is_null data_set.cover_letter || is_null data_set.bid_amount) integrity
  set_proposal p.id (set_bid data_set.bid_amount)

unfoldable pub update_proposal : ℕ → ℕ → ProposalUpdate → Action (Unit {0})
update_proposal freelancer k data_set = with_proposal k (update_bid freelancer data_set)

-- Pending or shortlisted.
abbrev pub is_live : ProposalStatus → Bool
is_live s = (s is ProposalStatus.pending) || (s is ProposalStatus.shortlisted)

abbrev pub withdraw : Proposal → Proposal
withdraw p = record p { status = ProposalStatus.withdrawn }

abbrev pub withdraw_checked : ℕ → Proposal → Action (Unit {0})
withdraw_checked freelancer p = do
  raise_if (not (p.freelancer_id == freelancer)) forbidden
  raise_if (not (is_live p.status)) bad_request
  set_proposal p.id withdraw
  set_job p.job_id count_down

unfoldable pub withdraw_proposal : ℕ → ℕ → Action (Unit {0})
withdraw_proposal freelancer k = with_proposal k (withdraw_checked freelancer)
