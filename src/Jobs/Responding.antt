-- ===== src/Jobs/Responding.antt =====
-- The client's answer to a proposal (backend/app/services/proposal_service.py, `respond_to_proposal`),
-- and `create_contract_from_proposal` (backend/app/services/contract_service.py).
use kaasb.Common.{
  ℕ, Bool, Option, none, some, [], ◌∷◌, ◌++◌, map, any, if◌then◌else◌, ltb, ◌==◌, ◌&&◌, not, Text,
}
use kaasb.Db.{
  Action, ok, err, ◌>>=◌, ◌>>◌, pure, raise, modify, raise_if, find_one, new_id, notify, ◌is◌,
  bad_request, forbidden, conflict, Job, JobStatus, Proposal, ProposalStatus, Contract,
  ContractStatus, NotificationType, job_coded, proposal_coded,
}
use kaasb.Messages.Starting.{job_rows, get_or_create_system_conversation}
use kaasb.Jobs.Postings.{with_job, set_job}
use kaasb.Jobs.Proposals.{with_proposal, set_proposal, is_live}

abbrev pub new_contract : ℕ → ℕ → Job → Proposal → Contract
new_contract id now j p = record {
  id = id;
  total_amount = p.bid_amount;
  amount_paid = 0;
  status = ContractStatus.active;
  job_id = j.id;
  proposal_id = p.id;
  client_id = j.client_id;
  freelancer_id = p.freelancer_id;
  started_at = now;
  completed_at = none;
}

-- `ck_contract_total_amount_positive`, and `proposal_id` is unique: `ConflictError` where they fail.
abbrev pub add_contract : Contract → Action (Unit {0})
add_contract c db =
    if ltb 0 c.total_amount && not (any (λ d. d.proposal_id == c.proposal_id) db.contracts)
    then ok (tt, record db { contracts = db.contracts ++ c ∷ [] })
    else err conflict

unfoldable pub create_contract_from_proposal : ℕ → Job → Proposal → Action (Unit {0})
create_contract_from_proposal now j p = do
  id ← new_id
  add_contract (new_contract id now j p)
  notify p.freelancer_id NotificationType.contract_created

-- What `ProposalRespond` lets through.
pub data Answer : Type 0 where
  shortlists accepts rejects : Answer

abbrev pub answer_status : Answer → ProposalStatus
answer_status shortlists = ProposalStatus.shortlisted
answer_status accepts = ProposalStatus.accepted
answer_status rejects = ProposalStatus.rejected

abbrev pub answer_type : Answer → NotificationType
answer_type shortlists = NotificationType.proposal_shortlisted
answer_type accepts = NotificationType.proposal_accepted
answer_type rejects = NotificationType.proposal_rejected

-- `valid_transitions`
abbrev pub may_become : ProposalStatus → Answer → Bool
may_become s shortlists = s is ProposalStatus.pending
may_become s accepts = is_live s
may_become s rejects = is_live s

abbrev pub respond : ℕ → Answer → Option Text → Proposal → Proposal
respond now a note p = record p {
  status = answer_status a;
  client_note = note;
  responded_at = some now;
}

abbrev pub assign : ℕ → Job → Job
assign freelancer j = record j { status = JobStatus.in_progress; freelancer_id = some freelancer }

abbrev pub another_accepted : Text
another_accepted =
    b'A' ∷ b'n' ∷ b'o' ∷ b't' ∷ b'h' ∷ b'e' ∷ b'r' ∷ b' ' ∷ b'p' ∷ b'r' ∷ b'o' ∷ b'p' ∷ b'o' ∷ b's'
    ∷ b'a' ∷ b'l' ∷ b' ' ∷ b'w' ∷ b'a' ∷ b's' ∷ b' ' ∷ b'a' ∷ b'c' ∷ b'c' ∷ b'e' ∷ b'p' ∷ b't'
    ∷ b'e' ∷ b'd' ∷ b' ' ∷ b'f' ∷ b'o' ∷ b'r' ∷ b' ' ∷ b't' ∷ b'h' ∷ b'i' ∷ b's' ∷ b' ' ∷ b'j'
    ∷ b'o' ∷ b'b' ∷ b'.' ∷ []

abbrev pub is_other : Proposal → Proposal → Bool
is_other p q = (q.job_id == p.job_id) && (not (q.id == p.id) && is_live q.status)

abbrev pub reject : ℕ → Proposal → Proposal
reject now p = record p {
  status = ProposalStatus.rejected;
  client_note = some another_accepted;
  responded_at = some now;
}

abbrev pub reject_others : ℕ → Proposal → Action (Unit {0})
reject_others now p =
    modify λ db. record db {
      proposals = map (λ q. if is_other p q then reject now q else q) db.proposals;
    }

-- `text` is the message that opens the thread, with the job's title.
abbrev pub settle_acceptance : ℕ → ℕ → Text → Proposal → Job → Action (Unit {0})
settle_acceptance now client text p j = do
  reject_others now p
  create_contract_from_proposal now j p
  get_or_create_system_conversation now client p.freelancer_id (some p.job_id) none text
  pure tt

-- The job as its row lock finds it.
abbrev pub accept_on : ℕ → ℕ → Text → Proposal → Option Job → Action (Unit {0})
accept_on now client text p none = raise conflict
accept_on now client text p (some j) = do
  raise_if (not (j.status is JobStatus.open_status)) conflict
  set_job j.id (assign p.freelancer_id)
  settle_acceptance now client text p j

abbrev pub follow_up : ℕ → ℕ → Text → Proposal → Answer → Action (Unit {0})
follow_up now client text p shortlists = pure tt
follow_up now client text p rejects = pure tt
follow_up now client text p accepts = find_one (job_rows p.job_id) >>= accept_on now client text p

abbrev pub respond_checked :
    ℕ → ℕ → Answer → Option Text → Text → Proposal → Job → Action (Unit {0})
respond_checked now client a note text p j = do
  raise_if (not (j.client_id == client)) forbidden
  raise_if (not (may_become p.status a)) bad_request
  set_proposal p.id (respond now a note)
  follow_up now client text p a
  notify p.freelancer_id (answer_type a)

-- The proposal's job is loaded with it.
abbrev pub respond_on : ℕ → ℕ → Answer → Option Text → Text → Proposal → Action (Unit {0})
respond_on now client a note text p = with_job p.job_id (respond_checked now client a note text p)

unfoldable pub respond_to_proposal : ℕ → ℕ → ℕ → Answer → Option Text → Text → Action (Unit {0})
respond_to_proposal now client k a note text = with_proposal k (respond_on now client a note text)
