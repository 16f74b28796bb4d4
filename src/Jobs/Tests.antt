-- ===== src/Jobs/Tests.antt =====
-- Runs of jobs and proposals at concrete inputs, and each theorem at an input that meets its
-- hypotheses.
use kaasb.Common.{
  ℕ, ◌≡◌, refl, false, none, some, List, [], ◌∷◌, ◌++◌, map, length, update_row, All, arith,
}
use kaasb.Db.{
  Db, ok, err, request, User, UserRole, Job, JobStatus, Proposal, ProposalStatus, bad_request,
}
use kaasb.Payment.Samples.{empty_db}
use kaasb.Auth.Samples.{sample_user}
use kaasb.Messages.Sending.{system_to}
use kaasb.Messages.Starting.{job_rows, get_or_create_system_conversation}
use kaasb.Jobs.Postings.{create_job, close_job}
use kaasb.Jobs.Proposals.{
  proposal_rows, submit_proposal, update_proposal, withdraw_proposal, is_live, set_bid,
}
use kaasb.Jobs.Responding.{
  respond_to_proposal, create_contract_from_proposal, accepts, new_contract, assign,
}
use kaasb.Jobs.Calls.{Call, posts, submits, responds, run}
use kaasb.Jobs.Single.{IsSingle}
use kaasb.Jobs.Runs.{run-IsSingle}
use kaasb.Jobs.Contracting.{accepted-contracts}
use kaasb.Jobs.Bids.{only_bid, update_proposal-exceeds}

abbrev runs : Unit {0}
unfolding create_job close_job submit_proposal update_proposal withdraw_proposal respond_to_proposal
    create_contract_from_proposal get_or_create_system_conversation system_to run
runs = tt

abbrev freelancer : ℕ → User
freelancer k = record sample_user { id = k; primary_role = UserRole.freelancer }

abbrev people_db : Db
people_db = record empty_db { users = sample_user ∷ freelancer 2 ∷ freelancer 3 ∷ [] }

-- A job, two proposals on it, and the acceptance of the first, then of the second.
abbrev posted : List (ℕ × (ℕ × Call))
posted =
    (1, (1, posts (some 1_000_000)))
    ∷ (2, (2, submits 100 900_000))
    ∷ (3, (3, submits 100 800_000))
    ∷ []

abbrev answers : List (ℕ × (ℕ × Call))
answers =
    (4, (1, responds 101 accepts none (99 ∷ [])))
    ∷ (5, (1, responds 102 accepts none (99 ∷ [])))
    ∷ []

abbrev bids_db : Db
bids_db = run posted people_db

states :
    let db = run answers bids_db in
    (map (λ p. p.status) db.proposals ≡ ProposalStatus.accepted ∷ ProposalStatus.rejected ∷ [])
    × (map (λ j. j.status) db.jobs ≡ JobStatus.in_progress ∷ [])
    × (length db.contracts ≡ 1)
    × (length db.messages ≡ 1)
unfolding runs
states = (refl, refl, refl, refl)

run-IsSingle_example : IsSingle (run (posted ++ answers) people_db)
run-IsSingle_example =
    run-IsSingle (posted ++ answers) people_db
      (record { jobs_known = tt; bids_known = tt; once = λ k. omega arith; waiting = tt })

accepted-contracts_example :
    let db = request (respond_to_proposal 4 1 101 accepts none (99 ∷ [])) bids_db in
    (p : Proposal) × (j : Job) × (proposal_rows 101 bids_db ≡ p ∷ [])
    × (job_rows p.job_id bids_db ≡ j ∷ [])
    × (db.contracts ≡ bids_db.contracts ++ new_contract bids_db.next_id 4 j p ∷ [])
    × (db.jobs ≡ update_row (λ x. x.id) j.id (assign p.freelancer_id) bids_db.jobs)
    × All (λ q. q.job_id ≡ p.job_id → is_live q.status ≡ false) db.proposals
unfolding runs
accepted-contracts_example =
    accepted-contracts 4 1 101 none (99 ∷ []) bids_db
      (tt, request (respond_to_proposal 4 1 101 accepts none (99 ∷ [])) bids_db) refl

abbrev bid_job : Job
bid_job = record {
  id = 100;
  budget_max = some 1_000_000;
  status = JobStatus.open_status;
  client_id = 1;
  freelancer_id = none;
  proposal_count = 2;
  published_at = some 1;
  closed_at = none;
}

abbrev first_bid : Proposal
first_bid = record {
  id = 101;
  bid_amount = 900_000;
  status = ProposalStatus.pending;
  job_id = 100;
  freelancer_id = 2;
  client_note = none;
  submitted_at = 2;
  responded_at = none;
}

update_proposal-exceeds_example :
    (submit_proposal 6 4 100 50_000_000 bids_db ≡ err bad_request)
    × (update_proposal 2 101 (only_bid 50_000_000) bids_db
        ≡ ok (
          tt,
          record bids_db {
            proposals =
                update_row (λ q. q.id) 101 (set_bid (some (some 50_000_000))) bids_db.proposals;
          },
        ))
unfolding runs
update_proposal-exceeds_example =
    update_proposal-exceeds 50_000_000 6 4 bid_job first_bid bids_db refl refl (omega arith) refl
      refl refl refl refl refl
