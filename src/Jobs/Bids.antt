-- ===== src/Jobs/Bids.antt =====
-- The limit on a bid (backend/app/services/proposal_service.py).
use kaasb.Common.{
  ℕ, ◌<◌, ◌≡◌, refl, ap, ◌∙◌, true, false, none, some, [], ◌∷◌, update_row, ltb, ◌==◌, ==_refl, not,
  arith,
}
use kaasb.Db.{
  Db, ok, err, find_one-run, raise_if-run, ◌is◌, Job, JobStatus, Proposal, ProposalStatus,
  job_coded, proposal_coded, forbidden, bad_request,
}
use kaasb.Messages.Starting.{job_rows}
use kaasb.Jobs.Postings.{or_no_job}
use kaasb.Jobs.Proposals.{
  proposal_rows, or_no_proposal, own_proposals, exceeds_budget, submit_new, submit_on,
  submit_proposal, ProposalUpdate, set_bid, update_bid, update_proposal,
}

module _ (bid : ℕ) where
  abbrev pub only_bid : ProposalUpdate
  only_bid = record { cover_letter = none; bid_amount = some (some bid); estimated_duration = none }

  submit_proposal-refused :
      (now freelancer : ℕ) (j : Job) (db : Db)
      → job_rows j.id db ≡ j ∷ []
      → (j.status is JobStatus.open_status) ≡ true
      → (j.client_id == freelancer) ≡ false
      → own_proposals j.id freelancer db ≡ []
      → 0 < bid
      → exceeds_budget bid j.budget_max ≡ true
      → submit_proposal now freelancer j.id bid db ≡ err bad_request
  unfolding submit_proposal
  submit_proposal-refused now freelancer j db row opened other fresh positive over =
      find_one-run (job_rows j.id) (or_no_job (submit_on now freelancer bid)) db (some j) row
      ∙ raise_if-run (not (j.status is JobStatus.open_status)) bad_request _ db (ap not opened)
      ∙ raise_if-run (j.client_id == freelancer) bad_request _ db other
      ∙ find_one-run (own_proposals j.id freelancer) (submit_new now freelancer bid j) db none fresh
      ∙ raise_if-run (not (ltb 0 bid)) bad_request _ db (ground (arith, positive))
      ∙ rw over refl

-- A bid beyond twice the job's budget is refused when it is submitted, by any freelancer who has none
-- on the job; but a pending proposal may be updated to it, whatever the amount
-- that the schema lets through.
pub update_proposal-exceeds :
    (bid now freelancer : ℕ) (j : Job) (p : Proposal) (db : Db)
    → job_rows j.id db ≡ j ∷ []
    → (j.status is JobStatus.open_status) ≡ true
    → 0 < bid
    → exceeds_budget bid j.budget_max ≡ true
    → (j.client_id == freelancer) ≡ false
    → own_proposals j.id freelancer db ≡ []
    → proposal_rows p.id db ≡ p ∷ []
    → p.job_id ≡ j.id
    → (p.status is ProposalStatus.pending) ≡ true
    → (submit_proposal now freelancer j.id bid db ≡ err bad_request)
      × (update_proposal p.freelancer_id p.id (only_bid bid) db
          ≡ ok (
            tt,
            record db {
              proposals = update_row (λ q. q.id) p.id (set_bid (some (some bid))) db.proposals;
            },
          ))
unfolding update_proposal
update_proposal-exceeds bid now freelancer j p db job opened positive over other fresh row on
      pending =
    (
      submit_proposal-refused bid now freelancer j db job opened other fresh positive over,
      find_one-run (proposal_rows p.id) (or_no_proposal (update_bid p.freelancer_id (only_bid bid)))
            db (some p) row
          ∙ raise_if-run (not (p.freelancer_id == p.freelancer_id)) forbidden _ db
              (ap not (==_refl p.freelancer_id))
          ∙ raise_if-run (not (p.status is ProposalStatus.pending)) bad_request _ db
              (ap not pending),
    )
