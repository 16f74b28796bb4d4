-- ===== src/Jobs/Accepting.antt =====
-- What an acceptance that returns has found and done (backend/app/services/proposal_service.py).
use kaasb.Common.{
  ℕ, ◌≡◌, sym, subst, true, Option, none, some, [], ◌∷◌, found-test, update_row, ◌==◌, not, arith,
  Text,
}
use kaasb.Db.{
  Db, ok, ◌>>◌, notify, to_list, find-inv, bind-inv, raise_if-inv, ◌is◌, Job, JobStatus, Proposal,
  job_coded, proposal_coded, conflict, forbidden, bad_request,
}
use kaasb.Messages.Starting.{job_rows}
use kaasb.Jobs.Postings.{or_no_job, set_job}
use kaasb.Jobs.Proposals.{proposal_rows, or_no_proposal, is_live}
use kaasb.Jobs.Responding.{
  respond_to_proposal, respond_on, respond_checked, follow_up, accept_on, settle_acceptance,
  accepts, may_become, respond, assign, answer_type,
}
use kaasb.Jobs.Acceptance.{accepted_db}

module _ (now client k : ℕ) (note : Option Text) (text : Text) (db : Db) (r : Unit {0} × Db) where
  -- The proposal and its job, found once, and the rest of the run from the tables in between.
  pub record Accepted : Type 0 where
    pub proposal : Proposal
    pub job : Job
    pub settled : Unit {0} × Db
    pub its_id : proposal.id ≡ k
    pub row : proposal_rows proposal.id db ≡ proposal ∷ []
    pub job_row : job_rows proposal.job_id db ≡ job ∷ []
    pub was_live : is_live proposal.status ≡ true
    pub was_open : (job.status is JobStatus.open_status) ≡ true
    pub settles :
        settle_acceptance now client text proposal job (accepted_db now note proposal job db)
        ≡ ok settled
    pub notifies : notify proposal.freelancer_id (answer_type accepts) settled.1 ≡ ok r

  module _ (p : Proposal) (row : proposal_rows k db ≡ p ∷ []) where
    abbrev answered : Db
    answered = record db {
      proposals = update_row (λ q. q.id) p.id (respond now accepts note) db.proposals;
    }

    found_job :
        (o : Option Job) (settled : Unit {0} × Db)
        → is_live p.status ≡ true
        → job_rows p.job_id db ≡ to_list o
        → accept_on now client text p o answered ≡ ok settled
        → notify p.freelancer_id (answer_type accepts) settled.1 ≡ ok r
        → Accepted
    found_job none settled live rows e n = absurd (cc)
    found_job (some j) settled live rows e n =
        let (opened, rest) =
          raise_if-inv (not (j.status is JobStatus.open_status)) conflict
            (set_job j.id (assign p.freelancer_id) >> settle_acceptance now client text p j)
            answered e in
        let hit : (p.id == k) ≡ true = found-test (λ q. q.id == k) p [] db.proposals row in
        let it : p.id ≡ k = ground (arith, hit) in
        record {
          proposal = p;
          job = j;
          settled = settled;
          its_id = it;
          row = subst (λ i. proposal_rows i db ≡ p ∷ []) (sym it) row;
          job_row = rows;
          was_live = live;
          was_open = ground (arith, opened);
          settles = rest;
          notifies = n;
        }

    answered_job :
        (o : Option Job)
        → or_no_job (respond_checked now client accepts note text p) o db ≡ ok r
        → Accepted
    answered_job none e = absurd (cc)
    answered_job (some j) e =
        let (_, e1) = raise_if-inv (not (j.client_id == client)) forbidden _ db e in
        let (live, e2) = raise_if-inv (not (may_become p.status accepts)) bad_request _ db e1 in
        let (_, d, e3, e4) =
          bind-inv (follow_up now client text p accepts)
            (λ _. notify p.freelancer_id (answer_type accepts)) answered e2 in
        let (o, rows, e5) =
          find-inv (job_rows p.job_id) (accept_on now client text p) answered e3 in
        found_job o (_, d) (ground (arith, live)) rows e5 e4

  found_proposal :
      (o : Option Proposal)
      → proposal_rows k db ≡ to_list o
      → or_no_proposal (respond_on now client accepts note text) o db ≡ ok r
      → Accepted
  found_proposal none rows e = absurd (cc)
  found_proposal (some p) rows e =
      let (o, _, e1) =
        find-inv (job_rows p.job_id) (or_no_job (respond_checked now client accepts note text p)) db
          e in
      answered_job p rows o e1

  pub accepted-inv : respond_to_proposal now client k accepts note text db ≡ ok r → Accepted
  unfolding respond_to_proposal
  accepted-inv e =
      let (o, rows, e1) =
        find-inv (proposal_rows k) (or_no_proposal (respond_on now client accepts note text)) db
          e in
      found_proposal o rows e1
