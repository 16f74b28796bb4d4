-- ===== src/Jobs/Acceptance.antt =====
-- The acceptance of a proposal (backend/app/services/proposal_service.py, `respond_to_proposal`).
use kaasb.Common.{
  ℕ, ◌+◌, ◌≤◌, ◌<◌, ◌≡◌, ◌≢◌, refl, ap, sym, subst, ◌∙◌, Bool-cases, inl, inr, true, false, Option,
  [], ◌∷◌, select, length, All-imp, All-of, All-update_row, All-update_row_cases, select-and,
  select-single, found-All, length-select-update_row, update_row, if◌then◌else◌, ◌==◌, ◌&&◌, arith,
  Text,
}
use kaasb.Db.{Db, ◌is◌, Job, JobStatus, Proposal, job_coded, proposal_coded}
use kaasb.Messages.Starting.{job_rows}
use kaasb.Jobs.Proposals.{proposal_rows}
use kaasb.Jobs.Responding.{respond, accepts, assign}
use kaasb.Jobs.Single.{IsSingle, IsBacked, IsWaiting, is_accepted_on, accepted_count}

module _ (now : ℕ) (note : Option Text) (p : Proposal) (j : Job) (db : Db) where
  -- The tables once the proposal is accepted and the job assigned.
  abbrev pub accepted_db : Db
  accepted_db = record db {
    proposals = update_row (λ q. q.id) p.id (respond now accepts note) db.proposals;
    jobs = update_row (λ x. x.id) j.id (assign p.freelancer_id) db.jobs;
  }

  module _ (row : proposal_rows p.id db ≡ p ∷ []) (job : job_rows p.job_id db ≡ j ∷ []) where
    -- The accepted proposals of the job `k` after it, with at most this one more.
    count-accepted :
        (k : ℕ)
        → accepted_count k accepted_db.proposals
          ≤ accepted_count k db.proposals + (if p.job_id == k then 1 else 0)
    count-accepted k =
        let more =
          length-select-update_row (λ q. q.id) (is_accepted_on k) p.id (respond now accepts note)
            db.proposals in
        let one : length (
              select (λ x. (x.id == p.id) && is_accepted_on k (respond now accepts note x))
                db.proposals)
            ≡ (if p.job_id == k then 1 else 0) =
          ap length (
            select-and (λ x. x.id == p.id) (λ x. is_accepted_on k (respond now accepts note x))
              db.proposals
            ∙ ap (select (λ x. is_accepted_on k (respond now accepts note x))) row)
          ∙ counted in
        omega (arith, more, one)
      where
        counted :
            length (select (λ x. is_accepted_on k (respond now accepts note x)) (p ∷ []))
            ≡ (if p.job_id == k then 1 else 0)
        counted = elim (Bool-cases (p.job_id == k)) [ inl y ↦ rw y refl | inr n ↦ rw n refl ]

    pub accept-IsSingle :
        (j.status is JobStatus.open_status) ≡ true → IsSingle db → IsSingle accepted_db
    accept-IsSingle open_job s =
        let (vacant, on) =
          found-All (IsWaiting db.proposals) (λ x. x.id == p.job_id) j [] db.jobs s.waiting job in
        let (known, _) =
          found-All (λ x. x.id < db.next_id) (λ x. x.id == p.job_id) j [] db.jobs s.jobs_known
            job in
        let same : j.id ≡ p.job_id = ground (arith, on) in
        let none_yet : accepted_count p.job_id db.proposals ≤ 0 =
          subst (λ i. accepted_count i db.proposals ≤ 0) same (vacant open_job) in
        record {
          jobs_known =
              All-update_row (λ x. x.id) (λ x. x.id < db.next_id) j.id (assign p.freelancer_id)
                db.jobs
                (All-imp (λ x. x.id < db.next_id) (λ x. x.id ≡ j.id → x.id < db.next_id)
                  (λ x l _. l) db.jobs s.jobs_known)
                s.jobs_known;
          bids_known =
              All-update_row (λ q. q.id) (IsBacked db.next_id) p.id (respond now accepts note)
                db.proposals
                (All-imp (λ x. (x.id == p.id) ≡ true → x ≡ p)
                  (λ x. x.id ≡ p.id → IsBacked db.next_id (respond now accepts note x))
                  (λ x only e _.
                    let it : x ≡ p = only (ground (arith, e)) in
                    subst (λ q. q.job_id < db.next_id) (sym it)
                      (subst (λ i. i < db.next_id) same known))
                  db.proposals (select-single (λ x. x.id == p.id) p db.proposals row))
                s.bids_known;
          once = λ k. elim (Bool-cases (p.job_id == k)) [
            | inl y ↦
                let here : p.job_id ≡ k = ground (arith, y) in
                let free : accepted_count k db.proposals ≤ 0 =
                  subst (λ i. accepted_count i db.proposals ≤ 0) here none_yet in
                let more : accepted_count k accepted_db.proposals
                    ≤ accepted_count k db.proposals + 1 =
                  rw y at (count-accepted k) in
                omega (arith, free, more)
            | inr n ↦
                let more : accepted_count k accepted_db.proposals
                    ≤ accepted_count k db.proposals + 0 =
                  rw n at (count-accepted k) in
                omega (arith, s.once k, more)
          ];
          waiting =
              All-update_row_cases (λ x. x.id) (IsWaiting accepted_db.proposals) j.id
                (assign p.freelancer_id) db.jobs (All-of (λ x _ e. absurd (cc)) db.jobs)
                (All-imp (IsWaiting db.proposals)
                  (λ x. x.id ≢ j.id → IsWaiting accepted_db.proposals x)
                  (λ x w other e.
                    let apart : (p.job_id == x.id) ≡ false = ground (arith, same, other) in
                    let more : accepted_count x.id accepted_db.proposals
                        ≤ accepted_count x.id db.proposals + 0 =
                      rw apart at (count-accepted x.id) in
                    omega (arith, w e, more))
                  db.jobs s.waiting);
        }
