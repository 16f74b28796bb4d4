-- ===== src/Jobs/Single.antt =====
-- The accepted proposals of a job (backend/app/services/proposal_service.py): an invariant, and the
-- writes one by one.
use kaasb.Common.{
  ℕ, suc, ◌≤◌, ◌<◌, ◌≡◌, refl, ap, sym, subst, ◌∙◌, Bool, Bool-cases, inl, inr, true, false, List,
  [], ◌∷◌, ◌++◌, map, select, length, All, All-imp, All-append, All-map, All-update_row, &&-true,
  update_row-map, select-append, length-append, length-select-map, update_row, if◌then◌else◌, ◌==◌,
  ◌&&◌, arith,
}
use kaasb.Db.{Db, ◌is◌, Job, JobStatus, Proposal, ProposalStatus, job_coded, proposal_coded}

-- An accepted proposal on the job `k`.
abbrev pub is_accepted_on : ℕ → Proposal → Bool
is_accepted_on k p = (p.job_id == k) && (p.status is ProposalStatus.accepted)

abbrev pub accepted_count : ℕ → List Proposal → ℕ
accepted_count k ps = length (select (is_accepted_on k) ps)

abbrev pub IsWaiting : List Proposal → Job → Type 0
IsWaiting ps j = (j.status is JobStatus.open_status) ≡ true → accepted_count j.id ps ≤ 0

-- A job that is open still waits: none of its proposals is accepted.
pub record IsSingle (db : Db) : Type 0 where
  pub jobs_known : All (λ j. j.id < db.next_id) db.jobs
  pub bids_known :
      All (λ p. (p.status is ProposalStatus.accepted) ≡ true → p.job_id < db.next_id) db.proposals
  pub once : (k : ℕ) → accepted_count k db.proposals ≤ 1
  pub waiting :
      All
        (λ j. (j.status is JobStatus.open_status) ≡ true → accepted_count j.id db.proposals ≤ 0)
        db.jobs

-- What is accepted was so before, on the same job.
abbrev pub AcceptsNoMore : (Proposal → Proposal) → Type 0
AcceptsNoMore f =
    (p : Proposal)
    → ((f p).status is ProposalStatus.accepted) ≡ true
    → ((f p).job_id ≡ p.job_id) × ((p.status is ProposalStatus.accepted) ≡ true)

abbrev pub IsBacked : ℕ → Proposal → Type 0
IsBacked n p = (p.status is ProposalStatus.accepted) ≡ true → p.job_id < n

module _ (f : Proposal → Proposal) (h : AcceptsNoMore f) where
  accepted_back : (k : ℕ) (p : Proposal) → is_accepted_on k (f p) ≡ true → is_accepted_on k p ≡ true
  accepted_back k p e =
      let (on, accepted) =
        &&-true ((f p).job_id == k) ((f p).status is ProposalStatus.accepted) e in
      let (same, was) = h p accepted in rw was (rw (subst (λ x. (x == k) ≡ true) same on) refl)

  IsBacked-back : (n : ℕ) (p : Proposal) → IsBacked n p → IsBacked n (f p)
  IsBacked-back n p b e = let (same, was) = h p e in subst (λ x. x < n) (sym same) (b was)

  accepted-map : (k : ℕ) (ps : List Proposal) → accepted_count k (map f ps) ≤ accepted_count k ps
  accepted-map k ps = length-select-map (is_accepted_on k) f (accepted_back k) ps

  pub map-IsSingle :
      (db : Db) → IsSingle db → IsSingle (record db { proposals = map f db.proposals })
  map-IsSingle db s = record {
    jobs_known = s.jobs_known;
    bids_known =
        All-map (IsBacked db.next_id) f (IsBacked-back db.next_id) db.proposals s.bids_known;
    once = λ k. omega (arith, accepted-map k db.proposals, s.once k);
    waiting =
        All-imp _ _ (λ j w e. omega (arith, accepted-map j.id db.proposals, w e)) db.jobs s.waiting;
  }

module _ (k : ℕ) (f : Proposal → Proposal) (h : AcceptsNoMore f) where
  here : AcceptsNoMore (λ p. if p.id == k then f p else p)
  here p = elim (Bool-cases (p.id == k)) [ inl y ↦ rw y (h p) | inr n ↦ rw n (λ e. (refl, e)) ]

  pub write-IsSingle :
      (db : Db)
      → IsSingle db
      → IsSingle (record db { proposals = update_row (λ p. p.id) k f db.proposals })
  write-IsSingle db s =
      subst (λ ps. IsSingle (record db { proposals = ps }))
        (update_row-map (λ p. p.id) k f db.proposals)
        (map-IsSingle (λ p. if p.id == k then f p else p) here db s)

-- No proposal on a job that is still to come is accepted.
none_accepted : (n : ℕ) (ps : List Proposal) → All (IsBacked n) ps → accepted_count n ps ≤ 0
none_accepted n [] b = omega arith
none_accepted n (p ∷ ps) b = elim (Bool-cases (is_accepted_on n p)) [
  | inl y ↦
      let (on, accepted) = &&-true (p.job_id == n) _ y in
      let low = b.0 accepted in absurd (ground (arith, on, low))
  | inr y ↦ rw y (none_accepted n ps b.1)
]

-- A job is added with the next id.
pub post-IsSingle :
    (j : Job) (db : Db)
    → j.id ≡ db.next_id
    → IsSingle db
    → IsSingle (record db { next_id = suc db.next_id; jobs = db.jobs ++ j ∷ [] })
post-IsSingle j db e s = record {
  jobs_known =
      All-append _ db.jobs (j ∷ [])
        (All-imp (λ x. x.id < db.next_id) (λ x. x.id < suc db.next_id) (λ x l. omega arith) db.jobs
          s.jobs_known)
        (omega arith, tt);
  bids_known =
      All-imp (IsBacked db.next_id) (IsBacked (suc db.next_id))
        (λ p b a. let low = b a in omega arith) db.proposals s.bids_known;
  once = s.once;
  waiting = All-append _ db.jobs (j ∷ []) s.waiting (
    (λ _.
        subst (λ i. accepted_count i db.proposals ≤ 0) (sym e)
          (none_accepted db.next_id db.proposals s.bids_known)),
    tt,
  );
}

-- A write to a job that opens none.
pub job-IsSingle :
    (k : ℕ) (f : Job → Job)
    → ((j : Job) → (f j).id ≡ j.id)
    → ((j : Job)
        → ((f j).status is JobStatus.open_status) ≡ true
        → (j.status is JobStatus.open_status) ≡ true)
    → (db : Db) → IsSingle db
    → IsSingle (record db { jobs = update_row (λ j. j.id) k f db.jobs })
job-IsSingle k f same back db s = record {
  jobs_known =
      All-update_row (λ j. j.id) (λ j. j.id < db.next_id) k f db.jobs
        (All-imp (λ j. j.id < db.next_id) (λ j. j.id ≡ k → (f j).id < db.next_id)
          (λ j l _. subst (λ i. i < db.next_id) (sym (same j)) l) db.jobs s.jobs_known)
        s.jobs_known;
  bids_known = s.bids_known;
  once = s.once;
  waiting =
      All-update_row (λ j. j.id) (IsWaiting db.proposals) k f db.jobs
        (All-imp (IsWaiting db.proposals) (λ j. j.id ≡ k → IsWaiting db.proposals (f j))
          (λ j w _ e. subst (λ i. accepted_count i db.proposals ≤ 0) (sym (same j)) (w (back j e)))
          db.jobs s.waiting)
        s.waiting;
}

-- A pending proposal is added.
pub bid-IsSingle :
    (p : Proposal) (db : Db)
    → (p.status is ProposalStatus.accepted) ≡ false
    → IsSingle db
    → IsSingle (record db { proposals = db.proposals ++ p ∷ [] })
bid-IsSingle p db e s = record {
  jobs_known = s.jobs_known;
  bids_known = All-append _ db.proposals (p ∷ []) s.bids_known ((λ a. absurd (cc)), tt);
  once = λ k. subst (λ n. n ≤ 1) (sym (count k)) (s.once k);
  waiting =
      All-imp (IsWaiting db.proposals) (IsWaiting (db.proposals ++ p ∷ []))
        (λ j w a. subst (λ n. n ≤ 0) (sym (count j.id)) (w a)) db.jobs s.waiting;
}
  where
    count : (k : ℕ) → accepted_count k (db.proposals ++ p ∷ []) ≡ accepted_count k db.proposals
    count k =
        let miss : is_accepted_on k p ≡ false = ground (arith, e) in
        ap length (select-append (is_accepted_on k) db.proposals (p ∷ []))
        ∙ length-append (select (is_accepted_on k) db.proposals) _
        ∙ rw miss (omega arith)
