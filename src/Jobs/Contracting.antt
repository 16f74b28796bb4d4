-- ===== src/Jobs/Contracting.antt =====
-- The contract that an acceptance makes (backend/app/services/proposal_service.py and
-- contract_service.py).
use kaasb.Common.{
  ℕ, suc, ◌≡◌, All, All-of, All-update_row_cases, refl, sym, subst, Bool-cases, inl, inr, true,
  false, Option, none, some, List, [], ◌∷◌, ◌++◌, map, any, update_row, if◌then◌else◌, ltb, ◌==◌,
  ◌&&◌, not, arith, Text,
}
use kaasb.Db.{
  Db, ok, pure, ◌>>=◌, notify, bind-inv, checked-inv, Keeps-pure, Keeps-bind, ok-inj, Job, Proposal,
  NotificationType, job_coded, proposal_coded, role_coded, user_coded, conflict,
}
use kaasb.Messages.Starting.{job_rows, get_or_create_system_conversation}
use kaasb.Messages.Announcing.{IgnoresChat, Keeps-platform}
use kaasb.Jobs.Proposals.{proposal_rows, is_live}
use kaasb.Jobs.Responding.{
  accepts, respond_to_proposal, settle_acceptance, respond, assign, new_contract,
  create_contract_from_proposal, is_other, reject,
}
use kaasb.Jobs.Acceptance.{accepted_db}
use kaasb.Jobs.Accepting.{accepted-inv}

module _ (now client : ℕ) (note : Option Text) (text : Text) (p : Proposal) (j : Job) where
  abbrev rejected : List Proposal → List Proposal
  rejected ps = map (λ q. if is_other p q then reject now q else q) ps

  -- What the conversation leaves as it is.
  abbrev Contracted : ℕ → Db → Db → Type 0
  Contracted id d x =
      (x.contracts ≡ d.contracts ++ new_contract id now j p ∷ [])
      × ((x.jobs ≡ d.jobs) × (x.proposals ≡ d.proposals))

  contract-inv :
      (d : Db) (r : Unit {0} × Db)
      → create_contract_from_proposal now j p d ≡ ok r
      → Contracted d.next_id d r.1
  unfolding create_contract_from_proposal
  contract-inv d r e =
      let d1 = record d { next_id = suc d.next_id } in
      let (_, rest) =
        checked-inv (ltb 0 p.bid_amount && not (any (λ c. c.proposal_id == p.id) d.contracts))
          (record d1 { contracts = d.contracts ++ new_contract d.next_id now j p ∷ [] }) conflict
          (notify p.freelancer_id NotificationType.contract_created) d1 e in
      subst (λ (x : Unit {0} × Db). Contracted d.next_id d x.1) (ok-inj rest) (refl, (refl, refl))

  chat_ignored : (id : ℕ) (d : Db) → IgnoresChat (Contracted id d)
  chat_ignored id d = record { ignores = λ cs ms n db h c. c }

  settle-Contracted :
      (d : Db) (r : Unit {0} × Db)
      → settle_acceptance now client text p j d ≡ ok r
      → Contracted d.next_id (record d { proposals = rejected d.proposals }) r.1
  settle-Contracted d r e =
      let d1 = record d { proposals = rejected d.proposals } in
      let (_, d2, made, rest) =
        bind-inv (create_contract_from_proposal now j p)
          (λ _.
            get_or_create_system_conversation now client p.freelancer_id (some p.job_id) none text
            >>= λ _. pure tt)
          d1 e in
      let P = Contracted d.next_id d1 in
      (Keeps-bind P
          (get_or_create_system_conversation now client p.freelancer_id (some p.job_id) none text)
          (λ _. pure tt)
          (Keeps-platform P (chat_ignored d.next_id d1) now client p.freelancer_id (some p.job_id)
            none text)
          (λ _. Keeps-pure P tt)).keeps
        d2 r rest (contract-inv d1 (_, d2) made)

  answered_live :
      (ps : List Proposal)
      → All
          (λ q. q.id ≡ p.id → is_live q.status ≡ false)
          (update_row (λ q. q.id) p.id (respond now accepts note) ps)
  answered_live ps =
      All-update_row_cases (λ q. q.id) (λ q. q.id ≡ p.id → is_live q.status ≡ false) p.id
        (respond now accepts note) ps (All-of (λ q _ _. refl) ps)
        (All-of (λ q other e. absurd (other e)) ps)

  none_live :
      (ps : List Proposal)
      → All (λ q. q.id ≡ p.id → is_live q.status ≡ false) ps
      → All (λ q. q.job_id ≡ p.job_id → is_live q.status ≡ false) (rejected ps)
  none_live [] h = tt
  none_live (q ∷ ps) h = elim (Bool-cases (is_other p q)) [
    | inl y ↦ rw y ((λ _. refl), none_live ps h.1)
    | inr n ↦ rw n ((λ same. one same n), none_live ps h.1)
  ]
    where
      one : q.job_id ≡ p.job_id → is_other p q ≡ false → is_live q.status ≡ false
      one same n = elim (Bool-cases (q.id == p.id)) [
        | inl y ↦ h.0 (ground (arith, y))
        | inr m ↦ let on : (q.job_id == p.job_id) ≡ true = ground (arith, same) in rw (on, m) at n
      ]

-- An acceptance that returns has made one contract, of the proposal's bid and between the job's client
-- and the proposal's freelancer; the job is in progress with that freelancer, and no proposal on it is
-- pending or shortlisted any more.
pub accepted-contracts :
    (now client k : ℕ) (note : Option Text) (text : Text) (db : Db) (r : Unit {0} × Db)
    → respond_to_proposal now client k accepts note text db ≡ ok r
    → (p : Proposal) × (j : Job) × (proposal_rows k db ≡ p ∷ [])
      × (job_rows p.job_id db ≡ j ∷ [])
      × (r.1.contracts ≡ db.contracts ++ new_contract db.next_id now j p ∷ [])
      × (r.1.jobs ≡ update_row (λ x. x.id) j.id (assign p.freelancer_id) db.jobs)
      × All (λ q. q.job_id ≡ p.job_id → is_live q.status ≡ false) r.1.proposals
accepted-contracts now client k note text db r e =
    let a = accepted-inv now client k note text db r e in
    let d = accepted_db now note a.proposal a.job db in
    let (contracts, (jobs, proposals)) =
      subst
        (λ (x : Unit {0} × Db).
          Contracted now client note text a.proposal a.job d.next_id
            (record d { proposals = rejected now client note text a.proposal a.job d.proposals })
            x.1)
        (ok-inj a.notifies)
        (settle-Contracted now client note text a.proposal a.job d a.settled a.settles) in
    (
      a.proposal,
      a.job,
      subst (λ i. proposal_rows i db ≡ a.proposal ∷ []) a.its_id a.row,
      a.job_row,
      contracts,
      jobs,
      subst (λ ps. All (λ q. q.job_id ≡ a.proposal.job_id → is_live q.status ≡ false) ps)
          (sym proposals)
          (none_live now client note text a.proposal a.job d.proposals
            (answered_live now client note text a.proposal a.job db.proposals)),
    )
