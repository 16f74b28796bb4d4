-- ===== src/Jobs/Requests.antt =====
-- The requests on jobs and proposals (backend/app/services/job_service.py and proposal_service.py),
-- but an answer to a proposal, for the invariant of Jobs/Single.
use kaasb.Common.{
  ℕ, suc, ◌<◌, ◌≡◌, All-imp, refl, true, Option, none, some, [], ◌∷◌, ◌++◌, any, is_some, ltb, ◌==◌,
  ◌&&◌, ◌||◌, not, arith,
}
use kaasb.Db.{
  Action, raise_if, notify, new_id, Keeps, Keeps-ok, Keeps-pure, Keeps-raise, Keeps-modify,
  Keeps-raise_if, Keeps-bind, Keeps-find, Keeps-checked, ◌is◌, Job, JobStatus, Proposal,
  ProposalStatus, NotificationType, User, UserRole, job_coded, proposal_coded, role_coded,
  user_coded, conflict, forbidden, bad_request, not_found, integrity,
}
use kaasb.Messages.Starting.{job_rows}
use kaasb.Messages.Announcing.{IgnoresChat}
use kaasb.Jobs.Postings.{
  or_no_job, with_job, set_job, new_job, create_job, close, close_checked, close_job,
}
use kaasb.Jobs.Proposals.{
  proposal_rows, or_no_proposal, with_proposal, set_proposal, own_proposals, is_on, new_proposal,
  add_proposal, exceeds_budget, count_up, count_down, submit_new, submit_on, submit_proposal,
  ProposalUpdate, is_null, set_bid, update_bid, update_proposal, withdraw, withdraw_checked,
  withdraw_proposal, is_live,
}
use kaasb.Jobs.Single.{
  IsSingle, IsBacked, AcceptsNoMore, write-IsSingle, post-IsSingle, job-IsSingle, bid-IsSingle,
}

pub chat : IgnoresChat IsSingle
chat = record {
  ignores = λ cs ms n db h s. record {
    jobs_known =
        All-imp (λ j. j.id < db.next_id) (λ j. j.id < n) (λ j l. omega (arith, h, l)) db.jobs
          s.jobs_known;
    bids_known =
        All-imp (IsBacked db.next_id) (IsBacked n) (λ p b a. let low = b a in omega (arith, h, low))
          db.proposals s.bids_known;
    once = s.once;
    waiting = s.waiting;
  };
}

pub Keeps-next : Keeps IsSingle new_id
Keeps-next =
    Keeps-ok IsSingle new_id (λ db. (db.next_id, record db { next_id = suc db.next_id }))
      (λ db. refl)
      (λ db s. chat.ignores db.conversations db.messages (suc db.next_id) db (omega arith) s)

pub Keeps-notify : (k : ℕ) (t : NotificationType) → Keeps IsSingle (notify k t)
Keeps-notify k t = Keeps-modify IsSingle _ λ db s. record {
  jobs_known = s.jobs_known;
  bids_known = s.bids_known;
  once = s.once;
  waiting = s.waiting;
}

Keeps-set_job :
    (k : ℕ) (f : Job → Job)
    → ((j : Job) → (f j).id ≡ j.id)
    → ((j : Job)
        → ((f j).status is JobStatus.open_status) ≡ true
        → (j.status is JobStatus.open_status) ≡ true)
    → Keeps IsSingle (set_job k f)
Keeps-set_job k f same back = Keeps-modify IsSingle _ (job-IsSingle k f same back)

pub Keeps-set_proposal :
    (k : ℕ) (f : Proposal → Proposal) → AcceptsNoMore f → Keeps IsSingle (set_proposal k f)
Keeps-set_proposal k f h = Keeps-modify IsSingle _ (write-IsSingle k f h)

pub Keeps-with_job :
    {A : Type 0} (k : ℕ) (f : Job → Action A)
    → ((j : Job) → Keeps IsSingle (f j))
    → Keeps IsSingle (with_job k f)
Keeps-with_job {A} k f h = Keeps-find IsSingle (job_rows k) (or_no_job f) found
  where
    found : (o : Option Job) → Keeps IsSingle (or_no_job f o)
    found none = Keeps-raise IsSingle not_found
    found (some j) = h j

pub Keeps-with_proposal :
    {A : Type 0} (k : ℕ) (f : Proposal → Action A)
    → ((p : Proposal) → Keeps IsSingle (f p))
    → Keeps IsSingle (with_proposal k f)
Keeps-with_proposal {A} k f h = Keeps-find IsSingle (proposal_rows k) (or_no_proposal f) found
  where
    found : (o : Option Proposal) → Keeps IsSingle (or_no_proposal f o)
    found none = Keeps-raise IsSingle not_found
    found (some p) = h p

pub Keeps-create_job :
    (now : ℕ) (u : User) (budget_max : Option ℕ) → Keeps IsSingle (create_job now u budget_max)
unfolding create_job
Keeps-create_job now u budget_max =
    Keeps-bind IsSingle (raise_if (not (u.primary_role is UserRole.client)) forbidden) _
      (Keeps-raise_if IsSingle _ _)
      λ _.
        Keeps-ok IsSingle _
          (λ db. (
            db.next_id,
            record db {
              next_id = suc db.next_id;
              jobs = db.jobs ++ new_job db.next_id now u.id budget_max ∷ [];
            },
          ))
          (λ db. refl) (λ db s. post-IsSingle (new_job db.next_id now u.id budget_max) db refl s)

pub Keeps-close_job : (now k client : ℕ) → Keeps IsSingle (close_job now k client)
unfolding close_job
Keeps-close_job now k client = Keeps-with_job k (close_checked now client) λ j.
    Keeps-bind IsSingle (raise_if (not (j.client_id == client)) forbidden) _
      (Keeps-raise_if IsSingle _ _)
      λ _.
        Keeps-bind IsSingle
          (raise_if (not ((j.status is JobStatus.open_status) || (j.status is JobStatus.draft)))
            bad_request)
          _ (Keeps-raise_if IsSingle _ _)
          λ _. Keeps-set_job j.id (close now) (λ x. refl) (λ x e. absurd (cc))

Keeps-submit_new :
    (now freelancer bid : ℕ) (j : Job) (o : Option Proposal)
    → Keeps IsSingle (submit_new now freelancer bid j o)
Keeps-submit_new now freelancer bid j (some p) = Keeps-raise IsSingle conflict
Keeps-submit_new now freelancer bid j none =
    Keeps-bind IsSingle (raise_if (not (ltb 0 bid)) bad_request) _ (Keeps-raise_if IsSingle _ _)
      λ _.
        Keeps-bind IsSingle (raise_if (exceeds_budget bid j.budget_max) bad_request) _
          (Keeps-raise_if IsSingle _ _)
          λ _. Keeps-bind IsSingle new_id _ Keeps-next λ id.
            Keeps-bind IsSingle (add_proposal (new_proposal id now j.id freelancer bid)) _
              (Keeps-checked IsSingle (λ db. not (any (is_on j.id freelancer) db.proposals)) _
                integrity
                (λ db s. bid-IsSingle (new_proposal id now j.id freelancer bid) db refl s))
              λ _.
                Keeps-bind IsSingle (set_job j.id count_up) _
                  (Keeps-set_job j.id count_up (λ x. refl) (λ x e. e))
                  λ _.
                    Keeps-bind IsSingle (notify j.client_id NotificationType.proposal_received) _
                      (Keeps-notify _ _) λ _. Keeps-pure IsSingle id

pub Keeps-submit_proposal :
    (now freelancer job bid : ℕ) → Keeps IsSingle (submit_proposal now freelancer job bid)
unfolding submit_proposal
Keeps-submit_proposal now freelancer job bid =
    Keeps-with_job job (submit_on now freelancer bid) λ j.
      Keeps-bind IsSingle (raise_if (not (j.status is JobStatus.open_status)) bad_request) _
        (Keeps-raise_if IsSingle _ _)
        λ _.
          Keeps-bind IsSingle (raise_if (j.client_id == freelancer) bad_request) _
            (Keeps-raise_if IsSingle _ _)
            λ _.
              Keeps-find IsSingle (own_proposals j.id freelancer) (submit_new now freelancer bid j)
                (Keeps-submit_new now freelancer bid j)

bid-AcceptsNoMore : (o : Option (Option ℕ)) → AcceptsNoMore (set_bid o)
bid-AcceptsNoMore none p e = (refl, e)
bid-AcceptsNoMore (some none) p e = (refl, e)
bid-AcceptsNoMore (some (some b)) p e = (refl, e)

pub Keeps-update_proposal :
    (freelancer k : ℕ) (d : ProposalUpdate) → Keeps IsSingle (update_proposal freelancer k d)
unfolding update_proposal
Keeps-update_proposal freelancer k d = Keeps-with_proposal k (update_bid freelancer d) λ p.
    Keeps-bind IsSingle (raise_if (not (p.freelancer_id == freelancer)) forbidden) _
      (Keeps-raise_if IsSingle _ _)
      λ _.
        Keeps-bind IsSingle (raise_if (not (p.status is ProposalStatus.pending)) bad_request) _
          (Keeps-raise_if IsSingle _ _)
          λ _.
            Keeps-bind IsSingle
              (raise_if
                (not (is_some d.cover_letter)
                  && (not (is_some d.bid_amount) && not (is_some d.estimated_duration)))
                bad_request)
              _ (Keeps-raise_if IsSingle _ _)
              λ _.
                Keeps-bind IsSingle
                  (raise_if (is_null d.cover_letter || is_null d.bid_amount) integrity) _
                  (Keeps-raise_if IsSingle _ _)
                  λ _.
                    Keeps-set_proposal p.id (set_bid d.bid_amount) (bid-AcceptsNoMore d.bid_amount)

pub Keeps-withdraw_proposal : (freelancer k : ℕ) → Keeps IsSingle (withdraw_proposal freelancer k)
unfolding withdraw_proposal
Keeps-withdraw_proposal freelancer k = Keeps-with_proposal k (withdraw_checked freelancer) λ p.
    Keeps-bind IsSingle (raise_if (not (p.freelancer_id == freelancer)) forbidden) _
      (Keeps-raise_if IsSingle _ _)
      λ _.
        Keeps-bind IsSingle (raise_if (not (is_live p.status)) bad_request) _
          (Keeps-raise_if IsSingle _ _)
          λ _.
            Keeps-bind IsSingle (set_proposal p.id withdraw) _
              (Keeps-set_proposal p.id withdraw (λ q e. absurd (cc)))
              λ _. Keeps-set_job p.job_id count_down (λ x. refl) (λ x e. e)
