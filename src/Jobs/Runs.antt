-- ===== src/Jobs/Runs.antt =====
-- Histories of jobs and proposals (backend/app/services/job_service.py and proposal_service.py).
use kaasb.Common.{
  ℕ, refl, Bool-cases, inl, inr, Option, none, some, List, [], ◌∷◌, any, if◌then◌else◌, ltb, ◌==◌,
  ◌&&◌, not, Text,
}
use kaasb.Db.{
  Db, Action, raise_if, new_id, Keeps, Keeps-pure, Keeps-modify, Keeps-raise_if, Keeps-bind,
  Keeps-checked, Keeps-request, ◌is◌, Job, Proposal, NotificationType, User, UserRole, job_coded,
  proposal_coded, role_coded, user_coded, conflict, forbidden, bad_request,
}
use kaasb.Auth.Current.{Keeps-as_user}
use kaasb.Messages.Starting.{get_or_create_system_conversation}
use kaasb.Messages.Announcing.{Keeps-platform}
use kaasb.Jobs.Proposals.{set_proposal}
use kaasb.Jobs.Responding.{
  Answer, shortlists, accepts, rejects, respond_to_proposal, respond_on, respond_checked, follow_up,
  settle_acceptance, may_become, respond, answer_type, new_contract, add_contract,
  create_contract_from_proposal, reject_others, is_other, reject,
}
use kaasb.Jobs.Proposals.{is_bid}
use kaasb.Db.{validation_error}
use kaasb.Jobs.Calls.{as_role, Call, posts, closes, submits, updates, withdraws, responds, act, run}
use kaasb.Jobs.Single.{IsSingle, AcceptsNoMore, map-IsSingle}
use kaasb.Jobs.Acceptance.{accepted_db, accept-IsSingle}
use kaasb.Jobs.Accepting.{Accepted, accepted-inv}
use kaasb.Jobs.Requests.{
  chat, Keeps-next, Keeps-notify, Keeps-set_proposal, Keeps-with_job, Keeps-with_proposal,
  Keeps-create_job, Keeps-close_job, Keeps-submit_proposal, Keeps-update_proposal,
  Keeps-withdraw_proposal,
}

module _ (now client : ℕ) (text : Text) (p : Proposal) (j : Job) where
  Keeps-create_contract : Keeps IsSingle (create_contract_from_proposal now j p)
  unfolding create_contract_from_proposal
  Keeps-create_contract = Keeps-bind IsSingle new_id _ Keeps-next λ id.
      Keeps-bind IsSingle (add_contract (new_contract id now j p)) _
        (Keeps-checked IsSingle
          (λ db. ltb 0 p.bid_amount && not (any (λ d. d.proposal_id == p.id) db.contracts)) _
          conflict
          (λ db s. record {
            jobs_known = s.jobs_known;
            bids_known = s.bids_known;
            once = s.once;
            waiting = s.waiting;
          }))
        λ _. Keeps-notify p.freelancer_id NotificationType.contract_created

  rejects_others : AcceptsNoMore (λ q. if is_other p q then reject now q else q)
  rejects_others q = elim (Bool-cases (is_other p q)) [
    | inl y ↦ rw y (λ e. absurd (cc))
    | inr n ↦ rw n (λ e. (refl, e))
  ]

  Keeps-settle : Keeps IsSingle (settle_acceptance now client text p j)
  Keeps-settle =
      Keeps-bind IsSingle (reject_others now p) _
        (Keeps-modify IsSingle _
          (map-IsSingle (λ q. if is_other p q then reject now q else q) rejects_others))
        λ _.
          Keeps-bind IsSingle (create_contract_from_proposal now j p) _ Keeps-create_contract λ _.
            Keeps-bind IsSingle
              (get_or_create_system_conversation now client p.freelancer_id (some p.job_id) none
                text)
              _ (Keeps-platform IsSingle chat now client p.freelancer_id (some p.job_id) none text)
              λ _. Keeps-pure IsSingle tt

module _ (now client k : ℕ) (note : Option Text) (text : Text) where
  accepts-IsSingle :
      (db : Db) (r : Unit {0} × Db)
      → Accepted now client k note text db r
      → IsSingle db
      → IsSingle r.1
  accepts-IsSingle db r a s =
      (Keeps-notify a.proposal.freelancer_id (answer_type accepts)).keeps a.settled.1 r a.notifies (
        (Keeps-settle now client text a.proposal a.job).keeps
          (accepted_db now note a.proposal a.job db) a.settled a.settles
          (accept-IsSingle now note a.proposal a.job db a.row a.job_row a.was_open s))

  Keeps-refusal :
      (a : Answer) (p : Proposal)
      → AcceptsNoMore (respond now a note)
      → Keeps IsSingle (follow_up now client text p a)
      → Keeps IsSingle (respond_on now client a note text p)
  Keeps-refusal a p h after =
      Keeps-with_job p.job_id (respond_checked now client a note text p) λ j.
        Keeps-bind IsSingle (raise_if (not (j.client_id == client)) forbidden) _
          (Keeps-raise_if IsSingle _ _)
          λ _.
            Keeps-bind IsSingle (raise_if (not (may_become p.status a)) bad_request) _
              (Keeps-raise_if IsSingle _ _)
              λ _.
                Keeps-bind IsSingle (set_proposal p.id (respond now a note)) _
                  (Keeps-set_proposal p.id (respond now a note) h)
                  λ _.
                    Keeps-bind IsSingle (follow_up now client text p a) _ after
                      λ _. Keeps-notify p.freelancer_id (answer_type a)

  Keeps-respond : (a : Answer) → Keeps IsSingle (respond_to_proposal now client k a note text)
  unfolding respond_to_proposal
  Keeps-respond shortlists =
      Keeps-with_proposal k _
        λ p. Keeps-refusal shortlists p (λ q e. absurd (cc)) (Keeps-pure IsSingle tt)
  Keeps-respond rejects =
      Keeps-with_proposal k _
        λ p. Keeps-refusal rejects p (λ q e. absurd (cc)) (Keeps-pure IsSingle tt)
  Keeps-respond accepts = record {
    keeps = λ db r e s. accepts-IsSingle db r (accepted-inv now client k note text db r e) s;
  }

Keeps-as_role :
    {A : Type 0} (role : UserRole) (k : ℕ) (f : User → Action A)
    → ((u : User) → Keeps IsSingle (f u))
    → Keeps IsSingle (as_role role k f)
Keeps-as_role role k f h = Keeps-as_user IsSingle k _ λ u.
    Keeps-bind IsSingle (raise_if (not (u.primary_role is role)) forbidden) _
      (Keeps-raise_if IsSingle _ _) λ _. h u

act-IsSingle : (now k : ℕ) (call : Call) (db : Db) → IsSingle db → IsSingle (act now k call db)
act-IsSingle now k (posts budget_max) db =
    Keeps-request IsSingle _ db
      (Keeps-as_role UserRole.client k _ λ u. Keeps-create_job now u budget_max)
act-IsSingle now k (closes job) db =
    Keeps-request IsSingle _ db
      (Keeps-as_role UserRole.client k _ λ u. Keeps-close_job now job u.id)
act-IsSingle now k (submits job bid) db = Keeps-request IsSingle _ db (
    Keeps-as_role UserRole.freelancer k _ λ u.
      Keeps-bind IsSingle (raise_if (not (is_bid (some (some bid)))) validation_error) _
        (Keeps-raise_if IsSingle _ _) λ _. Keeps-submit_proposal now u.id job bid)
act-IsSingle now k (updates p d) db = Keeps-request IsSingle _ db (
    Keeps-as_role UserRole.freelancer k _ λ u.
      Keeps-bind IsSingle (raise_if (not (is_bid d.bid_amount)) validation_error) _
        (Keeps-raise_if IsSingle _ _) λ _. Keeps-update_proposal u.id p d)
act-IsSingle now k (withdraws p) db =
    Keeps-request IsSingle _ db
      (Keeps-as_role UserRole.freelancer k _ λ u. Keeps-withdraw_proposal u.id p)
act-IsSingle now k (responds p a note text) db =
    Keeps-request IsSingle _ db
      (Keeps-as_role UserRole.client k _ λ u. Keeps-respond now u.id p note text a)

-- Through any history of requests on jobs and proposals, by whatever users: at most one proposal of a
-- job is accepted, and none of a job that is still open, if this was so at first and no id of a job
-- is beyond the next one.
pub run-IsSingle : (es : List (ℕ × (ℕ × Call))) (db : Db) → IsSingle db → IsSingle (run es db)
unfolding run
run-IsSingle [] db s = s
run-IsSingle ((now, (k, call)) ∷ es) db s =
    run-IsSingle es (act now k call db) (act-IsSingle now k call db s)
