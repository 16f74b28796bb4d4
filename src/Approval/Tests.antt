-- ===== src/Approval/Tests.antt =====
-- Runs of the approvals at concrete inputs, and each theorem at an input that meets its hypotheses.
use kaasb.Common.{◌+◌, sum_of, ℕ, ◌≤◌, ◌≡◌, refl, none, some, List, [], ◌∷◌, ◌++◌, arith, map}
use kaasb.Db.{Db, ok, err, conflict, request, EscrowStatus, Escrow, PayoutApprovalStatus}
use kaasb.Payment.Release.{release_escrow_by_id, release_locked_escrow}
use kaasb.Payment.Samples.{sample_settings, sample_db}
use kaasb.Approval.Review.{
  request_release, request_decided, pending_second_approval, pending_approval, approve,
  approve_loaded, approve_released, approved, reject, reject_loaded, load_pending,
  freelancer_recent_release_total, recent_share, pending_share,
}
use kaasb.Approval.Threshold.{single_release-bounded, request-queued}
use kaasb.Approval.Decisions.{approve-final, reject-final}
use kaasb.Approval.Calls.{Call, requests, approves, step, run}
use kaasb.Approval.FourEyes.{AllFourEyes, run-FourEyes}

abbrev runs : Unit {0}
unfolding request_release request_decided release_escrow_by_id release_locked_escrow approve
    approve_loaded approve_released reject reject_loaded load_pending
    freelancer_recent_release_total
runs = tt

-- An escrow of freelancer 2.
abbrev funded : ℕ → ℕ → Escrow
funded id amount = record {
  id = id;
  amount = amount;
  platform_fee = 10_000;
  freelancer_amount = 90_000;
  status = EscrowStatus.funded;
  contract_id = none;
  milestone_id = none;
  service_order_id = none;
  client_id = 1;
  freelancer_id = 2;
  funding_transaction_id = none;
  release_transaction_id = none;
  funded_at = some 0;
  released_at = none;
  version = 1;
}

-- Two escrows of 300,000 IQD each, below the threshold of 500,000 IQD alone and above it together.
abbrev split_db : Db
split_db = record sample_db { escrows = funded 50 3_000_000_000 ∷ funded 51 3_000_000_000 ∷ [] }

abbrev first_db : Db
first_db = request (request_release sample_settings 10 50 8 none) split_db

abbrev second_db : Db
second_db = request (request_release sample_settings 20 51 8 none) first_db

abbrev approved_db : Db
approved_db = request (approve 30 103 9 none) second_db

states :
    (map (λ e. e.status) second_db.escrows ≡ EscrowStatus.released ∷ EscrowStatus.funded ∷ [])
    × (map (λ e. e.status) approved_db.escrows ≡ EscrowStatus.released ∷ EscrowStatus.released ∷ [])
    × (map (λ a. a.status) approved_db.approvals ≡ PayoutApprovalStatus.approved ∷ [])
    × (freelancer_recent_release_total 40 2 approved_db ≡ 6_000_000_000)
    × (freelancer_recent_release_total 86_420 2 approved_db ≡ 3_000_000_000)
unfolding runs
states = (refl, refl, refl, refl, refl)

single_release-bounded_example :
    sum_of (recent_share 10 2 first_db.escrows) first_db.audit
      + sum_of (pending_share 2 first_db.escrows) first_db.approvals
    ≤ sample_settings.payout_approval_threshold
unfolding runs
single_release-bounded_example =
    single_release-bounded sample_settings 10 50 8 none split_db first_db (funded 50 3_000_000_000)
      90_000 ((λ e. omega (arith, e), tt), (tt, tt)) refl refl

request-queued_example :
    (db' : Db) × (request_release sample_settings 20 51 8 none first_db
      ≡ ok (pending_second_approval first_db.next_id, db'))
    × (db'.transactions ≡ first_db.transactions)
    × (db'.escrows ≡ first_db.escrows)
    × (db'.approvals
        ≡ first_db.approvals ++ pending_approval first_db.next_id 51 8 3_000_000_000 none ∷ [])
unfolding runs
request-queued_example =
    request-queued sample_settings 20 51 8 none first_db (funded 51 3_000_000_000) refl
      (omega arith) refl (omega arith)

approve-final_example :
    (approve 40 103 7 none approved_db ≡ err conflict)
    × (reject 40 103 7 none approved_db ≡ err conflict)
unfolding runs
approve-final_example =
    approve-final 30 103 9 40 7 none none second_db {r = (approved 90_000, approved_db)} refl

reject-final_example :
    (approve 40 103 7 none (request (reject 30 103 9 (some (97 ∷ 98 ∷ 99 ∷ []))) second_db)
      ≡ err conflict)
    × (reject 40 103 7 none (request (reject 30 103 9 (some (97 ∷ 98 ∷ 99 ∷ []))) second_db)
        ≡ err conflict)
unfolding runs
reject-final_example =
    reject-final 30 103 9 40 7 (some (97 ∷ 98 ∷ 99 ∷ [])) none second_db
      {r = (103, request (reject 30 103 9 (some (97 ∷ 98 ∷ 99 ∷ []))) second_db)} refl

-- The admin who asked may not approve; another may.
abbrev history : List (ℕ × Call)
history =
    (10, requests 50 8 none)
    ∷ (20, requests 51 8 none)
    ∷ (25, approves 103 8 none)
    ∷ (30, approves 103 9 none)
    ∷ []

history-run :
    map (λ a. a.decided_by_id) (run sample_settings history split_db).approvals ≡ some 9 ∷ []
unfolding runs run step
history-run = refl

run-FourEyes_example : AllFourEyes (run sample_settings history split_db)
run-FourEyes_example = run-FourEyes sample_settings history split_db tt
