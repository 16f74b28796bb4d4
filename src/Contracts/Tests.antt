-- ===== src/Contracts/Tests.antt =====
-- Runs of the contracts at concrete inputs, and each theorem at an input that meets its hypotheses.
use kaasb.Common.{◌⊎◌, ◌<◌, select, ◌≤◌, ◌≡◌, refl, false, none, some, List, [], ◌∷◌, arith, map}
use kaasb.Db.{
  holds, Transaction, Db, Error, ok, err, request, MilestoneStatus, Contract, ContractStatus,
  PaymentProvider, escrow_ref,
}
use kaasb.Payment.Fees.{quantize, whole_iqd, calculate_fees}
use kaasb.Payment.Fund.{
  fund_escrow, fund_checked, fund_through, funding_transaction, pending_escrow,
}
use kaasb.Payment.Confirm.{
  confirm_qi_card_payment, verify_order_sig, settle, mark_funded, start_order, fund,
  complete_transaction, funding_rows,
}
use kaasb.Payment.Release.{release_escrow, release_locked_escrow}
use kaasb.Payment.Refund.{refund_escrow}
use kaasb.Payment.Samples.{
  sample_settings, sample_gateway, sample_db, sample_milestone, sample_contract,
}
use kaasb.Contracts.Milestones.{
  milestones_of, MilestoneCreate, MilestoneUpdate, add_milestones, add_checked, insert_milestones,
  milestone_total, update_milestone, update_checked, delete_milestone, delete_checked,
  start_milestone, start_checked, submit_milestone, submit_checked,
}
use kaasb.Contracts.Review.{
  approve, review_milestone, review_checked, review_as, pay_milestone, complete_contract,
}
use kaasb.Contracts.Money.{add_milestones-within}
use kaasb.Contracts.Edits.{update_milestone-exceeds, delete_milestone-loses, approved-stuck}

abbrev runs : Unit {0}
unfolding fund_escrow fund_checked fund_through calculate_fees quantize whole_iqd verify_order_sig
    confirm_qi_card_payment settle mark_funded start_order release_escrow release_locked_escrow
    refund_escrow add_milestones add_checked insert_milestones update_milestone update_checked
    delete_milestone delete_checked start_milestone start_checked submit_milestone submit_checked
    review_milestone review_checked review_as pay_milestone complete_contract
runs = tt

-- The milestone's escrow, as if its payment had been confirmed.
abbrev funded_db : Db
funded_db = record sample_db {
  escrows = fund 20 (pending_escrow 50 (calculate_fees 1000 600_000_000) 1 sample_contract 4) ∷ [];
}

abbrev submitted : Db → Db
submitted db = request (submit_milestone 30 2 4 none) (request (start_milestone 2 4) db)

abbrev paid_db : Db
paid_db = request (review_milestone 40 1 4 approve none) (submitted funded_db)

abbrev unpaid_db : Db
unpaid_db = request (review_milestone 40 1 4 approve none) (submitted sample_db)

states :
    (map (λ m. m.status) paid_db.milestones ≡ MilestoneStatus.paid ∷ [])
    × (map (λ c. c.status) paid_db.contracts ≡ ContractStatus.completed ∷ [])
    × (map (λ c. c.amount_paid) paid_db.contracts ≡ 600_000_000 ∷ [])
    × (map (λ m. m.status) unpaid_db.milestones ≡ MilestoneStatus.approved ∷ [])
unfolding runs
states = (refl, refl, refl, refl)

-- A contract that has no milestone yet.
abbrev roomy_contract : Contract
roomy_contract = record sample_contract { total_amount = 900_000_000 }

abbrev roomy_db : Db
roomy_db = record sample_db { milestones = []; contracts = roomy_contract ∷ [] }

abbrev forms : List MilestoneCreate
forms = record { amount = 300_000_000; order = 0 } ∷ []

add_milestones-within_example :
    ((milestones_of 3 roomy_db ≡ []) ⊎ (forms ≡ []))
    × (milestone_total 3 (request (add_milestones 1 3 forms) roomy_db) ≤ 900_000_000)
unfolding runs
add_milestones-within_example =
    add_milestones-within 1 3 forms roomy_contract roomy_db
      {r = (3, request (add_milestones 1 3 forms) roomy_db)} refl refl

abbrev raise_amount : MilestoneUpdate
raise_amount = record { amount = some 990_000_000; order = none; has_others = false }

update_milestone-exceeds_example :
    (db' : Db) × (update_milestone 1 4 raise_amount sample_db ≡ ok (4, db'))
    × (600_000_000 < milestone_total 3 db')
update_milestone-exceeds_example =
    update_milestone-exceeds 1 4 990_000_000 raise_amount sample_milestone sample_contract sample_db
      refl refl refl refl refl refl (omega arith)

-- The milestone's payment is confirmed.
abbrev confirmed_db : Db
confirmed_db =
    request (confirm_qi_card_payment sample_settings 20 (escrow_ref 4) "signed")
      (request (fund_escrow sample_settings sample_gateway 1 4 PaymentProvider.qi_card) sample_db)

abbrev paid_transaction : Transaction
paid_transaction = complete_transaction 20 (
    funding_transaction 100 (calculate_fees 1000 600_000_000) 1 sample_contract 4
      PaymentProvider.qi_card (escrow_ref 4))

delete_milestone-loses_example :
    (db' : Db) × (delete_milestone 1 4 confirmed_db ≡ ok (tt, db'))
    × (select (λ x. holds x.milestone_id 4) db'.escrows ≡ [])
    × (funding_rows (escrow_ref 4) db' ≡ record paid_transaction { milestone_id = none } ∷ [])
unfolding runs
delete_milestone-loses_example =
    delete_milestone-loses 1 4 sample_milestone sample_contract
      (pending_escrow 101 (calculate_fees 1000 600_000_000) 1 sample_contract 4) paid_transaction
      confirmed_db refl refl refl refl refl refl refl refl

approved-stuck_example :
    ((e : Error) × (fund_escrow sample_settings sample_gateway 1 4 PaymentProvider.qi_card unpaid_db
        ≡ err e))
    × ((e : Error) × (submit_milestone 50 1 4 none unpaid_db ≡ err e))
    × ((e : Error) × (review_milestone 50 1 4 approve none unpaid_db ≡ err e))
unfolding runs
approved-stuck_example =
    approved-stuck sample_settings sample_gateway 50 1 4 PaymentProvider.qi_card approve none
      (record sample_milestone {
        status = MilestoneStatus.approved;
        submitted_at = some 30;
        approved_at = some 40;
      })
      sample_contract unpaid_db refl refl refl
