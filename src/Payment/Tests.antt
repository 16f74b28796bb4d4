-- ===== src/Payment/Tests.antt =====
-- Runs of the payments at concrete inputs, and each theorem at an input that meets its hypotheses.
use text.Mathlib.Text.{◌==◌ as str_eq}
use text.Mathlib.TextPositions.{eq_refl}
use kaasb.Common.{
  inr, String, subst, ◌≢◌, All, ℕ, ◌+◌, ◌*◌, ◌≤◌, ◌≡◌, refl, true, false, none, some, List, [], ◌∷◌,
  arith, map,
}
use kaasb.Db.{
  Db, ok, request, PaymentProvider, ExternalRef, escrow_ref, EscrowStatus, TransactionStatus,
  TransactionType, transaction_type_coded, ◌is◌, Escrow,
}
use kaasb.Payment.Fees.{quantize, whole_iqd, calculate_fees, calculate_fees_split}
use kaasb.Payment.Fund.{fund_escrow, fund_checked, fund_through}
use kaasb.Payment.Confirm.{
  confirm_qi_card_payment, handle_qi_card_payment_failed, verify_order_sig, settle, mark_funded,
  start_order,
}
use kaasb.Payment.Release.{
  release_escrow_by_id, release_locked_escrow, funded_rows, release_transaction, ReleaseResponse,
}
use kaasb.Payment.Payout.{
  payout_transaction, complete_payout, total_released, total_paid_out, request_payout,
  payout_checked, record_payout, exceeds_balance,
}
use kaasb.Payment.Calls.{Call, funds, confirms, releases_by_id, withdraws, step, run}
use kaasb.Payment.Samples.{sample_settings, sample_gateway, sample_db, sample_account}
use kaasb.Payment.Callbacks.{forged_redirect, confirm_repeated}
use kaasb.Payment.Opening.{zain_cash_unconfirmed}
use kaasb.Payment.Releasing.{release_twice, Payee, release_payable}
use kaasb.Payment.Solvency.Base.{IsSound}
use kaasb.Payment.Unpaid.{fund_escrow-never_funded, run-no_payout}
use kaasb.Payment.Solvency.Runs.{run_solvent}

calculate_fees_split_example :
    let f = calculate_fees 1000 (100 * 6_000_000) in
    (f.platform_fee + f.net_amount ≡ f.amount)
    × (f.platform_fee ≤ f.amount)
    × (f.net_amount ≤ f.amount)
calculate_fees_split_example = calculate_fees_split 1000 6_000_000 (omega arith)

abbrev my_ref : ExternalRef
my_ref = escrow_ref 4

-- What a run of the payments computes with.
abbrev runs : Unit {0}
unfolding fund_escrow fund_checked fund_through calculate_fees quantize whole_iqd verify_order_sig
    confirm_qi_card_payment settle mark_funded start_order handle_qi_card_payment_failed
    release_escrow_by_id release_locked_escrow request_payout payout_checked record_payout
    exceeds_balance
runs = tt

-- A funding through Qi Card and its confirmation, which finds no escrow.
abbrev opened_db : Db
opened_db =
    request (fund_escrow sample_settings sample_gateway 1 4 PaymentProvider.qi_card) sample_db

abbrev confirmed_db : Db
confirmed_db = request (confirm_qi_card_payment sample_settings 20 my_ref "signed") opened_db

abbrev failed_db : Db
failed_db = request (handle_qi_card_payment_failed sample_settings my_ref "signed") opened_db

-- The escrow of a service order that is paid for, and its release.
abbrev order_escrow : Escrow
order_escrow = record {
  id = 50;
  amount = 600_000_000;
  platform_fee = 60_000_000;
  freelancer_amount = 540_000_000;
  status = EscrowStatus.funded;
  contract_id = none;
  milestone_id = none;
  service_order_id = some 40;
  client_id = 1;
  freelancer_id = 2;
  funding_transaction_id = some 49;
  release_transaction_id = none;
  funded_at = some 20;
  released_at = none;
  version = 1;
}

abbrev paid_db : Db
paid_db = record sample_db { escrows = order_escrow ∷ [] }

abbrev released_db : Db
released_db = request (release_escrow_by_id 30 50) paid_db

abbrev response : ReleaseResponse
response = record { escrow_id = 50; amount = 600_000_000; freelancer_amount = 540_000_000 }

signed : verify_order_sig sample_settings my_ref "signed" ≡ true
unfolding runs
signed = refl

states :
    (map (λ e. e.status) opened_db.escrows ≡ EscrowStatus.pending ∷ [])
    × (map (λ e. e.status) confirmed_db.escrows ≡ EscrowStatus.pending ∷ [])
    × (map (λ t. t.status) confirmed_db.transactions ≡ TransactionStatus.completed ∷ [])
    × (map (λ e. e.status) released_db.escrows ≡ EscrowStatus.released ∷ [])
    × (map (λ e. e.status) failed_db.escrows ≡ EscrowStatus.pending ∷ [])
    × (total_released 2 released_db.transactions ≡ 540_000_000)
unfolding runs
states = (refl, refl, refl, refl, refl, refl)

differs : ◌≢◌ {A = String} "forged" "signed"
differs e =
    let same : false ≡ true = subst (λ x. str_eq "forged" x ≡ true) e (eq_refl "forged") in
    absurd (cc same)

forged_redirect_example :
    (confirm_qi_card_payment sample_settings 20 my_ref "forged" opened_db ≡ ok (false, opened_db))
    × (handle_qi_card_payment_failed sample_settings my_ref "forged" opened_db
        ≡ ok (false, opened_db))
unfolding runs
forged_redirect_example = forged_redirect sample_settings 20 my_ref "forged" opened_db (inr differs)

confirm_repeated_example :
    confirm_qi_card_payment sample_settings 21 my_ref "signed" confirmed_db
    ≡ ok (true, confirmed_db)
unfolding runs
confirm_repeated_example =
    confirm_repeated sample_settings 20 21 my_ref "signed" opened_db confirmed_db refl

release_twice_example : release_escrow_by_id 31 50 released_db ≡ ok (none, released_db)
unfolding runs
release_twice_example = release_twice 30 31 50 paid_db response released_db refl

release_payable_example :
    (e : Escrow) × (funded_rows 50 paid_db ≡ e ∷ []) × Payee e.freelancer_id paid_db
unfolding runs
release_payable_example = release_payable 30 50 paid_db response released_db refl

abbrev zain_db : Db
zain_db =
    request (fund_escrow sample_settings sample_gateway 1 4 PaymentProvider.zain_cash) sample_db

zain_cash_unconfirmed_example :
    (confirm_qi_card_payment sample_settings 20 my_ref "signed" zain_db ≡ ok (false, zain_db))
    × (handle_qi_card_payment_failed sample_settings my_ref "signed" zain_db ≡ ok (false, zain_db))
unfolding runs
zain_cash_unconfirmed_example =
    zain_cash_unconfirmed sample_settings sample_gateway 1 4 20 my_ref "signed" sample_db
      {r = (101, zain_db)} refl refl refl

-- A freelancer whose ledger has a release and a payout already, and a paid escrow.
abbrev earlier_db : Db
earlier_db = record paid_db {
  transactions =
      release_transaction 60 61 5 order_escrow
      ∷ complete_payout 9 (payout_transaction 62 63 2 500_000_000 sample_account)
      ∷ [];
}

abbrev history : List (ℕ × Call)
history =
    (10, funds 1 4 PaymentProvider.qi_card)
    ∷ (20, confirms my_ref "signed")
    ∷ (30, releases_by_id 50)
    ∷ (40, withdraws 2 5 500_000_000)
    ∷ (50, withdraws 2 5 500_000_000)
    ∷ []

-- The first withdrawal is recorded, the second refused.
history-run :
    let ts = (run sample_settings sample_gateway history earlier_db).transactions in
    (total_released 2 ts ≡ 1_080_000_000) × (total_paid_out 2 ts ≡ 1_000_000_000)
unfolding runs run step
history-run = (refl, refl)

earlier_db-IsSound : IsSound earlier_db
earlier_db-IsSound = record {
  below = (omega arith, (omega arith, tt));
  distinct = ((λ e. omega (arith, e), tt), (tt, tt));
  solvent = λ u. ground arith;
}

run_solvent_example :
    total_paid_out 2 (run sample_settings sample_gateway history earlier_db).transactions
    ≤ total_released 2 (run sample_settings sample_gateway history earlier_db).transactions + 50
run_solvent_example =
    run_solvent sample_settings sample_gateway history earlier_db 2 earlier_db-IsSound

-- The escrow of a funding whose payment is confirmed.
fund_escrow-never_funded_example :
    ((e : Escrow) × (opened_db.escrows ≡ e ∷ []) × (e.id ≡ 101))
    × (funded_rows 101 (run sample_settings sample_gateway history opened_db) ≡ [])
    × (release_escrow_by_id 60 101 (run sample_settings sample_gateway history opened_db)
        ≡ ok (none, run sample_settings sample_gateway history opened_db))
unfolding runs
fund_escrow-never_funded_example =
    fund_escrow-never_funded sample_settings sample_gateway 1 4 60 PaymentProvider.qi_card history
      sample_db {r = (101, opened_db)} refl tt

-- A release that is on record, and the freelancer's withdrawals.
abbrev first_db : Db
first_db = record paid_db { transactions = release_transaction 60 61 5 order_escrow ∷ [] }

run-no_payout_example :
    let after = (run sample_settings sample_gateway history first_db).transactions in
    All (λ t. (t.transaction_type is TransactionType.payout) ≡ false) after
    × (total_paid_out 2 after ≡ 0)
run-no_payout_example = run-no_payout sample_settings sample_gateway history first_db 2 (refl, tt)
