-- ===== src/Payment/Opening.antt =====
-- What `fund_escrow` leaves (backend/app/services/payment_service.py), and whether the gateway's
-- redirect can confirm it.
use kaasb.Common.{
  ℕ, suc, ◌≡◌, ap, ◌∙◌, String, false, Option, none, some, [], ◌∷◌, ◌++◌, select-append, select,
  subst, found-test, ==→eq, ◌==◌, arith,
}
use kaasb.Db.{
  Db, ok, or_conflict, to_list, find-inv, or_raise-inv, PaymentProvider, Milestone, Contract,
  ExternalRef, escrow_ref, external_service,
}
use kaasb.Payment.Settings.{Settings, Gateway}
use kaasb.Payment.Fees.{Fees, calculate_fees, whole_iqd}
use kaasb.Payment.Fund.{
  open_escrow, fund_escrow, fund_through, fund_checked, active_rows, milestone_rows, contract_rows,
  fund_milestone, fund_contract, gateway_ref, funding_transaction, pending_escrow,
}
use kaasb.Payment.Confirm.{
  funding_rows, is_funding_of, confirm_qi_card_payment, handle_qi_card_payment_failed, pending_rows,
  is_pending_of,
}
use kaasb.Payment.Callbacks.{confirm-none, failed-none}

-- The two rows that a successful funding appends, and nothing else of the ledger changes.
pub record Opened (fees : Fees) (client : ℕ) (contract : Contract) (milestone : ℕ)
    (provider : PaymentProvider) (ref : ExternalRef) (db : Db) (r : ℕ × Db) : Type 0 where
  pub transactions :
      r.1.transactions
      ≡ db.transactions
        ++ funding_transaction db.next_id fees client contract milestone provider ref ∷ []
  pub escrows :
      r.1.escrows
      ≡ db.escrows ++ pending_escrow (suc db.next_id) fees client contract milestone ∷ []
  pub id : r.0 ≡ suc db.next_id
  pub next_id : r.1.next_id ≡ suc (suc db.next_id)

open_escrow-Opened :
    (fees : Fees) (client : ℕ) (contract : Contract) (milestone : ℕ) (provider : PaymentProvider)
    (ref : ExternalRef) (db : Db) {r : ℕ × Db}
    → or_conflict (open_escrow fees client contract milestone provider ref) db ≡ ok r
    → Opened fees client contract milestone provider ref db r
open_escrow-Opened fees client contract milestone provider ref db {r} h = record {
  transactions = ground arith;
  escrows = ground arith;
  id = ground arith;
  next_id = ground arith;
}

fund_through-inv :
    (s : Settings) (g : Gateway) (client : ℕ) (provider : PaymentProvider) (m : Milestone)
    (c : Contract) (db : Db) {r : ℕ × Db}
    → fund_through s g client provider m c db ≡ ok r
    → (op : ℕ) × Opened
        (calculate_fees s.platform_fee_percent m.amount)
        client
        c
        m.id
        provider
        (gateway_ref provider op (escrow_ref m.id))
        db
        r
unfolding fund_through
fund_through-inv s g client provider m c db h =
    let ours = escrow_ref m.id in
    let fees = calculate_fees s.platform_fee_percent m.amount in
    let (op, eo, h') =
      or_raise-inv (g.create_payment provider (whole_iqd fees.amount) ours) external_service
        (λ op. or_conflict (open_escrow fees client c m.id provider (gateway_ref provider op ours)))
        db h in
    (op, open_escrow-Opened fees client c m.id provider (gateway_ref provider op ours) db h')

fund_checked-inv :
    (s : Settings) (g : Gateway) (client : ℕ) (provider : PaymentProvider) (m : Milestone)
    (c : Contract) (db : Db) {r : ℕ × Db}
    → fund_checked s g client provider m c db ≡ ok r
    → (client ≡ c.client_id)
      × (active_rows m.id db ≡ [])
      × (fund_through s g client provider m c db ≡ ok r)
unfolding fund_checked
fund_checked-inv s g client provider m c db h = (ground arith, ground arith, ground arith)

-- A successful `fund_escrow`: the milestone and its contract, which the client owns; no escrow of
-- the milestone was active, the gateway answered, and the two rows are in place.
pub record Funding (s : Settings) (client k : ℕ) (provider : PaymentProvider) (db : Db) (r : ℕ × Db)
    : Type 0 where
  pub milestone : Milestone
  pub contract : Contract
  pub operation_id : ℕ
  pub fresh : active_rows k db ≡ []
  pub owned : client ≡ contract.client_id
  pub opened :
      Opened
        (calculate_fees s.platform_fee_percent milestone.amount)
        client
        contract
        k
        provider
        (gateway_ref provider operation_id (escrow_ref k))
        db
        r

module _ (s : Settings) (g : Gateway) (client : ℕ) (provider : PaymentProvider) (db : Db) where
  checked-Funding :
      (m : Milestone) (c : Contract) {r : ℕ × Db}
      → fund_checked s g client provider m c db ≡ ok r
      → Funding s client m.id provider db r
  checked-Funding m c h =
      let (own, fresh, h') = fund_checked-inv s g client provider m c db h in
      let (op, opened) = fund_through-inv s g client provider m c db h' in
      record {
        milestone = m;
        contract = c;
        operation_id = op;
        fresh = fresh;
        owned = own;
        opened = opened;
      }

  contract-Funding :
      (m : Milestone) (c : Option Contract) {r : ℕ × Db}
      → fund_contract s g client provider m c db ≡ ok r
      → Funding s client m.id provider db r
  contract-Funding m none h = absurd (cc)
  contract-Funding m (some c) h = checked-Funding m c h

  milestone-Funding :
      (k : ℕ) (m : Option Milestone) {r : ℕ × Db}
      → milestone_rows k db ≡ to_list m
      → fund_milestone s g client provider m db ≡ ok r
      → Funding s client k provider db r
  milestone-Funding k none e h = absurd (cc)
  milestone-Funding k (some m) {r} e h =
      let same : m.id ≡ k = ==→eq m.id k (found-test (λ n. n.id == k) m [] db.milestones e) in
      let (c, _, h') =
        find-inv (contract_rows m.contract_id) (fund_contract s g client provider m) db h in
      subst (λ j. Funding s client j provider db r) same (contract-Funding m c h')

  pub fund_escrow-Funding :
      (k : ℕ) {r : ℕ × Db}
      → fund_escrow s g client k provider db ≡ ok r
      → Funding s client k provider db r
  unfolding fund_escrow
  fund_escrow-Funding k h =
      let (m, e, h') = find-inv (milestone_rows k) (fund_milestone s g client provider) db h in
      milestone-Funding k m e h'

-- The redirects that look for a funding see the new row behind the old ones.
funding_rows-Opened :
    {fees : Fees} {client : ℕ} {c : Contract} {k : ℕ} {provider : PaymentProvider}
    {ref : ExternalRef} {db : Db} {r : ℕ × Db}
    → Opened fees client c k provider ref db r
    → (ref' : ExternalRef)
    → funding_rows ref' r.1
      ≡ funding_rows ref' db
        ++ select
            (is_funding_of ref')
            (funding_transaction db.next_id fees client c k provider ref ∷ [])
funding_rows-Opened {db} o ref' =
    ap (select (is_funding_of ref')) o.transactions
    ∙ select-append (is_funding_of ref') db.transactions _

pending_rows-Opened :
    {fees : Fees} {client : ℕ} {c : Contract} {k : ℕ} {provider : PaymentProvider}
    {ref : ExternalRef} {db : Db} {r : ℕ × Db}
    → Opened fees client c k provider ref db r
    → (ref' : ExternalRef)
    → pending_rows ref' r.1
      ≡ pending_rows ref' db
        ++ select
            (is_pending_of ref')
            (funding_transaction db.next_id fees client c k provider ref ∷ [])
pending_rows-Opened {db} o ref' =
    ap (select (is_pending_of ref')) o.transactions
    ∙ select-append (is_pending_of ref') db.transactions _

-- A payment through Zain Cash is never confirmed, and never marked as failed, by any redirect under
-- a reference that no older Qi Card funding carries.
pub zain_cash_unconfirmed :
    (s : Settings) (g : Gateway) (client k now : ℕ) (ref : ExternalRef) (sig : String) (db : Db)
    {r : ℕ × Db}
    → funding_rows ref db ≡ []
    → pending_rows ref db ≡ []
    → fund_escrow s g client k PaymentProvider.zain_cash db ≡ ok r
    → (confirm_qi_card_payment s now ref sig r.1 ≡ ok (false, r.1))
      × (handle_qi_card_payment_failed s ref sig r.1 ≡ ok (false, r.1))
zain_cash_unconfirmed s g client k now ref sig db {r} e p h =
    let f = fund_escrow-Funding s g client PaymentProvider.zain_cash db k h in
    (
      confirm-none s now ref sig r.1 (funding_rows-Opened f.opened ref ∙ rw e (ground arith)),
      failed-none s ref sig r.1 (pending_rows-Opened f.opened ref ∙ rw p (ground arith)),
    )
