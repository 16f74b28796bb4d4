-- ===== src/Contracts/Edits.antt =====
-- What editing and deleting a milestone can do to its money, and the milestone that is APPROVED (backend/app/services/contract_service.py).
use kaasb.Common.{
  map, sum_of, cons-head, sym, ◌≤◌, ℕ, ◌<◌, ◌≡◌, refl, ap, subst, ◌∙◌, Bool, Bool-cases, inl, inr,
  true, false, Option, none, some, List, [], ◌∷◌, select, select-none, select-update_row, All,
  found-test, update_row, not, ltb, ◌==◌, ==_refl, ==→eq, arith, Text,
}
use kaasb.Db.{
  escrow_ref, ExternalRef, Transaction, TransactionStatus, transaction_coded, Db, Action, Error, ok,
  err, ◌>>=◌, raise_if, find_one-run, raise_if-run, ◌is◌, holds, forbidden, bad_request, integrity,
  contract_coded, milestone_coded, escrow_coded, ContractStatus, MilestoneStatus, Contract,
  Milestone, Escrow, PaymentProvider,
}
use kaasb.Payment.Settings.{Settings, Gateway}
use kaasb.Payment.Fund.{
  contract_rows, milestone_rows, fund_escrow, fund_milestone, fund_contract, fund_checked,
  active_rows, is_fundable,
}
use kaasb.Payment.Confirm.{funding_rows, is_funding_of}
use kaasb.Contracts.Milestones.{
  is_milestone_update, is_set, milestone_total, unlink, or_missing, with_contract, with_milestone,
  MilestoneUpdate, edit, update_checked, update_milestone, delete_row, delete_checked,
  delete_milestone, is_submittable, submit_checked, submit_milestone,
}
use kaasb.Contracts.Review.{ReviewAction, review_checked, review_milestone}

with_milestone-run :
    {A : Type 0} (k : ℕ) (f : Milestone → Contract → Action A) (m : Milestone) (c : Contract)
    (db : Db)
    → milestone_rows k db ≡ m ∷ []
    → contract_rows m.contract_id db ≡ c ∷ []
    → with_milestone k f db ≡ f m c db
with_milestone-run k f m c db found owner =
    find_one-run (milestone_rows k) (or_missing (λ x. with_contract x.contract_id (f x))) db
      (some m) found
    ∙ find_one-run (contract_rows m.contract_id) (or_missing (f m)) db (some c) owner

-- A row that a query finds weighs no more than the rows of another query that it passes.
found-le :
    (r p : Milestone → Bool) (w : Milestone → ℕ) (a : Milestone) (rest xs : List Milestone)
    → select r xs ≡ a ∷ rest
    → p a ≡ true
    → w a ≤ sum_of w (select p xs)
found-le r p w a rest [] e h = absurd (cc)
found-le r p w a rest (x ∷ xs) e h = elim (Bool-cases (r x)) [
  | inl hit ↦
      let same : x ≡ a = cons-head (rw hit at e) in
      let passes : p x ≡ true = subst (λ y. p y ≡ true) (sym same) h in
      subst (λ y. w y ≤ sum_of w (select p (x ∷ xs))) same (rw passes (omega arith))
  | inr miss ↦
      let later = found-le r p w a rest xs (rw miss at e) h in
      elim (Bool-cases (p x)) [
        | inl passes ↦ rw passes (omega (arith, later))
        | inr fails ↦ rw fails later
      ]
]

-- Editing a PENDING milestone, by the client, with amounts and orders within the schema's bounds,
-- succeeds with an amount above the whole contract's: the contract's milestones together then
-- exceed it.
pub update_milestone-exceeds :
    (client k amount : ℕ) (form : MilestoneUpdate) (m : Milestone) (c : Contract) (db : Db)
    → milestone_rows k db ≡ m ∷ []
    → contract_rows m.contract_id db ≡ c ∷ []
    → c.client_id ≡ client
    → (m.status is MilestoneStatus.pending) ≡ true
    → is_milestone_update form ≡ true
    → form.amount ≡ some amount
    → c.total_amount < amount
    → (db' : Db) × (update_milestone client k form db ≡ ok (m.id, db'))
      × (c.total_amount < milestone_total c.id db')
unfolding update_milestone update_checked
update_milestone-exceeds client k amount form m c db found owner mine pending within sets above =
    let db' : Db = record db {
      milestones = update_row (λ x. x.id) m.id (edit form) db.milestones;
    } in
    let f = update_checked client form in
    let is_mine : (c.client_id == client) ≡ true = ground (arith, mine) in
    let new : (edit form m).amount ≡ amount = rw sets refl in
    let is_new : is_set form ≡ true = rw sets refl in
    let is_positive : ltb 0 (edit form m).amount ≡ true = ground (arith, new, above) in
    let row : milestone_rows k db' ≡ edit form m ∷ [] =
      select-update_row (λ x. x.id) (λ x. x.id == k) m.id (edit form) (λ _. refl) db.milestones
      ∙ ap (update_row (λ x. x.id) m.id (edit form)) found
      ∙ rw (==_refl m.id) refl in
    let of_contract =
      ==→eq c.id m.contract_id (found-test (λ x. x.id == m.contract_id) c [] db.contracts owner) in
    let belongs : (m.contract_id == c.id) ≡ true = ground (arith, of_contract) in
    let le =
      found-le (λ x. x.id == k) (λ x. x.contract_id == c.id) (λ x. x.amount) (edit form m) []
        db'.milestones row belongs in
    (
      db',
      with_milestone-run k f m c db found owner
          ∙ rw is_mine (
              rw pending (
                rw is_new (
                  raise_if-run (not (ltb 0 (edit form m).amount)) integrity _ db
                    (ap not is_positive)))),
      omega (arith, le, new, above),
    )

deleted-All :
    (k : ℕ) (es : List Escrow)
    → All (λ e. holds e.milestone_id k ≡ false) (select (λ e. not (holds e.milestone_id k)) es)
deleted-All k [] = tt
deleted-All k (e ∷ es) = elim (Bool-cases (holds e.milestone_id k)) [
  | inl hit ↦ rw hit (deleted-All k es)
  | inr miss ↦ rw miss (miss, deleted-All k es)
]

unlinked-rows :
    (k : ℕ) (ref : ExternalRef) (ts : List Transaction)
    → select (is_funding_of ref) (map (unlink k) ts)
      ≡ map (unlink k) (select (is_funding_of ref) ts)
unlinked-rows k ref [] = refl
unlinked-rows k ref (t ∷ ts) = ground (arith, unlinked-rows k ref ts)

unlink-own :
    (k : ℕ) (t : Transaction)
    → t.milestone_id ≡ some k
    → unlink k t ≡ record t { milestone_id = none }
unlink-own k t for = rw for (rw (==_refl k) refl)

-- Deleting a PENDING milestone, by the client, succeeds while the milestone has an active escrow
-- whose payment is on record: every escrow of the milestone goes, and of the client's payment only
-- the transaction is left, as it was but for its milestone.
pub delete_milestone-loses :
    (client k : ℕ) (m : Milestone) (c : Contract) (e : Escrow) (t : Transaction) (db : Db)
    → milestone_rows k db ≡ m ∷ []
    → contract_rows m.contract_id db ≡ c ∷ []
    → c.client_id ≡ client
    → (m.status is MilestoneStatus.pending) ≡ true
    → active_rows k db ≡ e ∷ []
    → funding_rows (escrow_ref k) db ≡ t ∷ []
    → t.milestone_id ≡ some k
    → (t.status is TransactionStatus.completed) ≡ true
    → (db' : Db) × (delete_milestone client k db ≡ ok (tt, db'))
      × (select (λ x. holds x.milestone_id k) db'.escrows ≡ [])
      × (funding_rows (escrow_ref k) db' ≡ record t { milestone_id = none } ∷ [])
unfolding delete_milestone delete_checked
delete_milestone-loses client k m c e t db found owner mine pending active paid for done =
    let at_k = ==→eq m.id k (found-test (λ x. x.id == k) m [] db.milestones found) in
    let is_mine : (c.client_id == client) ≡ true = ground (arith, mine) in
    let p : Escrow → Bool = λ x. holds x.milestone_id k in
    let run : delete_milestone client k db ≡ ok (tt, delete_row k db) =
      with_milestone-run k (delete_checked client) m c db found owner
      ∙ rw is_mine (rw pending (ap (λ i. ok (tt, delete_row i db)) at_k)) in
    (
      delete_row k db,
      run,
      select-none p (select (λ x. not (p x)) db.escrows) (deleted-All k db.escrows),
      unlinked-rows k (escrow_ref k) db.transactions
          ∙ ap (map (unlink k)) paid
          ∙ ap (λ x. x ∷ []) (unlink-own k t for),
    )

-- A guard, then what is refused anyway.
refused-after :
    {B : Type 0} (b : Bool) (x : Error) (next : Action B) (db : Db)
    → (e : Error) × (next db ≡ err e)
    → (e : Error) × ((raise_if b x >>= λ _. next) db ≡ err e)
refused-after true x next db h = (x, refl)
refused-after false x next db h = h

refused-by :
    {B : Type 0} (b : Bool) (x : Error) (next : Action B) (db : Db)
    → b ≡ true
    → (e : Error) × ((raise_if b x >>= λ _. next) db ≡ err e)
refused-by b x next db h = (x, ap (λ t. (raise_if t x >>= λ _. next) db) h)

module _ (m : Milestone) (c : Contract) (approved : m.status ≡ MilestoneStatus.approved) where
  review-refused :
      (now client : ℕ) (action : ReviewAction) (feedback : Option Text) (db : Db)
      → (e : Error) × (review_checked now client action feedback m c db ≡ err e)
  unfolding review_checked
  review-refused now client action feedback db =
      refused-after (not (c.status is ContractStatus.active)) bad_request _ db (
        refused-after (not (c.client_id == client)) forbidden _ db (
          refused-by (not (m.status is MilestoneStatus.submitted)) bad_request _ db
            (rw approved refl)))

  fund-refused :
      (s : Settings) (g : Gateway) (client : ℕ) (provider : PaymentProvider) (db : Db)
      → (e : Error) × (fund_checked s g client provider m c db ≡ err e)
  unfolding fund_checked
  fund-refused s g client provider db =
      refused-after (not (c.client_id == client)) forbidden _ db
        (refused-by (not (is_fundable m.status)) bad_request _ db (rw approved refl))

  submit-refused :
      (now freelancer : ℕ) (remark : Option Text) (db : Db)
      → (e : Error) × (submit_checked now freelancer remark m c db ≡ err e)
  unfolding submit_checked
  submit-refused now freelancer remark db =
      refused-after (not (c.status is ContractStatus.active)) bad_request _ db (
        refused-after (not (c.freelancer_id == freelancer)) forbidden _ db
          (refused-by (not (is_submittable m.status)) bad_request _ db (rw approved refl)))

-- A milestone that is APPROVED, whether it has a funded escrow or not, can neither be funded, nor
-- submitted, nor reviewed again, whoever asks.
pub approved-stuck :
    (s : Settings) (g : Gateway) (now user k : ℕ) (provider : PaymentProvider)
    (action : ReviewAction) (text : Option Text) (m : Milestone) (c : Contract) (db : Db)
    → milestone_rows k db ≡ m ∷ []
    → contract_rows m.contract_id db ≡ c ∷ []
    → m.status ≡ MilestoneStatus.approved
    → ((e : Error) × (fund_escrow s g user k provider db ≡ err e))
      × ((e : Error) × (submit_milestone now user k text db ≡ err e))
      × ((e : Error) × (review_milestone now user k action text db ≡ err e))
unfolding fund_escrow submit_milestone review_milestone
approved-stuck s g now user k provider action text m c db found owner approved =
    let (e, funds) = fund-refused m c approved s g user provider db in
    let (e', submits) = submit-refused m c approved now user text db in
    let (e2, reviews) = review-refused m c approved now user action text db in
    (
      (
        e,
        find_one-run (milestone_rows k) (fund_milestone s g user provider) db (some m) found
            ∙ find_one-run (contract_rows m.contract_id) (fund_contract s g user provider m) db
                (some c) owner
            ∙ funds,
      ),
      (e', with_milestone-run k (submit_checked now user text) m c db found owner ∙ submits),
      (e2, with_milestone-run k (review_checked now user action text) m c db found owner ∙ reviews),
    )
