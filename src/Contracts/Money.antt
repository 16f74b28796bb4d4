-- ===== src/Contracts/Money.antt =====
-- What the operations on milestones mean for the money (backend/app/services/contract_service.py).
use kaasb.Common.{
  ◌⊎◌, inl, inr, ◌&&◌, false, ℕ, suc, ◌+◌, ◌≤◌, ◌≡◌, refl, sym, ap, subst, ◌∙◌, some, List, [], ◌∷◌,
  ◌++◌, select, select-append, sum_of, sum_of-append, found-test, not, ltb, ◌==◌, ==_refl, ==→eq,
  arith,
}
use kaasb.Db.{
  Milestone, Db, Action, ok, ◌>>=◌, ◌>>◌, pure, gets, raise_if, find_one-run, bind-inv,
  raise_if-inv, ◌is◌, forbidden, bad_request, type_error, contract_coded, milestone_coded,
  escrow_coded, ContractStatus, Contract,
}
use kaasb.Payment.Fund.{contract_rows}
use kaasb.Contracts.Milestones.{
  is_empty, milestones_of, or_missing, MilestoneCreate, new_milestone, add_milestone,
  insert_milestones, next_order, milestone_total, is_mixed_total, add_checked, add_milestones,
}

-- One more milestone of the contract adds its amount.
add_milestone-total :
    (k n id : ℕ) (form : MilestoneCreate) (db db' : Db) (u : Unit {0})
    → add_milestone (new_milestone id k n form) db ≡ ok (u, db')
    → milestone_total k db' ≡ milestone_total k db + form.amount
add_milestone-total k n id form db db' u h =
    let m = new_milestone id k n form in
    let added : db'.milestones ≡ db.milestones ++ m ∷ [] = ground arith in
    let mine : select (λ x. x.contract_id == k) (m ∷ []) ≡ m ∷ [] = rw (==_refl k) refl in
    omega (
      arith,
      ap (λ ms. sum_of (λ x. x.amount) (select (λ x. x.contract_id == k) ms)) added,
      ap (sum_of (λ x. x.amount)) (select-append (λ x. x.contract_id == k) db.milestones (m ∷ [])),
      sum_of-append (λ x. x.amount) (select (λ x. x.contract_id == k) db.milestones)
          (select (λ x. x.contract_id == k) (m ∷ [])),
      ap (sum_of (λ x. x.amount)) mine,
    )

insert_milestones-total :
    (k n : ℕ) (forms : List MilestoneCreate) (db db' : Db) (u : Unit {0})
    → insert_milestones k n forms db ≡ ok (u, db')
    → milestone_total k db' ≡ milestone_total k db + sum_of (λ f. f.amount) forms
unfolding insert_milestones
insert_milestones-total k n [] db db' u h =
    let same : db ≡ db' = cc in omega (arith, ap (milestone_total k) same)
insert_milestones-total k n (f ∷ fs) db db' u h =
    let db0 : Db = record db { next_id = suc db.next_id } in
    let (v, db1, added, h') =
      bind-inv (add_milestone (new_milestone db.next_id k n f))
        (λ _. insert_milestones k (suc n) fs) db0 h in
    omega (
      arith,
      add_milestone-total k n db.next_id f db0 db1 v added,
      insert_milestones-total k (suc n) fs db1 db' u h',
    )

one_empty :
    (ms : List Milestone) (forms : List MilestoneCreate)
    → (not (is_empty ms) && not (is_empty forms)) ≡ false
    → (ms ≡ []) ⊎ (forms ≡ [])
one_empty [] forms h = inl refl
one_empty (m ∷ ms) [] h = inr refl
one_empty (m ∷ ms) (f ∷ fs) h = absurd (cc h)

add_checked-total :
    (client k : ℕ) (forms : List MilestoneCreate) (c : Contract) (db : Db) {r : ℕ × Db}
    → c.id ≡ k
    → add_checked client forms c db ≡ ok r
    → ((milestones_of k db ≡ []) ⊎ (forms ≡ [])) × (milestone_total k r.1 ≤ c.total_amount)
unfolding add_checked
add_checked-total client k forms c db {r} same h =
    let over = ltb c.total_amount (milestone_total c.id db + sum_of (λ f. f.amount) forms) in
    let next = next_order (milestones_of c.id db) in
    let tail : Action ℕ = gets (λ d. next_order (milestones_of c.id d)) >>= λ n.
    insert_milestones c.id n forms >> pure c.id in
    let mixed = is_mixed_total c.id forms db in
    let check : Action ℕ = gets (milestone_total c.id) >>= λ existing.
    gets (is_mixed_total c.id forms) >>= λ both.
    raise_if both type_error
    >> (raise_if (ltb c.total_amount (existing + sum_of (λ f. f.amount) forms)) bad_request
        >> tail) in
    let (_, h1) =
      raise_if-inv (not (c.client_id == client)) forbidden
        (raise_if (not (c.status is ContractStatus.active)) bad_request >> check) db h in
    let (_, h2) = raise_if-inv (not (c.status is ContractStatus.active)) bad_request check db h1 in
    let (apart, h2b) = raise_if-inv mixed type_error (raise_if over bad_request >> tail) db h2 in
    let (within, h3) = raise_if-inv over bad_request tail db h2b in
    let (u, db1, done, h4) = bind-inv (insert_milestones c.id next forms) (λ _. pure c.id) db h3 in
    let after : db1 ≡ r.1 = cc in
    let total = insert_milestones-total c.id next forms db db1 u done in
    let bound : milestone_total c.id db1 ≤ c.total_amount = ground (arith, total, within) in
    (
      subst (λ i. (milestones_of i db ≡ []) ⊎ (forms ≡ [])) same
          (one_empty (milestones_of c.id db) forms apart),
      subst (λ d. milestone_total k d ≤ c.total_amount) after
          (subst (λ i. milestone_total i db1 ≤ c.total_amount) same bound),
    )

-- Where milestones were added to a contract, it had none before, unless none were added, and the
-- amounts of all its milestones together are at most the contract's amount.
pub add_milestones-within :
    (client k : ℕ) (forms : List MilestoneCreate) (c : Contract) (db : Db) {r : ℕ × Db}
    → contract_rows k db ≡ c ∷ []
    → add_milestones client k forms db ≡ ok r
    → ((milestones_of k db ≡ []) ⊎ (forms ≡ [])) × (milestone_total k r.1 ≤ c.total_amount)
unfolding add_milestones
add_milestones-within client k forms c db {r} found h =
    let run =
      find_one-run (contract_rows k) (or_missing (add_checked client forms)) db (some c) found in
    add_checked-total client k forms c db
      (==→eq c.id k (found-test (λ x. x.id == k) c [] db.contracts found)) (sym run ∙ h)
