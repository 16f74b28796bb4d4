-- ===== src/Contracts/Milestones.antt =====
-- `ContractService`: adding, editing, deleting, starting and submitting milestones
-- (backend/app/services/contract_service.py).
use kaasb.Common.{
  ℕ, suc, ◌+◌, Bool, Option, none, some, List, [], ◌∷◌, ◌++◌, select, sum_of, is_some, update_row,
  max, map, if◌then◌else◌, true, false, ltb, leb, ◌==◌, ◌&&◌, ◌||◌, not, Text,
}
use kaasb.Db.{
  Db, Action, ◌>>=◌, ◌>>◌, pure, raise, gets, modify, raise_if, find_one, new_id, notify, ◌is◌,
  holds, not_found, forbidden, bad_request, integrity, type_error, ContractStatus, MilestoneStatus,
  Contract, Milestone, Transaction, NotificationType, contract_coded, milestone_coded,
}
use kaasb.Payment.Fund.{contract_rows, milestone_rows}

abbrev pub milestones_of : ℕ → Db → List Milestone
milestones_of k db = select (λ m. m.contract_id == k) db.milestones

abbrev pub or_missing : {A B : Type 0} → (A → Action B) → Option A → Action B
or_missing f none = raise not_found
or_missing f (some a) = f a

-- `_get_contract`, and what follows it.
abbrev pub with_contract : {A : Type 0} → ℕ → (Contract → Action A) → Action A
with_contract k f = find_one (contract_rows k) >>= or_missing f

-- `_get_milestone` with its contract; a foreign key makes the contract exist.
abbrev pub with_milestone : {A : Type 0} → ℕ → (Milestone → Contract → Action A) → Action A
with_milestone k f =
    find_one (milestone_rows k) >>= or_missing λ m. with_contract m.contract_id (f m)

abbrev pub set_milestone : ℕ → (Milestone → Milestone) → Action (Unit {0})
set_milestone k f = modify λ db. record db { milestones = update_row (λ m. m.id) k f db.milestones }

abbrev pub set_contract : ℕ → (Contract → Contract) → Action (Unit {0})
set_contract k f = modify λ db. record db { contracts = update_row (λ c. c.id) k f db.contracts }

-- The amount and the order of a `MilestoneCreate`.
pub record MilestoneCreate : Type 0 where
  pub amount : ℕ
  pub order : ℕ

abbrev pub new_milestone : ℕ → ℕ → ℕ → MilestoneCreate → Milestone
new_milestone id contract order form = record {
  id = id;
  contract_id = contract;
  order = if ltb 0 form.order then form.order else order;
  amount = form.amount;
  status = MilestoneStatus.pending;
  submitted_at = none;
  approved_at = none;
  paid_at = none;
  submission_note = none;
  feedback = none;
}

-- The insert checks `ck_milestone_amount_positive`.
abbrev pub add_milestone : Milestone → Action (Unit {0})
add_milestone m db =
    if ltb 0 m.amount
    then pure tt (record db { milestones = db.milestones ++ m ∷ [] })
    else raise integrity db

-- `next` is `max_order + 1 + i`.
unfoldable pub insert_milestones : ℕ → ℕ → List MilestoneCreate → Action (Unit {0})
insert_milestones contract next [] = pure tt
insert_milestones contract next (d ∷ ds) = do
  id ← new_id
  add_milestone (new_milestone id contract next d)
  insert_milestones contract (suc next) ds

-- `max_order + 1`, where no milestone gives -1.
abbrev pub next_order : List Milestone → ℕ
next_order [] = 0
next_order (m ∷ ms) = max (suc m.order) (next_order ms)

abbrev pub milestone_total : ℕ → Db → ℕ
milestone_total k db = sum_of (λ m. m.amount) (milestones_of k db)

abbrev pub is_empty {ℓ} : {A : Type ℓ} → List A → Bool
is_empty [] = true
is_empty (x ∷ xs) = false

-- The sum of the stored amounts is a `Decimal` where there is one, that of the new amounts a float:
-- their sum then raises `TypeError`. The `sum` of nothing is the integer 0.
abbrev pub is_mixed_total : ℕ → List MilestoneCreate → Db → Bool
is_mixed_total k form db = not (is_empty (milestones_of k db)) && not (is_empty form)

unfoldable pub add_checked : ℕ → List MilestoneCreate → Contract → Action ℕ
add_checked client form c = do
  raise_if (not (c.client_id == client)) forbidden
  raise_if (not (c.status is ContractStatus.active)) bad_request
  existing ← gets (milestone_total c.id)
  mixed ← gets (is_mixed_total c.id form)
  raise_if mixed type_error
  raise_if (ltb c.total_amount (existing + sum_of (λ d. d.amount) form)) bad_request
  next ← gets λ db. next_order (milestones_of c.id db)
  insert_milestones c.id next form
  pure c.id

unfoldable pub add_milestones : ℕ → ℕ → List MilestoneCreate → Action ℕ
add_milestones client k form = with_contract k (add_checked client form)

-- A `MilestoneUpdate`: the amount and the order if they are set, and whether any text or date is.
pub record MilestoneUpdate : Type 0 where
  pub amount : Option ℕ
  pub order : Option ℕ
  pub has_others : Bool

-- The bounds that the schema puts on the amount and the order.
abbrev pub is_within : ℕ → ℕ → Option ℕ → Bool
is_within low high none = true
is_within low high (some x) = leb low x && leb x high

abbrev pub is_milestone_update : MilestoneUpdate → Bool
is_milestone_update form = is_within 10_000 1_000_000_000 form.amount && is_within 0 100 form.order

abbrev pub is_set : MilestoneUpdate → Bool
is_set form = is_some form.amount || (is_some form.order || form.has_others)

abbrev or_old : Option ℕ → ℕ → ℕ
or_old none old = old
or_old (some x) old = x

abbrev pub edit : MilestoneUpdate → Milestone → Milestone
edit form m = record m { amount = or_old form.amount m.amount; order = or_old form.order m.order }

unfoldable pub update_checked : ℕ → MilestoneUpdate → Milestone → Contract → Action ℕ
update_checked client form m c = do
  raise_if (not (c.client_id == client)) forbidden
  raise_if (not (m.status is MilestoneStatus.pending)) bad_request
  raise_if (not (is_set form)) bad_request
  raise_if (not (ltb 0 (edit form m).amount)) integrity
  set_milestone m.id (edit form)
  pure m.id

unfoldable pub update_milestone : ℕ → ℕ → MilestoneUpdate → Action ℕ
update_milestone client k form = with_milestone k (update_checked client form)

-- The foreign keys: the milestone's escrows go with it, its transactions lose it.
abbrev pub unlink : ℕ → Transaction → Transaction
unlink k t = if holds t.milestone_id k then record t { milestone_id = none } else t

abbrev pub delete_row : ℕ → Db → Db
delete_row k db = record db {
  milestones = select (λ m. not (m.id == k)) db.milestones;
  escrows = select (λ e. not (holds e.milestone_id k)) db.escrows;
  transactions = map (unlink k) db.transactions;
}

unfoldable pub delete_checked : ℕ → Milestone → Contract → Action (Unit {0})
delete_checked client m c = do
  raise_if (not (c.client_id == client)) forbidden
  raise_if (not (m.status is MilestoneStatus.pending)) bad_request
  modify (delete_row m.id)

unfoldable pub delete_milestone : ℕ → ℕ → Action (Unit {0})
delete_milestone client k = with_milestone k (delete_checked client)

unfoldable pub start_checked : ℕ → Milestone → Contract → Action ℕ
start_checked freelancer m c = do
  raise_if (not (c.status is ContractStatus.active)) bad_request
  raise_if (not (c.freelancer_id == freelancer)) forbidden
  raise_if (not (m.status is MilestoneStatus.pending)) bad_request
  set_milestone m.id λ x. record x { status = MilestoneStatus.in_progress }
  pure m.id

unfoldable pub start_milestone : ℕ → ℕ → Action ℕ
start_milestone freelancer k = with_milestone k (start_checked freelancer)

abbrev pub is_submittable : MilestoneStatus → Bool
is_submittable s = (s is MilestoneStatus.in_progress) || (s is MilestoneStatus.revision_requested)

unfoldable pub submit_checked : ℕ → ℕ → Option Text → Milestone → Contract → Action ℕ
submit_checked now freelancer remark m c = do
  raise_if (not (c.status is ContractStatus.active)) bad_request
  raise_if (not (c.freelancer_id == freelancer)) forbidden
  raise_if (not (is_submittable m.status)) bad_request
  set_milestone m.id λ x. record x {
    status = MilestoneStatus.submitted;
    submitted_at = some now;
    submission_note = remark;
    feedback = none;
  }
  notify c.client_id NotificationType.milestone_submitted
  pure m.id

unfoldable pub submit_milestone : ℕ → ℕ → ℕ → Option Text → Action ℕ
submit_milestone now freelancer k remark = with_milestone k (submit_checked now freelancer remark)
