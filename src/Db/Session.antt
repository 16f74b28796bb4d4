-- ===== src/Db/Session.antt =====
-- A request's session (backend/app/core/database.py, `get_db`): a service method reads and writes
-- the tables, and a raised exception rolls back all that the request wrote.
use kaasb.Common.{
  ℕ, suc, ◌≡◌, refl, Bool, true, false, Option, none, some, List, [], ◌∷◌, ◌++◌, ◌&&◌, ◌||◌, not,
  if◌then◌else◌, ◌==◌, ltb, leb, any, is_some, update_row,
}
use kaasb.Db.Status.{EscrowStatus, PayoutApprovalStatus, ◌is◌, escrow_coded, approval_coded}
use kaasb.Db.Rows.{
  holds, PaymentAccount, Transaction, Escrow, Milestone, Contract, Job, User, Service, ServiceOrder,
  ServiceOrderDelivery, Dispute, PayoutApproval, AdminAuditLog, Notification, NotificationType,
  Proposal, RefreshToken, PhoneOtp, Conversation, Message, ViolationLog,
}

-- The tables, and the next unused id: a fresh `uuid4` is one that no row has.
-- `used_reset_jtis` are the keys `used_reset_jti:…` of Redis, each of which outlives its token.
pub record Db : Type 0 where
  pub accounts : List PaymentAccount
  pub transactions : List Transaction
  pub escrows : List Escrow
  pub milestones : List Milestone
  pub contracts : List Contract
  pub jobs : List Job
  pub proposals : List Proposal
  pub users : List User
  pub refresh_tokens : List RefreshToken
  pub phone_otps : List PhoneOtp
  pub used_reset_jtis : List ℕ
  pub conversations : List Conversation
  pub messages : List Message
  pub violation_logs : List ViolationLog
  pub services : List Service
  pub orders : List ServiceOrder
  pub deliveries : List ServiceOrderDelivery
  pub disputes : List Dispute
  pub approvals : List PayoutApproval
  pub audit : List AdminAuditLog
  pub notifications : List Notification
  pub next_id : ℕ

-- The exceptions of backend/app/core/exceptions.py that the services raise, with SQLAlchemy's
-- `IntegrityError` and `MultipleResultsFound`, the `HTTPException`s of the authentication by their
-- status, the `ValueError` of `uuid.UUID`,
-- the `TypeError` of an operator on a `Decimal` and a `float`, and the 422 of a body that a schema
-- refuses.
pub data Error : Type 0 where
  not_found bad_request forbidden conflict external_service integrity multiple_results : Error
  unauthorized too_many_requests service_unavailable value_error type_error validation_error : Error

pub data Result (A : Type 0) : Type 0 where
  ok : A → Result A
  err : Error → Result A

abbrev pub Action : Type 0 → Type 0
Action A = Db → Result (A × Db)

infixl 5 ◌>>=◌ ◌>>◌
abbrev pub ◌>>=◌ : {A B : Type 0} → Action A → (A → Action B) → Action B
◌>>=◌ m f db = elim (m db) [ ok (a, db') ↦ f a db' | err e ↦ err e ]

abbrev pub ◌>>◌ : {A B : Type 0} → Action A → Action B → Action B
m >> k = m >>= λ _. k

module _ {A : Type 0} where
  abbrev pub pure : A → Action A
  pure a db = ok (a, db)

  abbrev pub raise : Error → Action A
  raise e db = err e

  abbrev pub gets : (Db → A) → Action A
  gets f db = ok (f db, db)

  -- `if not row: raise e`
  abbrev pub or_raise : Option A → Error → Action A
  or_raise none e = raise e
  or_raise (some a) e = pure a

-- `result.scalar_one_or_none()` raises `MultipleResultsFound` on two rows or more.
abbrev pub one_or_none : {A : Type 0} → List A → Action (Option A)
one_or_none [] = pure none
one_or_none (a ∷ []) = pure (some a)
one_or_none (a ∷ b ∷ rest) = raise multiple_results

-- `if test: raise e`
abbrev pub raise_if : Bool → Error → Action (Unit {0})
raise_if true e = raise e
raise_if false e = pure tt

abbrev pub modify : (Db → Db) → Action (Unit {0})
modify f db = ok (tt, f db)

abbrev pub when : Bool → Action (Unit {0}) → Action (Unit {0})
when true m = m
when false m = pure tt

-- A fresh id.
abbrev pub new_id : Action ℕ
new_id db = ok (db.next_id, record db { next_id = suc db.next_id })

-- The request's end: an exception leaves the tables as they were.
abbrev pub request : {A : Type 0} → Action A → Db → Db
request m db = elim (m db) [ ok (a, db') ↦ db' | err e ↦ db ]

result-keeps :
    {A : Type 0} (P : Db → Type 0) (x : Result (A × Db)) (db : Db)
    → ((r : A × Db) → x ≡ ok r → P r.1)
    → P db
    → P (request (λ _. x) db)
result-keeps P (ok r) db h p = h r refl
result-keeps P (err e) db h p = p

-- What a request that returned leaves true, and held before, holds after any request.
pub request-keeps :
    {A : Type 0} (P : Db → Type 0) (m : Action A) (db : Db)
    → ((r : A × Db) → m db ≡ ok r → P db → P r.1)
    → P db
    → P (request m db)
request-keeps P m db h p = result-keeps P (m db) db (λ r e. h r e p) p

-- A write to the rows that have this id.
abbrev pub update_escrow : ℕ → (Escrow → Escrow) → List Escrow → List Escrow
update_escrow = update_row λ e. e.id

abbrev pub update_transaction :
    ℕ → (Transaction → Transaction) → List Transaction → List Transaction
update_transaction = update_row λ t. t.id

abbrev pub set_escrow : ℕ → (Escrow → Escrow) → Action (Unit {0})
set_escrow k f = modify λ db. record db { escrows = update_escrow k f db.escrows }

abbrev pub set_transaction : ℕ → (Transaction → Transaction) → Action (Unit {0})
set_transaction k f =
    modify λ db. record db { transactions = update_transaction k f db.transactions }

-- Inserts check the constraints of the table (`__table_args__`) at the flush.
abbrev pub transaction_checks : Transaction → Bool
transaction_checks t = ltb 0 t.amount && ltb 0 t.net_amount

abbrev pub add_transaction : Transaction → Action (Unit {0})
add_transaction t db =
    if transaction_checks t
    then ok (tt, record db { transactions = db.transactions ++ t ∷ [] })
    else err integrity

-- An escrow that counts for the partial unique indexes `uq_escrow_milestone_active` and
-- `uq_escrow_gig_order_active`.
abbrev pub is_active : Escrow → Bool
is_active e = (e.status is EscrowStatus.pending) || (e.status is EscrowStatus.funded)

abbrev pub same_target : Option ℕ → Option ℕ → Bool
same_target none k = false
same_target (some j) k = holds k j

abbrev pub escrow_checks : Escrow → List Escrow → Bool
escrow_checks e es =
    ltb 0 e.amount
    && (ltb 0 e.freelancer_amount
        && (leb e.freelancer_amount e.amount
            && (not ((e.status is EscrowStatus.disputed) && is_some e.release_transaction_id)
                && (not (any (λ f. is_active f && same_target e.milestone_id f.milestone_id) es)
                    && not (
                        any (λ f. is_active f && same_target e.service_order_id f.service_order_id)
                          es)))))

abbrev pub add_escrow : Escrow → Action (Unit {0})
add_escrow e db =
    if escrow_checks e db.escrows
    then ok (tt, record db { escrows = db.escrows ++ e ∷ [] })
    else err integrity

-- `except IntegrityError: raise ConflictError`
abbrev pub or_conflict : {A : Type 0} → Action A → Action A
or_conflict m db = elim (m db) [
  | ok r ↦ ok r
  | err e ↦ elim e [ integrity ↦ err conflict | other ↦ err other ]
]

-- A query whose result goes to `scalar_one_or_none`.
abbrev pub find_one : {A : Type 0} → (Db → List A) → Action (Option A)
find_one q db = one_or_none (q db) db

-- `notify`: the row of the notification; the delivery over mail and WebSocket is not modelled.
abbrev pub notify : ℕ → NotificationType → Action (Unit {0})
notify u k =
    modify
      λ db. record db { notifications = db.notifications ++ record { user_id = u; kind = k } ∷ [] }

abbrev pub audit_log : AdminAuditLog → Action (Unit {0})
audit_log entry = modify λ db. record db { audit = db.audit ++ entry ∷ [] }

-- The UPDATE of an approval, and its insert under the check and `uq_payout_approvals_escrow_active`.
abbrev pub set_approval : ℕ → (PayoutApproval → PayoutApproval) → Action (Unit {0})
set_approval k f = modify λ db. record db { approvals = update_row (λ a. a.id) k f db.approvals }

abbrev pub approval_checks : PayoutApproval → List PayoutApproval → Bool
approval_checks a rows =
    ltb 0 a.amount
    && not
        (any (λ b. (b.escrow_id == a.escrow_id) && (b.status is PayoutApprovalStatus.pending)) rows)

abbrev pub add_approval : PayoutApproval → Action (Unit {0})
add_approval a db =
    if approval_checks a db.approvals
    then ok (tt, record db { approvals = db.approvals ++ a ∷ [] })
    else err integrity
