-- ===== src/Messages/Starting.antt =====
-- Who may start a conversation, and the conversations that the platform opens itself
-- (backend/app/services/message_service.py).
use kaasb.Common.{
  ℕ, Bool, true, false, Option, none, some, List, [], ◌∷◌, ◌++◌, select, any, min, max, is_some,
  if◌then◌else◌, ◌==◌, ◌&&◌, ◌||◌, not, Text,
}
use kaasb.Db.{
  Db, Action, ok, err, ◌>>=◌, ◌>>◌, pure, raise, gets, raise_if, find_one, new_id, ◌is◌, holds,
  same_target, not_found, bad_request, forbidden, integrity, User, UserStatus, Job, JobStatus,
  ProposalStatus, ServiceOrder, Conversation, ConversationType, SupportTicketStatus, user_coded,
  job_coded, proposal_coded, conversation_coded,
}
use kaasb.Auth.Sessions.{users_by_id}
use kaasb.Messages.Sending.{is_staff, with_conversation, send_to, system_to}

abbrev pub job_rows : ℕ → Db → List Job
job_rows k db = select (λ j. j.id == k) db.jobs

abbrev pub order_rows_of : ℕ → Db → List ServiceOrder
order_rows_of k db = select (λ o. o.id == k) db.orders

abbrev pub has_proposal : ℕ → ℕ → Db → Bool
has_proposal job freelancer db =
    any
      (λ p.
        (p.job_id == job)
        && ((p.freelancer_id == freelancer) && not (p.status is ProposalStatus.withdrawn)))
      db.proposals

-- The pair stands on the two sides of a contract, whichever way round.
abbrev pub are_parties : ℕ → ℕ → ℕ → ℕ → Bool
are_parties a b client freelancer =
    ((client == a) && (freelancer == b)) || ((client == b) && (freelancer == a))

abbrev pub has_worked : ℕ → ℕ → Db → Bool
has_worked a b db =
    any (λ c. are_parties a b c.client_id c.freelancer_id) db.contracts
    || any (λ o. are_parties a b o.client_id o.freelancer_id) db.orders

abbrev pub differ : Bool → Bool → Bool
differ true b = not b
differ false b = b

-- Between the client of a job and a freelancer: the client may write to one who has proposed, a
-- freelancer while the job is open.
abbrev pub may_start_on : ℕ → ℕ → ℕ → Option Job → Action (Unit {0})
may_start_on sender recipient job_id none = raise not_found
may_start_on sender recipient job_id (some j) = do
  raise_if (not (differ (sender == j.client_id) (recipient == j.client_id))) forbidden
  if sender == j.client_id
      then (gets (has_proposal job_id recipient) >>= λ proposed. raise_if (not proposed) forbidden)
      else raise_if (not (j.status is JobStatus.open_status)) forbidden

abbrev pub may_start_cold : ℕ → ℕ → Option ℕ → Action (Unit {0})
may_start_cold sender recipient none =
    gets (has_worked sender recipient) >>= λ worked. raise_if (not worked) forbidden
may_start_cold sender recipient (some job) =
    find_one (job_rows job) >>= may_start_on sender recipient job

unfoldable pub can_initiate : User → User → Option ℕ → Option ℕ → Action (Unit {0})
can_initiate sender recipient job order =
    if is_staff sender || is_staff recipient || is_some order
    then pure tt
    else may_start_cold sender.id recipient.id job

-- Neither.
abbrev pub is_bare : Conversation → Bool
is_bare c = not (is_some c.job_id) && not (is_some c.order_id)

-- The context of a thread: a job, an order, or neither.
abbrev pub in_context : Option ℕ → Option ℕ → Conversation → Bool
in_context (some j) order c = holds c.job_id j
in_context none (some o) c = holds c.order_id o
in_context none none c = is_bare c

abbrev pub is_between : ℕ → ℕ → Conversation → Bool
is_between a b c = (c.participant_one_id == min a b) && (c.participant_two_id == max a b)

abbrev pub thread_rows : ℕ → ℕ → Option ℕ → Option ℕ → Db → List Conversation
thread_rows a b job order db =
    select (λ c. is_between a b c && in_context job order c) db.conversations

abbrev pub type_for : Bool → Option ℕ → ConversationType
type_for true order = ConversationType.support
type_for false (some o) = ConversationType.order
type_for false none = ConversationType.user

abbrev pub open_if : Bool → Option SupportTicketStatus
open_if true = some SupportTicketStatus.open_status
open_if false = none

abbrev pub new_conversation : ℕ → ℕ → ℕ → Bool → Option ℕ → Option ℕ → Conversation
new_conversation id a b support job order = record {
  id = id;
  participant_one_id = min a b;
  participant_two_id = max a b;
  conversation_type = type_for support order;
  job_id = job;
  order_id = order;
  last_message_text = none;
  last_message_at = none;
  message_count = 0;
  unread_one = 0;
  unread_two = 0;
  support_status = open_if support;
  support_assignee_id = none;
  support_resolved_at = none;
}

-- The partial unique indexes: one thread of a pair for each job, for each order, and without either.
abbrev pub clashes : Conversation → Conversation → Bool
clashes c d =
    (d.participant_one_id == c.participant_one_id)
    && ((d.participant_two_id == c.participant_two_id)
        && (same_target c.job_id d.job_id
            || (same_target c.order_id d.order_id || (is_bare c && is_bare d))))

abbrev pub add_conversation : Conversation → Action (Unit {0})
add_conversation c db =
    if not (any (clashes c) db.conversations)
    then ok (tt, record db { conversations = db.conversations ++ c ∷ [] })
    else err integrity

abbrev pub is_party : ServiceOrder → ℕ → Bool
is_party o k = (k == o.client_id) || (k == o.freelancer_id)

-- Only the two sides of an order may open its thread.
abbrev pub check_order : ℕ → ℕ → Option ServiceOrder → Action (Unit {0})
check_order sender recipient none = raise not_found
check_order sender recipient (some o) =
    raise_if (not (is_party o sender && is_party o recipient)) forbidden

abbrev pub check_context : ℕ → ℕ → Option ℕ → Action (Unit {0})
check_context sender recipient none = pure tt
check_context sender recipient (some o) =
    find_one (order_rows_of o) >>= check_order sender recipient

unfoldable pub open_thread : ℕ → User → User → Option ℕ → Option ℕ → Text → Action ℕ
open_thread now sender recipient job order content = do
  can_initiate sender recipient job order
  check_context sender.id recipient.id order
  id ← new_id
  let c =
      new_conversation id sender.id recipient.id (is_staff recipient || is_staff sender) job order
  add_conversation c
  send_to now sender content [] c
  pure id

-- The thread that exists takes the message at once: nothing filters it.
abbrev pub start_found :
    ℕ → User → User → Option ℕ → Option ℕ → Text → Option Conversation → Action ℕ
start_found now sender recipient job order content none =
    open_thread now sender recipient job order content
start_found now sender recipient job order content (some c) =
    send_to now sender content [] c >>= λ m. pure c.id

abbrev pub start_with : ℕ → User → Option ℕ → Option ℕ → Text → Option User → Action ℕ
start_with now sender job order content none = raise not_found
start_with now sender job order content (some recipient) =
    find_one (thread_rows sender.id recipient.id job order)
    >>= start_found now sender recipient job order content

unfoldable pub start_conversation : ℕ → User → ℕ → Option ℕ → Option ℕ → Text → Action ℕ
start_conversation now sender recipient job order content = do
  raise_if (sender.id == recipient) bad_request
  raise_if (is_some job && is_some order) bad_request
  find_one (users_by_id recipient) >>= start_with now sender job order content

-- The filter of an order or of a job; of an order alone if both are given.
abbrev pub job_unless : Option ℕ → Option ℕ → Option ℕ
job_unless none job = job
job_unless (some o) job = none

abbrev pub get_or_create : ℕ → ℕ → Option ℕ → Option ℕ → Option Conversation → Action ℕ
get_or_create client freelancer job order none = do
  id ← new_id
  add_conversation (new_conversation id client freelancer false job order)
  pure id
get_or_create client freelancer job order (some c) = pure c.id

-- The gate is bypassed: the event of the platform is the permission.
unfoldable pub get_or_create_system_conversation : ℕ → ℕ → ℕ → Option ℕ → Option ℕ → Text → Action ℕ
get_or_create_system_conversation now client freelancer job order content = do
  raise_if (client == freelancer) bad_request
  k ←
      find_one (thread_rows client freelancer (job_unless order job) order)
      >>= get_or_create client freelancer job order
  with_conversation k (system_to now content)
  pure k

abbrev pub active_admins : Db → List User
active_admins db = select (λ u. u.is_superuser && (u.status is UserStatus.active)) db.users

-- `.limit(1)`
abbrev pub first {ℓ} : {A : Type ℓ} → List A → Option A
first [] = none
first (a ∷ rest) = some a

abbrev pub contact_admin : ℕ → User → Text → Option ℕ → Option User → Action ℕ
contact_admin now user content order none = raise bad_request
contact_admin now user content order (some admin) =
    start_conversation now user admin.id none order content

unfoldable pub contact_support : ℕ → User → Text → Option ℕ → Action ℕ
contact_support now user content order = do
  raise_if (is_staff user) bad_request
  admin ← gets λ db. first (active_admins db)
  contact_admin now user content order admin
