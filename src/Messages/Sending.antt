-- ===== src/Messages/Sending.antt =====
-- `MessageService` (backend/app/services/message_service.py): a message and the conversation's cache.
use kaasb.Common.{
  ℕ, suc, Bool, true, false, Option, none, some, List, [], ◌∷◌, ◌++◌, String, select, update_row,
  if◌then◌else◌, ◌==◌, ◌&&◌, ◌||◌, not, Text, take,
}
use kaasb.Db.{
  Db, Action, ◌>>=◌, ◌>>◌, pure, raise, modify, raise_if, find_one, new_id, ◌is◌, not_found,
  bad_request, forbidden, User, UserRole, SenderRole, Conversation, ConversationType, Message,
  SupportTicketStatus, role_coded, conversation_coded, ticket_coded,
}
use kaasb.Messages.Filter.{Patterns, FilterOutcome, process_message}

abbrev pub is_staff : User → Bool
is_staff u = u.is_superuser || u.is_support

abbrev pub role_for : User → SenderRole
role_for u =
    if is_staff u
    then SenderRole.admin
    else if u.primary_role is UserRole.freelancer
    then SenderRole.freelancer
    else SenderRole.client

abbrev pub conversation_rows : ℕ → Db → List Conversation
conversation_rows k db = select (λ c. c.id == k) db.conversations

abbrev pub or_no_conversation :
    {A : Type 0} → (Conversation → Action A) → Option Conversation → Action A
or_no_conversation f none = raise not_found
or_no_conversation f (some c) = f c

-- `_get_conversation`, and what follows it.
abbrev pub with_conversation : {A : Type 0} → ℕ → (Conversation → Action A) → Action A
with_conversation k f = find_one (conversation_rows k) >>= or_no_conversation f

abbrev pub set_conversation : ℕ → (Conversation → Conversation) → Action (Unit {0})
set_conversation k f =
    modify λ db. record db { conversations = update_row (λ c. c.id) k f db.conversations }

abbrev pub add_message : Message → Action (Unit {0})
add_message m = modify λ db. record db { messages = db.messages ++ m ∷ [] }

-- `support_status == SupportTicketStatus.RESOLVED`
abbrev pub is_resolved : Option SupportTicketStatus → Bool
is_resolved none = false
is_resolved (some t) = t is SupportTicketStatus.resolved

abbrev pub reopens : User → Conversation → Bool
reopens sender c =
    (c.conversation_type is ConversationType.support)
    && (not (is_staff sender) && is_resolved c.support_status)

abbrev pub reopen : Conversation → Conversation
reopen c = record c {
  support_status = some SupportTicketStatus.open_status;
  support_resolved_at = none;
}

abbrev pub count_message : ℕ → Text → Conversation → Conversation
count_message now content c = record c {
  last_message_text = some (take 500 content);
  last_message_at = some now;
  message_count = suc c.message_count;
}

-- Everyone but the first participant adds to the first participant's counter.
abbrev pub count_unread : Bool → Conversation → Conversation
count_unread by_one c =
    if by_one
    then record c { unread_two = suc c.unread_two }
    else record c { unread_one = suc c.unread_one }

-- The UPDATE of the row `x`, for the conversation that was read as `c`.
abbrev pub receive : ℕ → User → Text → Conversation → Conversation → Conversation
receive now sender content c x =
    let counted = count_unread (sender.id == c.participant_one_id) (count_message now content x) in
    if reopens sender c then reopen counted else counted

abbrev pub new_message : ℕ → ℕ → SenderRole → Bool → Text → List String → Conversation → Message
new_message id sender role system content attachments c = record {
  id = id;
  content = content;
  is_read = false;
  read_at = none;
  is_system = system;
  attachments = attachments;
  conversation_id = c.id;
  sender_id = sender;
  sender_role = role;
}

-- `_send_message`; the event that it publishes is delivered after the request.
unfoldable pub send_to : ℕ → User → Text → List String → Conversation → Action ℕ
send_to now sender content attachments c = do
  id ← new_id
  add_message (new_message id sender.id (role_for sender) false content attachments c)
  set_conversation c.id (receive now sender content c)
  pure id

abbrev pub receive_system : ℕ → Text → Conversation → Conversation
receive_system now content c = count_unread true (count_unread false (count_message now content c))

-- The sender is the first participant by convention.
unfoldable pub system_to : ℕ → Text → Conversation → Action ℕ
system_to now content c = do
  id ← new_id
  add_message (new_message id c.participant_one_id SenderRole.system true content [] c)
  set_conversation c.id (receive_system now content)
  pure id

unfoldable pub send_system_message : ℕ → ℕ → Text → Action ℕ
send_system_message now k content = with_conversation k (system_to now content)

abbrev pub is_participant : User → Conversation → Bool
is_participant u c = (u.id == c.participant_one_id) || (u.id == c.participant_two_id)

-- Staff may read and write in any SUPPORT or ORDER thread.
abbrev pub is_staff_override : User → Conversation → Bool
is_staff_override u c =
    is_staff u
    && ((c.conversation_type is ConversationType.support)
        || (c.conversation_type is ConversationType.order))

-- A blocked message raises, and what the filter recorded is rolled back.
abbrev pub send_filtered : ℕ → User → List String → Conversation → FilterOutcome → Action ℕ
send_filtered now sender attachments c outcome = do
  raise_if outcome.blocked bad_request
  send_to now sender outcome.content attachments c

unfoldable pub send_in : Patterns → ℕ → User → Text → List String → Conversation → Action ℕ
send_in p now sender content attachments c = do
  raise_if (not (is_participant sender c) && not (is_staff_override sender c)) forbidden
  if is_staff sender
      then send_to now sender content attachments c
      else (process_message p now sender content c.conversation_type
          >>= send_filtered now sender attachments c)

unfoldable pub send_message : Patterns → ℕ → User → ℕ → Text → List String → Action ℕ
send_message p now sender k content attachments =
    with_conversation k (send_in p now sender content attachments)
