-- ===== src/Messages/Threads.antt =====
-- Reading a conversation and the tickets of the support (backend/app/services/message_service.py).
use kaasb.Common.{ℕ, Bool, true, Option, none, some, map, if◌then◌else◌, ◌==◌, ◌&&◌, not}
use kaasb.Db.{
  Action, ◌>>◌, modify, raise_if, when, ◌is◌, holds, bad_request, forbidden, User, Conversation,
  ConversationType, Message, SupportTicketStatus, conversation_coded,
}
use kaasb.Messages.Sending.{
  is_staff, with_conversation, set_conversation, is_participant, is_staff_override,
}

-- A participant's own counter; other staff leave both.
abbrev pub clear_unread : User → Conversation → Conversation
clear_unread u c =
    if u.id == c.participant_one_id
    then record c { unread_one = 0 }
    else if u.id == c.participant_two_id
    then record c { unread_two = 0 }
    else c

abbrev pub is_new_to : ℕ → ℕ → Message → Bool
is_new_to user k m = (m.conversation_id == k) && (not (m.sender_id == user) && not m.is_read)

abbrev pub mark_read : ℕ → Message → Message
mark_read now m = record m { is_read = true; read_at = some now }

abbrev pub read_messages : ℕ → ℕ → ℕ → Action (Unit {0})
read_messages now user k = modify λ db. record db {
  messages = map (λ m. if is_new_to user k m then mark_read now m else m) db.messages;
}

unfoldable pub read_in : ℕ → User → Conversation → Action (Unit {0})
read_in now user c = do
  raise_if (not (is_participant user c) && not (is_staff_override user c)) forbidden
  set_conversation c.id (clear_unread user)
  when (is_participant user c) (read_messages now user.id c.id)

-- The page of messages that it returns is not modelled.
unfoldable pub get_messages : ℕ → User → ℕ → Action (Unit {0})
get_messages now user k = with_conversation k (read_in now user)

-- `conversation_type != SUPPORT`, then the role.
abbrev pub on_ticket : (Conversation → Conversation) → User → Conversation → Action (Unit {0})
on_ticket f staff c = do
  raise_if (not (c.conversation_type is ConversationType.support)) bad_request
  raise_if (not (is_staff staff)) forbidden
  set_conversation c.id f

abbrev pub claim : User → Conversation → Conversation
claim staff c = record c {
  support_status = some SupportTicketStatus.in_progress;
  support_assignee_id = some staff.id;
  support_resolved_at = none;
}

-- An unclaimed ticket goes to the one who resolves it.
abbrev pub or_self : Option ℕ → ℕ → Option ℕ
or_self none k = some k
or_self (some a) k = some a

abbrev pub resolve : ℕ → User → Conversation → Conversation
resolve now staff c = record c {
  support_status = some SupportTicketStatus.resolved;
  support_resolved_at = some now;
  support_assignee_id = or_self c.support_assignee_id staff.id;
}

abbrev pub reopen_by_staff : Conversation → Conversation
reopen_by_staff c = record c {
  support_status = some SupportTicketStatus.open_status;
  support_resolved_at = none;
}

abbrev pub release : Conversation → Conversation
release c = record c { support_assignee_id = none }

unfoldable pub claim_support_ticket : ℕ → User → Action (Unit {0})
claim_support_ticket k staff = with_conversation k (on_ticket (claim staff) staff)

unfoldable pub resolve_support_ticket : ℕ → ℕ → User → Action (Unit {0})
resolve_support_ticket now k staff = with_conversation k (on_ticket (resolve now staff) staff)

unfoldable pub reopen_support_ticket : ℕ → User → Action (Unit {0})
reopen_support_ticket k staff = with_conversation k (on_ticket reopen_by_staff staff)

abbrev pub release_in : User → Conversation → Action (Unit {0})
release_in staff c = do
  raise_if (not (c.conversation_type is ConversationType.support)) bad_request
  raise_if (not (holds c.support_assignee_id staff.id)) forbidden
  set_conversation c.id release

unfoldable pub release_support_ticket : ℕ → User → Action (Unit {0})
release_support_ticket k staff = with_conversation k (release_in staff)
