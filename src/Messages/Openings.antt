-- ===== src/Messages/Openings.antt =====
-- The start of a conversation (backend/app/services/message_service.py), for the invariant of
-- Messages/Violations.
use kaasb.Common.{ℕ, Option, none, some, [], ◌==◌, ◌&&◌, ◌||◌, not, Text, any, is_some}
use kaasb.Db.{
  gets, raise_if, new_id, Keeps, Keeps-pure, Keeps-gets, Keeps-raise, Keeps-raise_if, Keeps-bind,
  Keeps-find, Keeps-checked, User, Conversation, job_coded, conversation_coded, bad_request,
  not_found, integrity, user_coded,
}
use kaasb.Auth.Sessions.{users_by_id}
use kaasb.Messages.Sending.{is_staff, send_to}
use kaasb.Messages.Starting.{
  can_initiate, thread_rows, new_conversation, clashes, add_conversation, check_context,
  open_thread, start_found, start_with, start_conversation, active_admins, first, contact_admin,
  contact_support,
}
use kaasb.Messages.Gates.{Keeps-can_initiate, Keeps-check_context}
use kaasb.Messages.Violations.{IsLenient, Keeps-new_id, Keeps-send_to}

Keeps-add_conversation : (c : Conversation) → Keeps IsLenient (add_conversation c)
Keeps-add_conversation c =
    Keeps-checked IsLenient (λ db. not (any (clashes c) db.conversations)) _ integrity
      (λ db l. record { users = l.users })

module _ (now : ℕ) (sender : User) (job order : Option ℕ) (content : Text) where
  Keeps-open_thread :
      (recipient : User) → Keeps IsLenient (open_thread now sender recipient job order content)
  unfolding open_thread
  Keeps-open_thread recipient =
      Keeps-bind IsLenient (can_initiate sender recipient job order) _
        (Keeps-can_initiate IsLenient sender recipient job order)
        λ _.
          Keeps-bind IsLenient (check_context sender.id recipient.id order) _
            (Keeps-check_context IsLenient sender.id recipient.id order)
            λ _. Keeps-bind IsLenient new_id _ Keeps-new_id λ id.
              let c =
                new_conversation id sender.id recipient.id (is_staff recipient || is_staff sender)
                  job order in
              Keeps-bind IsLenient (add_conversation c) _ (Keeps-add_conversation c) λ _.
                Keeps-bind IsLenient (send_to now sender content [] c) _
                  (Keeps-send_to now sender content [] c) λ _. Keeps-pure IsLenient id

  Keeps-start_found :
      (recipient : User) (o : Option Conversation)
      → Keeps IsLenient (start_found now sender recipient job order content o)
  Keeps-start_found recipient none = Keeps-open_thread recipient
  Keeps-start_found recipient (some c) =
      Keeps-bind IsLenient (send_to now sender content [] c) _
        (Keeps-send_to now sender content [] c) λ m. Keeps-pure IsLenient c.id

  Keeps-start_with : (o : Option User) → Keeps IsLenient (start_with now sender job order content o)
  Keeps-start_with none = Keeps-raise IsLenient not_found
  Keeps-start_with (some recipient) =
      Keeps-find IsLenient (thread_rows sender.id recipient.id job order)
        (start_found now sender recipient job order content) (Keeps-start_found recipient)

  pub Keeps-start_conversation :
      (recipient : ℕ) → Keeps IsLenient (start_conversation now sender recipient job order content)
  unfolding start_conversation
  Keeps-start_conversation recipient =
      Keeps-bind IsLenient (raise_if (sender.id == recipient) bad_request) _
        (Keeps-raise_if IsLenient _ _)
        λ _.
          Keeps-bind IsLenient (raise_if (is_some job && is_some order) bad_request) _
            (Keeps-raise_if IsLenient _ _)
            λ _.
              Keeps-find IsLenient (users_by_id recipient) (start_with now sender job order content)
                Keeps-start_with

pub Keeps-contact_support :
    (now : ℕ) (user : User) (content : Text) (order : Option ℕ)
    → Keeps IsLenient (contact_support now user content order)
unfolding contact_support
Keeps-contact_support now user content order =
    Keeps-bind IsLenient (raise_if (is_staff user) bad_request) _ (Keeps-raise_if IsLenient _ _)
      λ _.
        Keeps-bind IsLenient (gets λ db. first (active_admins db)) _ (Keeps-gets IsLenient _)
          λ o. found o
  where
    found : (o : Option User) → Keeps IsLenient (contact_admin now user content order o)
    found none = Keeps-raise IsLenient bad_request
    found (some admin) = Keeps-start_conversation now user none order content admin.id
