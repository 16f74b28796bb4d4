-- ===== src/Messages/Bypass.antt =====
-- The two ways to write to a thread, and the first way to the support
-- (backend/app/services/message_service.py).
use kaasb.Common.{
  ℕ, zero, suc, ◌≤◌, ◌≡◌, refl, ap, ◌∙◌, Bool, Bool-cases, inl, inr, true, false, Option, none,
  some, List, [], ◌∷◌, ◌++◌, String, is_some, ◌==◌, ◌&&◌, Text, arith,
}
use kaasb.Db.{
  Db, ok, err, pure, ◌>>=◌, ◌>>◌, find_one-run, bind-run, bind-fails, raise_if-run, to_list,
  bad_request, forbidden, User, ServiceOrder, Conversation, ConversationType, ViolationType,
  conversation_coded, ◌is◌,
}
use kaasb.Auth.Tokens.{set_user}
use kaasb.Auth.Login.{is_after}
use kaasb.Auth.Sessions.{users_by_id}
use kaasb.Messages.Filter.{
  Patterns, set_violations, detect_violations, judge, escalate, process_message,
}
use kaasb.Messages.Sending.{
  is_staff, conversation_rows, or_no_conversation, is_participant, send_filtered, send_in,
  send_message, send_to, new_message, role_for,
}
use kaasb.Messages.Starting.{
  thread_rows, start_conversation, start_with, start_found, open_thread, can_initiate,
  check_context, check_order, order_rows_of, is_party, active_admins, first, contact_admin,
  contact_support,
}

module _ (p : Patterns) (now : ℕ) (sender : User) (content : Text) (attachments : List String)
    (c : Conversation) (db : Db) where
  escalate-refused :
      (skip_urls : Bool) (vtype : ViolationType) (detected : Text) (n : ℕ)
      → 1 ≤ n
      → ((set_user sender.id (set_violations (suc n))
              >> escalate p now sender content skip_urls vtype detected (suc n))
            >>= send_filtered now sender attachments c)
          db
        ≡ err bad_request
  unfolding escalate
  escalate-refused skip_urls vtype detected zero h = absurd (omega arith)
  escalate-refused skip_urls vtype detected (suc zero) h = refl
  escalate-refused skip_urls vtype detected (suc (suc n)) h =
      let one : (suc (suc (suc n)) == 1) ≡ false = ground (arith) in
      let two : (suc (suc (suc n)) == 2) ≡ false = ground (arith) in rw (one, two) refl

  filter-refused :
      (v : ViolationType × Text) (vs : List (ViolationType × Text))
      → 1 ≤ sender.chat_violations
      → detect_violations p (c.conversation_type is ConversationType.order) content ≡ v ∷ vs
      → (process_message p now sender content c.conversation_type
            >>= send_filtered now sender attachments c)
          db
        ≡ err bad_request
  unfolding process_message
  filter-refused v vs h e = elim (Bool-cases (is_after now sender.chat_suspended_until)) [
    | inl y ↦ rw y refl
    | inr n ↦ rw n (
        ap
          (λ xs.
            (judge p now sender content (c.conversation_type is ConversationType.order) xs
                >>= send_filtered now sender attachments c)
              db)
          e
        ∙ escalate-refused _ v.0 v.1 sender.chat_violations h)
  ]

  send_message-refused :
      (v : ViolationType × Text) (vs : List (ViolationType × Text))
      → is_staff sender ≡ false
      → 1 ≤ sender.chat_violations
      → detect_violations p (c.conversation_type is ConversationType.order) content ≡ v ∷ vs
      → is_participant sender c ≡ true
      → conversation_rows c.id db ≡ c ∷ []
      → send_message p now sender c.id content attachments db ≡ err bad_request
  unfolding send_message send_in
  send_message-refused v vs plain h e part row =
      find_one-run (conversation_rows c.id)
        (or_no_conversation (send_in p now sender content attachments)) db (some c) row
      ∙ rw (part, plain) (filter-refused v vs h e)

module _ (now : ℕ) (sender : User) (content : Text) (db : Db) where
  sent-run :
      (c : Conversation)
      → (db' : Db) × ((send_to now sender content [] c >>= λ m. pure c.id) db ≡ ok (c.id, db'))
        × (db'.messages
            ≡ db.messages
              ++ new_message db.next_id sender.id (role_for sender) false content [] c ∷ [])
  unfolding send_to
  sent-run c = (_, refl, refl)

  start_conversation-run :
      (recipient : User) (job order : Option ℕ) (o : Option Conversation)
      → (sender.id == recipient.id) ≡ false
      → (is_some job && is_some order) ≡ false
      → users_by_id recipient.id db ≡ recipient ∷ []
      → thread_rows sender.id recipient.id job order db ≡ to_list o
      → start_conversation now sender recipient.id job order content db
        ≡ start_found now sender recipient job order content o db
  unfolding start_conversation
  start_conversation-run recipient job order o other one row thread =
      raise_if-run (sender.id == recipient.id) bad_request _ db other
      ∙ raise_if-run (is_some job && is_some order) bad_request _ db one
      ∙ find_one-run (users_by_id recipient.id) (start_with now sender job order content) db
          (some recipient) row
      ∙ find_one-run (thread_rows sender.id recipient.id job order)
          (start_found now sender recipient job order content) db o thread

-- A user who is not staff and has a violation already: a message in which the filter finds another
-- one is refused by `send_message`, and nothing of it is kept; but `start_conversation` on the same
-- thread delivers it as it is. The ids have one row each and the thread is the only one of its pair
-- and context.
pub start_conversation-unfiltered :
    (p : Patterns) (now : ℕ) (sender recipient : User) (job order : Option ℕ) (content : Text)
    (attachments : List String) (c : Conversation) (v : ViolationType × Text)
    (vs : List (ViolationType × Text)) (db : Db)
    → is_staff sender ≡ false
    → 1 ≤ sender.chat_violations
    → detect_violations p (c.conversation_type is ConversationType.order) content ≡ v ∷ vs
    → is_participant sender c ≡ true
    → conversation_rows c.id db ≡ c ∷ []
    → (sender.id == recipient.id) ≡ false
    → (is_some job && is_some order) ≡ false
    → users_by_id recipient.id db ≡ recipient ∷ []
    → thread_rows sender.id recipient.id job order db ≡ c ∷ []
    → (send_message p now sender c.id content attachments db ≡ err bad_request)
      × ((db' : Db) × (start_conversation now sender recipient.id job order content db
            ≡ ok (c.id, db'))
          × (db'.messages
              ≡ db.messages
                ++ new_message db.next_id sender.id (role_for sender) false content [] c ∷ []))
start_conversation-unfiltered p now sender recipient job order content attachments c v vs db plain h
      found part row other one user thread =
    let (db', runs, kept) = sent-run now sender content db c in
    (
      send_message-refused p now sender content attachments c db v vs plain h found part row,
      (
        db',
        start_conversation-run now sender content db recipient job order (some c) other one user
              thread
            ∙ runs,
        kept,
      ),
    )

-- A client or freelancer who contacts the support about an order is refused, whatever the message:
-- the admin who is chosen is no party of the order, and there is no thread of the two about it yet.
-- The ids have one row each.
pub contact_support-forbidden :
    (now : ℕ) (user admin : User) (content : Text) (order : ServiceOrder) (db : Db)
    → is_staff user ≡ false
    → first (active_admins db) ≡ some admin
    → is_staff admin ≡ true
    → (user.id == admin.id) ≡ false
    → users_by_id admin.id db ≡ admin ∷ []
    → thread_rows user.id admin.id none (some order.id) db ≡ []
    → order_rows_of order.id db ≡ order ∷ []
    → is_party order admin.id ≡ false
    → contact_support now user content (some order.id) db ≡ err forbidden
unfolding contact_support open_thread can_initiate
contact_support-forbidden now user admin content order db plain chosen staff other row fresh one
      outside =
    let allowed : can_initiate user admin none (some order.id) db ≡ ok (tt, db) =
      rw (plain, staff) refl in
    let refused : check_context user.id admin.id (some order.id) db ≡ err forbidden =
      find_one-run (order_rows_of order.id) (check_order user.id admin.id) db (some order) one
      ∙ refused_outside in
    raise_if-run (is_staff user) bad_request _ db plain
    ∙ ap (λ o. contact_admin now user content (some order.id) o db) chosen
    ∙ start_conversation-run now user content db admin none (some order.id) none other refl row
        fresh
    ∙ bind-run (can_initiate user admin none (some order.id)) _ db allowed
    ∙ bind-fails (check_context user.id admin.id (some order.id)) _ db refused
  where
    refused_outside : check_order user.id admin.id (some order) db ≡ err forbidden
    refused_outside = elim (Bool-cases (is_party order user.id)) [
      | inl y ↦ rw (y, outside) refl
      | inr n ↦ rw n refl
    ]
