-- ===== src/Messages/Tests.antt =====
-- Runs of the messages at concrete inputs, and each theorem at an input that meets its hypotheses.
use kaasb.Common.{
  ℕ, ◌≡◌, refl, true, false, none, some, List, [], ◌∷◌, any, select, map, length, if◌then◌else◌,
  ◌==◌, not, Text, arith,
}
use kaasb.Db.{
  Db, ok, err, User, UserRole, Conversation, ConversationType, ViolationType, ServiceOrder,
  ServiceOrderStatus, pos, bad_request, forbidden,
}
use kaasb.Auth.Samples.{sample_user, users_db}
use kaasb.Messages.Filter.{Patterns, detect_violations, mask_content, process_message, escalate}
use kaasb.Messages.Sending.{
  send_to, system_to, send_system_message, send_in, send_message, new_message, role_for,
}
use kaasb.Messages.Starting.{
  can_initiate, open_thread, start_conversation, get_or_create_system_conversation, contact_support,
}
use kaasb.Messages.Threads.{
  read_in, get_messages, claim_support_ticket, resolve_support_ticket, reopen_support_ticket,
  release_support_ticket,
}
use kaasb.Messages.Calls.{Event, by_user, sends, reads, step, run}
use kaasb.Messages.Violations.{IsLenient}
use kaasb.Messages.Escalation.{run-IsLenient}
use kaasb.Messages.Counting.{IsCounted}
use kaasb.Messages.Unread.{run-IsCounted}
use kaasb.Messages.Bypass.{start_conversation-unfiltered, contact_support-forbidden}

abbrev runs : Unit {0}
unfolding detect_violations mask_content process_message escalate send_to system_to
    send_system_message send_in send_message can_initiate open_thread start_conversation
    get_or_create_system_conversation contact_support read_in get_messages claim_support_ticket
    resolve_support_ticket reopen_support_ticket release_support_ticket step run
runs = tt

-- A text with an @ is an address.
abbrev sample_patterns : Patterns
sample_patterns = record {
  normalize = λ t. t;
  emails = λ t. if any (λ c. c == 64) t then t ∷ [] else [];
  phones_iraqi = λ t. [];
  phones_intl = λ t. [];
  urls = λ t. [];
  external_apps = λ t. [];
  without_emails = λ t. select (λ c. not (c == 64)) t;
  without_phones_iraqi = λ t. t;
  without_phones_intl = λ t. t;
  without_urls = λ allowed t. t;
  without_apps = λ t. t;
  host = λ t. t;
}

abbrev address : Text
address = 97 ∷ 64 ∷ 98 ∷ []

abbrev warned : User
warned = record sample_user { chat_violations = 1 }

abbrev other : User
other = record sample_user { id = 2; primary_role = UserRole.freelancer }

abbrev admin : User
admin = record sample_user { id = 3; is_superuser = true }

abbrev thread : Conversation
thread = record {
  id = 50;
  participant_one_id = 1;
  participant_two_id = 2;
  conversation_type = ConversationType.user;
  job_id = none;
  order_id = none;
  last_message_text = none;
  last_message_at = none;
  message_count = 0;
  unread_one = 0;
  unread_two = 0;
  support_status = none;
  support_assignee_id = none;
  support_resolved_at = none;
}

abbrev chat_db : User → Db
chat_db u = record users_db { users = u ∷ other ∷ admin ∷ []; conversations = thread ∷ [] }

-- One clean message, three with an address, and the other user reads them.
abbrev chat : List (ℕ × Event)
chat =
    (1, by_user 1 (sends 50 (104 ∷ []) []))
    ∷ (2, by_user 1 (sends 50 address []))
    ∷ (3, by_user 1 (sends 50 address []))
    ∷ (4, by_user 1 (sends 50 address []))
    ∷ (5, by_user 2 (reads 50))
    ∷ []

states :
    let db = run sample_patterns chat (chat_db sample_user) in
    (length db.messages ≡ 2)
    × (map (λ u. u.chat_violations) db.users ≡ 1 ∷ 0 ∷ 0 ∷ [])
    × (length db.violation_logs ≡ 1)
    × (map (λ c. c.unread_two) db.conversations ≡ 0 ∷ [])
unfolding runs
states = (refl, refl, refl, refl)

run-IsLenient_example : IsLenient (run sample_patterns chat (chat_db sample_user))
run-IsLenient_example =
    run-IsLenient sample_patterns chat (chat_db sample_user)
      (record { users = ((omega arith, refl), ((omega arith, refl), ((omega arith, refl), tt))) })

run-IsCounted_example : IsCounted (run sample_patterns chat (chat_db sample_user))
run-IsCounted_example = run-IsCounted sample_patterns chat (chat_db sample_user) (record {
  threads = (tt, tt);
  known = (omega arith, tt);
  posted = tt;
  counts = ((refl, refl), tt);
})

start_conversation-unfiltered_example :
    (send_message sample_patterns 7 warned 50 address [] (chat_db warned) ≡ err bad_request)
    × ((db' : Db) × (start_conversation 7 warned 2 none none address (chat_db warned)
          ≡ ok (50, db'))
        × (db'.messages ≡ new_message 100 1 (role_for warned) false address [] thread ∷ []))
unfolding runs
start_conversation-unfiltered_example =
    start_conversation-unfiltered sample_patterns 7 warned other none none address [] thread
      (ViolationType.email, address) [] (chat_db warned) refl (omega arith) refl refl refl refl refl
      refl refl

abbrev sample_order : ServiceOrder
sample_order = record {
  id = 60;
  created_at = 1;
  service_id = 61;
  package_id = 62;
  client_id = 1;
  freelancer_id = 2;
  status = ServiceOrderStatus.in_progress;
  requirement_answers = none;
  requirements_submitted_at = none;
  price_paid = 1_000;
  delivery_days = 3;
  revisions_remaining = pos 1;
  due_date = none;
  delivered_at = none;
  completed_at = none;
  cancelled_by = none;
  dispute_reason = none;
  dispute_opened_at = none;
  dispute_opened_by = none;
  dispute_resolved_at = none;
  dispute_resolution = none;
}

contact_support-forbidden_example :
    contact_support 7 sample_user address
      (some 60)
      (record (chat_db sample_user) { orders = sample_order ∷ [] })
    ≡ err forbidden
contact_support-forbidden_example =
    contact_support-forbidden 7 sample_user admin address sample_order
      (record (chat_db sample_user) { orders = sample_order ∷ [] }) refl refl refl refl refl refl
      refl refl
