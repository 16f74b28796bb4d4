-- ===== src/Messages/Unread.antt =====
-- The counters of conversations over histories of requests (backend/app/services/message_service.py).
use kaasb.Common.{ℕ, refl, Option, none, some, List, [], ◌∷◌, not}
use kaasb.Db.{
  Db, Action, raise_if, Keeps, Keeps-raise, Keeps-modify, Keeps-raise_if, Keeps-bind, Keeps-find,
  Keeps-request, User, Conversation, ConversationType, conversation_coded, user_coded, holds, ◌is◌,
  bad_request, forbidden, not_found,
}
use kaasb.Auth.Current.{Keeps-as_user}
use kaasb.Messages.Filter.{Patterns}
use kaasb.Messages.Sending.{
  is_staff, conversation_rows, or_no_conversation, with_conversation, set_conversation,
  send_message,
}
use kaasb.Messages.Threads.{
  read_in, get_messages, on_ticket, claim, resolve, reopen_by_staff, release, claim_support_ticket,
  resolve_support_ticket, reopen_support_ticket, release_in, release_support_ticket,
}
use kaasb.Messages.Calls.{
  Call, Event, by_user, by_platform, sends, starts, contacts, reads, claims, resolves, reopens,
  releases, act, step, run,
}
use kaasb.Messages.Counting.{IsCounted, Steady, steady-IsCounted}
use kaasb.Messages.Counters.{Keeps-in_thread, Leads-read_in}
use kaasb.Messages.Posting.{Leads-send_in}
use kaasb.Messages.Beginning.{Keeps-start, Keeps-contact, Keeps-announced}

Keeps-Steady :
    (k : ℕ) (f : Conversation → Conversation) → Steady f → Keeps IsCounted (set_conversation k f)
Keeps-Steady k f st = Keeps-modify IsCounted _ (λ db s. steady-IsCounted f st k db s)

Keeps-conversation :
    {A : Type 0} (k : ℕ) (f : Conversation → Action A)
    → ((c : Conversation) → Keeps IsCounted (f c))
    → Keeps IsCounted (with_conversation k f)
Keeps-conversation {A} k f h =
    Keeps-find IsCounted (conversation_rows k) (or_no_conversation f) found
  where
    found : (o : Option Conversation) → Keeps IsCounted (or_no_conversation f o)
    found none = Keeps-raise IsCounted not_found
    found (some c) = h c

Keeps-ticket :
    (f : Conversation → Conversation) (staff : User) (k : ℕ)
    → Steady f
    → Keeps IsCounted (with_conversation k (on_ticket f staff))
Keeps-ticket f staff k st = Keeps-conversation k (on_ticket f staff) λ c.
    Keeps-bind IsCounted
      (raise_if (not (c.conversation_type is ConversationType.support)) bad_request) _
      (Keeps-raise_if IsCounted _ _)
      λ _.
        Keeps-bind IsCounted (raise_if (not (is_staff staff)) forbidden) _
          (Keeps-raise_if IsCounted _ _) λ _. Keeps-Steady c.id f st

Keeps-released : (staff : User) (k : ℕ) → Keeps IsCounted (release_support_ticket k staff)
unfolding release_support_ticket
Keeps-released staff k = Keeps-conversation k (release_in staff) λ c.
    Keeps-bind IsCounted
      (raise_if (not (c.conversation_type is ConversationType.support)) bad_request) _
      (Keeps-raise_if IsCounted _ _)
      λ _.
        Keeps-bind IsCounted (raise_if (not (holds c.support_assignee_id staff.id)) forbidden) _
          (Keeps-raise_if IsCounted _ _)
          λ _. Keeps-Steady c.id release (record {
            steady_id = λ x. refl;
            steady_one = λ x. refl;
            steady_count = λ x. refl;
            steady_unread = λ x. refl;
          })

claim-Steady : (u : User) → Steady (claim u)
claim-Steady u = record {
  steady_id = λ x. refl;
  steady_one = λ x. refl;
  steady_count = λ x. refl;
  steady_unread = λ x. refl;
}

resolve-Steady : (now : ℕ) (u : User) → Steady (resolve now u)
resolve-Steady now u = record {
  steady_id = λ x. refl;
  steady_one = λ x. refl;
  steady_count = λ x. refl;
  steady_unread = λ x. refl;
}

reopen-Steady : Steady reopen_by_staff
reopen-Steady = record {
  steady_id = λ x. refl;
  steady_one = λ x. refl;
  steady_count = λ x. refl;
  steady_unread = λ x. refl;
}

module _ (p : Patterns) where
  act-IsCounted :
      (now k : ℕ) (call : Call) (db : Db) → IsCounted db → IsCounted (act p now k call db)
  unfolding send_message get_messages claim_support_ticket resolve_support_ticket
      reopen_support_ticket
  act-IsCounted now k (sends c content attachments) db = Keeps-request IsCounted _ db (
      Keeps-as_user IsCounted k _
        λ u. Keeps-in_thread c _ λ x. Leads-send_in x p now u content attachments)
  act-IsCounted now k (starts recipient job order content) db =
      Keeps-request IsCounted _ db
        (Keeps-as_user IsCounted k _ λ u. Keeps-start now u job order content recipient)
  act-IsCounted now k (contacts content order) db =
      Keeps-request IsCounted _ db
        (Keeps-as_user IsCounted k _ λ u. Keeps-contact now u content order)
  act-IsCounted now k (reads c) db =
      Keeps-request IsCounted _ db
        (Keeps-as_user IsCounted k _ λ u. Keeps-in_thread c (read_in now u) (Leads-read_in now u))
  act-IsCounted now k (claims c) db =
      Keeps-request IsCounted _ db
        (Keeps-as_user IsCounted k _ λ u. Keeps-ticket (claim u) u c (claim-Steady u))
  act-IsCounted now k (resolves c) db =
      Keeps-request IsCounted _ db
        (Keeps-as_user IsCounted k _ λ u. Keeps-ticket (resolve now u) u c (resolve-Steady now u))
  act-IsCounted now k (reopens c) db =
      Keeps-request IsCounted _ db
        (Keeps-as_user IsCounted k _ λ u. Keeps-ticket reopen_by_staff u c reopen-Steady)
  act-IsCounted now k (releases c) db =
      Keeps-request IsCounted _ db (Keeps-as_user IsCounted k _ λ u. Keeps-released u c)

  step-IsCounted : (e : ℕ × Event) (db : Db) → IsCounted db → IsCounted (step p e db)
  unfolding step
  step-IsCounted (now, by_user k call) db = act-IsCounted now k call db
  step-IsCounted (now, by_platform client freelancer job order content) db =
      Keeps-request IsCounted _ db (Keeps-announced now client freelancer job order content)

  -- Through any history of requests about messages: each conversation's message_count is the number of
  -- its messages, and its unread_two is the number of those of the first participant, the platform's
  -- among them, that are not read, if this was so at first, the conversations' ids are distinct, and no
  -- id is beyond the next one.
  pub run-IsCounted : (es : List (ℕ × Event)) (db : Db) → IsCounted db → IsCounted (run p es db)
  unfolding run
  run-IsCounted [] db s = s
  run-IsCounted (e ∷ es) db s = run-IsCounted es (step p e db) (step-IsCounted e db s)
