-- ===== src/Messages/Escalation.antt =====
-- The escalation of violations over histories of requests
-- (backend/app/services/message_service.py and message_filter_service.py).
use kaasb.Common.{ℕ, ◌≡◌, refl, Option, none, some, List, [], ◌∷◌, found-All, ◌==◌, ◌&&◌, not}
use kaasb.Db.{
  Db, Action, ok, raise_if, Keeps, Keeps-raise_if, Keeps-when, Keeps-bind, Keeps-request, find-inv,
  to_list, User, UserStatus, Conversation, ConversationType, holds, job_coded, conversation_coded,
  bad_request, forbidden, user_coded, ◌is◌,
}
use kaasb.Auth.Current.{or_nobody, as_user}
use kaasb.Auth.Sessions.{users_by_id}
use kaasb.Messages.Filter.{Patterns}
use kaasb.Messages.Sending.{
  is_staff, with_conversation, set_conversation, is_participant, is_staff_override, send_message,
}
use kaasb.Messages.Threads.{
  clear_unread, read_messages, read_in, get_messages, on_ticket, claim, resolve, reopen_by_staff,
  release, claim_support_ticket, resolve_support_ticket, reopen_support_ticket, release_in,
  release_support_ticket,
}
use kaasb.Messages.Calls.{
  Call, Event, by_user, by_platform, sends, starts, contacts, reads, claims, resolves, reopens,
  releases, act, step, run,
}
use kaasb.Messages.Announcing.{Keeps-platform}
use kaasb.Messages.Openings.{Keeps-start_conversation, Keeps-contact_support}
use kaasb.Messages.Violations.{
  IsWarned, IsLenient, Keeps-others, Keeps-set_conversation, Keeps-with_conversation, Keeps-send_in,
}

Keeps-get_messages : (now : ℕ) (user : User) (k : ℕ) → Keeps IsLenient (get_messages now user k)
unfolding get_messages read_in
Keeps-get_messages now user k = Keeps-with_conversation k (read_in now user) λ c.
    Keeps-bind IsLenient
      (raise_if (not (is_participant user c) && not (is_staff_override user c)) forbidden) _
      (Keeps-raise_if IsLenient _ _)
      λ _.
        Keeps-bind IsLenient (set_conversation c.id (clear_unread user)) _
          (Keeps-set_conversation c.id (clear_unread user))
          λ _.
            Keeps-when IsLenient (is_participant user c) (read_messages now user.id c.id)
              (Keeps-others _ (λ db. refl))

Keeps-on_ticket :
    (f : Conversation → Conversation) (staff : User) (k : ℕ)
    → Keeps IsLenient (with_conversation k (on_ticket f staff))
Keeps-on_ticket f staff k = Keeps-with_conversation k (on_ticket f staff) λ c.
    Keeps-bind IsLenient
      (raise_if (not (c.conversation_type is ConversationType.support)) bad_request) _
      (Keeps-raise_if IsLenient _ _)
      λ _.
        Keeps-bind IsLenient (raise_if (not (is_staff staff)) forbidden) _
          (Keeps-raise_if IsLenient _ _) λ _. Keeps-set_conversation c.id f

Keeps-release : (staff : User) (k : ℕ) → Keeps IsLenient (release_support_ticket k staff)
unfolding release_support_ticket
Keeps-release staff k = Keeps-with_conversation k (release_in staff) λ c.
    Keeps-bind IsLenient
      (raise_if (not (c.conversation_type is ConversationType.support)) bad_request) _
      (Keeps-raise_if IsLenient _ _)
      λ _.
        Keeps-bind IsLenient (raise_if (not (holds c.support_assignee_id staff.id)) forbidden) _
          (Keeps-raise_if IsLenient _ _) λ _. Keeps-set_conversation c.id release

Keeps-as_user :
    {A : Type 0} (k : ℕ) (f : User → Action A)
    → ((u : User) → IsWarned u → Keeps IsLenient (f u))
    → Keeps IsLenient (as_user k f)
Keeps-as_user {A} k f h = record {
  keeps = λ db r e l.
      let (o, rows, rest) = find-inv (users_by_id k) (or_nobody f) db e in found db r l o rows rest;
}
  where
    found :
        (db : Db) (r : A × Db)
        → IsLenient db
        → (o : Option User) → users_by_id k db ≡ to_list o
        → or_nobody f o db ≡ ok r
        → IsLenient r.1
    found db r l none rows e = absurd (cc)
    found db r l (some u) rows e =
        (Keeps-bind IsLenient (raise_if (not (u.status is UserStatus.active)) forbidden) (λ _. f u)
            (Keeps-raise_if IsLenient _ _)
            λ _. h u (found-All IsWarned (λ x. x.id == k) u [] db.users l.users rows).0).keeps
          db r e l

module _ (p : Patterns) where
  act-IsLenient :
      (now k : ℕ) (call : Call) (db : Db) → IsLenient db → IsLenient (act p now k call db)
  unfolding send_message claim_support_ticket resolve_support_ticket reopen_support_ticket
  act-IsLenient now k (sends c content attachments) db = Keeps-request IsLenient _ db (
      Keeps-as_user k _
        λ u w. Keeps-with_conversation c _ λ x. Keeps-send_in p now u content attachments x w.0)
  act-IsLenient now k (starts recipient job order content) db =
      Keeps-request IsLenient _ db
        (Keeps-as_user k _ λ u w. Keeps-start_conversation now u job order content recipient)
  act-IsLenient now k (contacts content order) db =
      Keeps-request IsLenient _ db
        (Keeps-as_user k _ λ u w. Keeps-contact_support now u content order)
  act-IsLenient now k (reads c) db =
      Keeps-request IsLenient _ db (Keeps-as_user k _ λ u w. Keeps-get_messages now u c)
  act-IsLenient now k (claims c) db =
      Keeps-request IsLenient _ db (Keeps-as_user k _ λ u w. Keeps-on_ticket (claim u) u c)
  act-IsLenient now k (resolves c) db =
      Keeps-request IsLenient _ db (Keeps-as_user k _ λ u w. Keeps-on_ticket (resolve now u) u c)
  act-IsLenient now k (reopens c) db =
      Keeps-request IsLenient _ db (Keeps-as_user k _ λ u w. Keeps-on_ticket reopen_by_staff u c)
  act-IsLenient now k (releases c) db =
      Keeps-request IsLenient _ db (Keeps-as_user k _ λ u w. Keeps-release u c)

  step-IsLenient : (e : ℕ × Event) (db : Db) → IsLenient db → IsLenient (step p e db)
  unfolding step
  step-IsLenient (now, by_user k call) db = act-IsLenient now k call db
  step-IsLenient (now, by_platform client freelancer job order content) db =
      Keeps-request IsLenient _ db (
        Keeps-platform IsLenient (record { ignores = λ cs ms n db h l. record { users = l.users } })
          now client freelancer job order content)

  -- Through any history of requests about messages, whatever their contents are: no user is ever
  -- suspended from the chat, and no user's count of violations passes one, if this was so at first.
  -- The record of a blocked message is rolled back with it, so that each further violation counts as
  -- the second.
  pub run-IsLenient : (es : List (ℕ × Event)) (db : Db) → IsLenient db → IsLenient (run p es db)
  unfolding run
  run-IsLenient [] db l = l
  run-IsLenient (e ∷ es) db l = run-IsLenient es (step p e db) (step-IsLenient e db l)
