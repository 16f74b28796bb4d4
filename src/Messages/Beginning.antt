-- ===== src/Messages/Beginning.antt =====
-- The start of a conversation (backend/app/services/message_service.py), for the counters.
use kaasb.Common.{
  ℕ, suc, ◌<◌, ◌≢◌, refl, Bool, false, Option, none, some, [], any, All, All-imp, is_some, ◌==◌,
  ◌&&◌, ◌||◌, not, Text, arith,
}
use kaasb.Db.{
  Db, pure, gets, ◌>>=◌, raise_if, find_one, new_id, Keeps, Keeps-pure, Keeps-gets, Keeps-raise,
  Keeps-raise_if, Keeps-bind, Keeps-find, Leads, Leads-kept, Leads-ok, Leads-bind, Leads-checked,
  Leads-find, Keeps-led, User, Conversation, conversation_coded, user_coded, bad_request, not_found,
  integrity,
}
use kaasb.Auth.Sessions.{users_by_id}
use kaasb.Messages.Sending.{is_staff, with_conversation, send_to, system_to}
use kaasb.Messages.Starting.{
  thread_rows, is_between, in_context, new_conversation, clashes, add_conversation, can_initiate,
  check_context, open_thread, start_found, start_with, start_conversation, get_or_create,
  get_or_create_system_conversation, job_unless, active_admins, first, contact_admin,
  contact_support,
}
use kaasb.Messages.Gates.{Keeps-can_initiate, Keeps-check_context}
use kaasb.Messages.Counting.{IsCounted, HasThread, open-HasThread}
use kaasb.Messages.Counters.{
  found-HasThread, next-IsCounted, Leads-send_to, Leads-system_to, Keeps-in_thread,
}

-- The new thread's id is nobody's.
record IsFresh (id : ℕ) (db : Db) : Type 0 where
  counted : IsCounted db
  low : id < db.next_id
  no_thread : All (λ x. x.id ≢ id) db.conversations
  no_message : All (λ m. m.conversation_id ≢ id) db.messages

Leads-new_id : Leads IsCounted new_id IsFresh
Leads-new_id =
    Leads-ok IsCounted new_id (λ db. (db.next_id, record db { next_id = suc db.next_id })) IsFresh
      (λ db. refl)
      λ db s. record {
        counted = next-IsCounted db s;
        low = omega arith;
        no_thread =
            All-imp (λ x. x.id < db.next_id) (λ x. x.id ≢ db.next_id)
              (λ x l e. absurd (omega (arith, l, e))) db.conversations s.known;
        no_message =
            All-imp (λ m. m.conversation_id < db.next_id) (λ m. m.conversation_id ≢ db.next_id)
              (λ m l e. absurd (omega (arith, l, e))) db.messages s.posted;
      }

Leads-add_conversation :
    (id a b : ℕ) (support : Bool) (job order : Option ℕ)
    → Leads
        (IsFresh id)
        (add_conversation (new_conversation id a b support job order))
        (λ _. HasThread (new_conversation id a b support job order))
Leads-add_conversation id a b support job order =
    let c = new_conversation id a b support job order in
    Leads-checked (IsFresh id) (λ db. not (any (clashes c) db.conversations)) _ integrity
      (HasThread c) λ db f. open-HasThread c db f.low f.no_thread f.no_message refl refl f.counted

module _ (now : ℕ) (u : User) (job order : Option ℕ) (content : Text) where
  Keeps-open : (v : User) → Keeps IsCounted (open_thread now u v job order content)
  unfolding open_thread
  Keeps-open v =
      Keeps-bind IsCounted (can_initiate u v job order) _
        (Keeps-can_initiate IsCounted u v job order)
        λ _.
          Keeps-bind IsCounted (check_context u.id v.id order) _
            (Keeps-check_context IsCounted u.id v.id order)
            λ _. Keeps-led IsCounted _ (
              Leads-bind IsCounted new_id _ IsFresh (λ _. IsCounted) Leads-new_id
                λ id.
                  Leads-bind (IsFresh id)
                    (add_conversation
                      (new_conversation id u.id v.id (is_staff v || is_staff u) job order))
                    _
                    (λ _.
                      HasThread
                        (new_conversation id u.id v.id (is_staff v || is_staff u) job order))
                    (λ _. IsCounted)
                    (Leads-add_conversation id u.id v.id (is_staff v || is_staff u) job order)
                    λ _.
                      Leads-bind
                        (HasThread
                          (new_conversation id u.id v.id (is_staff v || is_staff u) job order))
                        (send_to now u content []
                          (new_conversation id u.id v.id (is_staff v || is_staff u) job order))
                        (λ _. pure id) (λ _. IsCounted) (λ _. IsCounted)
                        (Leads-send_to now u content [] _)
                        λ _. Leads-kept IsCounted (pure id) (Keeps-pure IsCounted id))

  Keeps-start_with : (o : Option User) → Keeps IsCounted (start_with now u job order content o)
  Keeps-start_with none = Keeps-raise IsCounted not_found
  Keeps-start_with (some v) = Keeps-led IsCounted _ (
      Leads-find IsCounted (thread_rows u.id v.id job order) (start_found now u v job order content)
        (λ _. IsCounted) (Leads-kept IsCounted _ (Keeps-open v))
        λ c. record {
          leads = λ db r e t.
              (Leads-bind (HasThread c) (send_to now u content [] c) (λ m. pure c.id)
                  (λ _. IsCounted) (λ _. IsCounted) (Leads-send_to now u content [] c)
                  λ m. Leads-kept IsCounted (pure c.id) (Keeps-pure IsCounted c.id)).leads
                db r e
                (found-HasThread (λ x. is_between u.id v.id x && in_context job order x) c db t.0
                  t.1);
        })

  pub Keeps-start : (v : ℕ) → Keeps IsCounted (start_conversation now u v job order content)
  unfolding start_conversation
  Keeps-start v =
      Keeps-bind IsCounted (raise_if (u.id == v) bad_request) _ (Keeps-raise_if IsCounted _ _) λ _.
        Keeps-bind IsCounted (raise_if (is_some job && is_some order) bad_request) _
          (Keeps-raise_if IsCounted _ _)
          λ _.
            Keeps-find IsCounted (users_by_id v) (start_with now u job order content)
              Keeps-start_with

pub Keeps-contact :
    (now : ℕ) (u : User) (content : Text) (order : Option ℕ)
    → Keeps IsCounted (contact_support now u content order)
unfolding contact_support
Keeps-contact now u content order =
    Keeps-bind IsCounted (raise_if (is_staff u) bad_request) _ (Keeps-raise_if IsCounted _ _) λ _.
      Keeps-bind IsCounted (gets λ db. first (active_admins db)) _ (Keeps-gets IsCounted _) found
  where
    found : (o : Option User) → Keeps IsCounted (contact_admin now u content order o)
    found none = Keeps-raise IsCounted bad_request
    found (some admin) = Keeps-start now u none order content admin.id

Keeps-created :
    (a b : ℕ) (job order : Option ℕ) (o : Option Conversation)
    → Keeps IsCounted (get_or_create a b job order o)
Keeps-created a b job order none = Keeps-led IsCounted _ (
    Leads-bind IsCounted new_id _ IsFresh (λ _. IsCounted) Leads-new_id
      λ id.
        Leads-bind (IsFresh id) (add_conversation (new_conversation id a b false job order))
          (λ _. pure id) (λ _. HasThread (new_conversation id a b false job order)) (λ _. IsCounted)
          (Leads-add_conversation id a b false job order)
          λ _.
            Leads-ok (HasThread (new_conversation id a b false job order)) (pure id)
              (λ db. (id, db)) (λ _. IsCounted) (λ db. refl) (λ db t. t.counted))
Keeps-created a b job order (some c) = Keeps-pure IsCounted c.id

pub Keeps-announced :
    (now a b : ℕ) (job order : Option ℕ) (content : Text)
    → Keeps IsCounted (get_or_create_system_conversation now a b job order content)
unfolding get_or_create_system_conversation
Keeps-announced now a b job order content =
    Keeps-bind IsCounted (raise_if (a == b) bad_request) _ (Keeps-raise_if IsCounted _ _) λ _.
      Keeps-bind IsCounted
        (find_one (thread_rows a b (job_unless order job) order) >>= get_or_create a b job order) _
        (Keeps-find IsCounted _ (get_or_create a b job order) (Keeps-created a b job order))
        λ k.
          Keeps-bind IsCounted (with_conversation k (system_to now content)) _
            (Keeps-in_thread k (system_to now content) (Leads-system_to now content))
            λ _. Keeps-pure IsCounted k
