-- ===== src/Messages/Counters.antt =====
-- The requests about messages (backend/app/services/message_service.py), for the counters.
use kaasb.Common.{
  ℕ, suc, ◌<◌, ◌≡◌, refl, subst, Bool, Bool-cases, inl, inr, true, false, List, [], ◌∷◌, String,
  select, All-imp, found-All, found-OnlyRow, ◌==◌, ◌&&◌, not, Text, arith, ==_refl,
}
use kaasb.Db.{
  Db, Action, raise, raise_if, ok-inj, Keeps, Keeps-raise, Keeps-raise_if, Leads, Leads-kept,
  Leads-bind, Leads-find, Keeps-led, User, Conversation, SenderRole, conversation_coded, forbidden,
  not_found,
}
use kaasb.Messages.Sending.{
  conversation_rows, or_no_conversation, with_conversation, reopens, new_message, role_for, receive,
  send_to, receive_system, system_to, is_participant, is_staff_override,
}
use kaasb.Messages.Threads.{read_in}
use kaasb.Messages.Counting.{IsCounted, HasThread, Counts, post-IsCounted}
use kaasb.Messages.Reading.{read-IsCounted, look-IsCounted}

pub next-IsCounted : (db : Db) → IsCounted db → IsCounted (record db { next_id = suc db.next_id })
next-IsCounted db s = record {
  threads = s.threads;
  known =
      All-imp (λ c. c.id < db.next_id) (λ c. c.id < suc db.next_id) (λ c l. omega arith)
        db.conversations s.known;
  posted =
      All-imp (λ m. m.conversation_id < db.next_id) (λ m. m.conversation_id < suc db.next_id)
        (λ m l. omega arith) db.messages s.posted;
  counts = s.counts;
}

next-HasThread :
    (c : Conversation) (db : Db)
    → HasThread c db
    → HasThread c (record db { next_id = suc db.next_id })
next-HasThread c db t = record {
  counted = next-IsCounted db t.counted;
  only = t.only;
  id_known = let low = t.id_known in omega arith;
}

-- A thread that a query finds.
pub found-HasThread :
    (p : Conversation → Bool) (c : Conversation) (db : Db)
    → IsCounted db
    → select p db.conversations ≡ c ∷ []
    → HasThread c db
found-HasThread p c db s rows = record {
  counted = s;
  only = found-OnlyRow (λ x. x.id) p c [] db.conversations s.threads rows;
  id_known = (found-All (λ x. x.id < db.next_id) p c [] db.conversations s.known rows).0;
}

module _ (now : ℕ) (u : User) (content : Text) (attachments : List String) (c : Conversation) where
  receive-id : (x : Conversation) → (receive now u content c x).id ≡ x.id
  receive-id x = elim (Bool-cases (reopens u c)) [
    | inl a ↦
        rw a (elim (Bool-cases (u.id == c.participant_one_id)) [
          | inl b ↦ rw b refl
          | inr b ↦ rw b refl
        ])
    | inr a ↦
        rw a (elim (Bool-cases (u.id == c.participant_one_id)) [
          | inl b ↦ rw b refl
          | inr b ↦ rw b refl
        ])
  ]

  receive-Counts :
      (id : ℕ)
      → Counts
          (new_message id u.id (role_for u) false content attachments c)
          c
          (receive now u content c c)
  receive-Counts id = elim (Bool-cases (reopens u c)) [
    | inl a ↦ rw a (elim (Bool-cases (u.id == c.participant_one_id)) [
      | inl b ↦
          rw b (record { same_id = refl; same_one = refl; one_more = refl; unread = rw b refl })
      | inr b ↦
          rw b (record { same_id = refl; same_one = refl; one_more = refl; unread = rw b refl })
    ])
    | inr a ↦ rw a (elim (Bool-cases (u.id == c.participant_one_id)) [
      | inl b ↦
          rw b (record { same_id = refl; same_one = refl; one_more = refl; unread = rw b refl })
      | inr b ↦
          rw b (record { same_id = refl; same_one = refl; one_more = refl; unread = rw b refl })
    ])
  ]

  pub Leads-send_to : Leads (HasThread c) (send_to now u content attachments c) (λ _. IsCounted)
  unfolding send_to
  Leads-send_to = record {
    leads = λ db r e t.
        subst (λ (x : ℕ × Db). IsCounted x.1) (ok-inj e)
          (post-IsCounted (new_message db.next_id u.id (role_for u) false content attachments c) c
            (receive now u content c) (record db { next_id = suc db.next_id }) refl refl receive-id
            (receive-Counts db.next_id) (next-HasThread c db t));
  }

pub Leads-system_to :
    (now : ℕ) (content : Text) (c : Conversation)
    → Leads (HasThread c) (system_to now content c) (λ _. IsCounted)
unfolding system_to
Leads-system_to now content c = record {
  leads = λ db r e t.
      subst (λ (x : ℕ × Db). IsCounted x.1) (ok-inj e)
        (post-IsCounted
          (new_message db.next_id c.participant_one_id SenderRole.system true content [] c) c
          (receive_system now content) (record db { next_id = suc db.next_id }) refl refl
          (λ x. refl)
          (record {
            same_id = refl;
            same_one = refl;
            one_more = refl;
            unread = rw (==_refl c.participant_one_id) refl;
          })
          (next-HasThread c db t));
}

pub Keeps-in_thread :
    {A : Type 0} (k : ℕ) (f : Conversation → Action A)
    → ((c : Conversation) → Leads (HasThread c) (f c) (λ _. IsCounted))
    → Keeps IsCounted (with_conversation k f)
Keeps-in_thread k f h = Keeps-led IsCounted _ (
    Leads-find IsCounted (conversation_rows k) (or_no_conversation f) (λ _. IsCounted)
      (Leads-kept IsCounted (raise not_found) (Keeps-raise IsCounted not_found))
      λ c. record {
        leads = λ db r e p. (h c).leads db r e (found-HasThread (λ x. x.id == k) c db p.0 p.1);
      })

pub Leads-read_in :
    (now : ℕ) (u : User) (c : Conversation) → Leads (HasThread c) (read_in now u c) (λ _. IsCounted)
unfolding read_in
Leads-read_in now u c =
    Leads-bind (HasThread c)
      (raise_if (not (is_participant u c) && not (is_staff_override u c)) forbidden) _
      (λ _. HasThread c) (λ _. IsCounted)
      (Leads-kept (HasThread c) _ (Keeps-raise_if (HasThread c) _ _))
      λ _. record {
        leads = λ db r e t. elim (Bool-cases (is_participant u c)) [
          | inl y ↦
              let h = rw y at e in
              subst (λ (x : Unit {0} × Db). IsCounted x.1) (ok-inj h)
                (read-IsCounted now u c db y t)
          | inr n ↦
              let h = rw n at e in
              subst (λ (x : Unit {0} × Db). IsCounted x.1) (ok-inj h)
                (look-IsCounted now u c db n t)
        ];
      }
