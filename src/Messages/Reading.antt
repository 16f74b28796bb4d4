-- ===== src/Messages/Reading.antt =====
-- Reading a conversation (backend/app/services/message_service.py, `get_messages`), for the counters.
use kaasb.Common.{
  Distinct-update_row, All-zip, ℕ, ◌<◌, ◌≡◌, ◌≢◌, refl, sym, subst, ◌∙◌, Bool, Bool-cases, inl, inr,
  true, false, List, [], ◌∷◌, map, select, length, All, All-imp, All-map, All-update_row,
  All-update_row_cases, update_row, if◌then◌else◌, ◌==◌, not, &&-true, arith,
}
use kaasb.Db.{Db, User, Conversation, Message}
use kaasb.Messages.Sending.{is_participant}
use kaasb.Messages.Threads.{clear_unread, is_new_to, mark_read}
use kaasb.Messages.Counting.{is_in, is_waiting, HasCounts, IsCounted, HasThread}

module _ {A : Type 0} (g : A → A) where
  length-select-same :
      (p q : A → Bool)
      → ((a : A) → p (g a) ≡ q a)
      → (xs : List A) → length (select p (map g xs)) ≡ length (select q xs)
  length-select-same p q same [] = refl
  length-select-same p q same (x ∷ xs) = ground (arith, same x, length-select-same p q same xs)

length-select-never : {A : Type 0} (xs : List A) → length (select (λ x. false) xs) ≡ 0
length-select-never [] = refl
length-select-never (x ∷ xs) = length-select-never xs

module _ (now : ℕ) (u : User) (c : Conversation) where
  abbrev pub marked : Message → Message
  marked m = if is_new_to u.id c.id m then mark_read now m else m

  stays : (i : ℕ) (m : Message) → is_in i (marked m) ≡ is_in i m
  stays i m = elim (Bool-cases (is_new_to u.id c.id m)) [ inl y ↦ rw y refl | inr n ↦ rw n refl ]

  elsewhere :
      (x : Conversation) → x.id ≢ c.id → (m : Message) → is_waiting x (marked m) ≡ is_waiting x m
  elsewhere x other m = elim (Bool-cases (is_new_to u.id c.id m)) [
    | inl y ↦
        let (here, _) = &&-true (m.conversation_id == c.id) _ y in
        let out : (m.conversation_id == x.id) ≡ false = ground (arith, here, other) in
        rw (y, out) refl
    | inr n ↦ rw n refl
  ]

  own :
      (u.id == c.participant_one_id) ≡ true
      → (m : Message) → is_waiting c (marked m) ≡ is_waiting c m
  own one m = elim (Bool-cases (is_new_to u.id c.id m)) [
    | inl y ↦
        let (here, rest) = &&-true (m.conversation_id == c.id) _ y in
        let (foreign, _) = &&-true (not (m.sender_id == u.id)) _ rest in
        let out : (m.sender_id == c.participant_one_id) ≡ false = ground (arith, one, foreign) in
        rw (y, here, out) refl
    | inr n ↦ rw n refl
  ]

  read_all :
      (u.id == c.participant_one_id) ≡ false → (m : Message) → is_waiting c (marked m) ≡ false
  read_all other m = elim (Bool-cases (is_new_to u.id c.id m)) [
    | inl y ↦ rw y (elim (Bool-cases (m.conversation_id == c.id)) [
      | inl a ↦ rw a (elim (Bool-cases (m.sender_id == c.participant_one_id)) [
        | inl b ↦ rw b refl
        | inr b ↦ rw b refl
      ])
      | inr a ↦ rw a refl
    ])
    | inr n ↦ rw n (elim (Bool-cases (m.conversation_id == c.id)) [
      | inl a ↦ rw a (elim (Bool-cases (m.sender_id == c.participant_one_id)) [
        | inl b ↦
            let foreign : (m.sender_id == u.id) ≡ false = ground (arith, b, other) in
            let left : not m.is_read ≡ false = rw (a, foreign) at n in
            let read : m.is_read ≡ true = ground (arith, left) in rw (b, read) refl
        | inr b ↦ rw b refl
      ])
      | inr a ↦ rw a refl
    ])
  ]

  counts_read :
      (ms : List Message)
      → is_participant u c ≡ true
      → HasCounts ms c
      → HasCounts (map marked ms) (clear_unread u c)
  counts_read ms part h = elim (Bool-cases (u.id == c.participant_one_id)) [
    | inl y ↦ rw y (
      length-select-same marked (is_in c.id) (is_in c.id) (stays c.id) ms ∙ h.0,
      length-select-same marked (is_waiting c) (is_waiting c) (own y) ms ∙ h.1,
    )
    | inr n ↦
        let two : (u.id == c.participant_two_id) ≡ true = rw n at part in
        rw (n, two)
          (
            length-select-same marked (is_in c.id) (is_in c.id) (stays c.id) ms ∙ h.0,
            length-select-same marked (is_waiting c) (λ m. false) (read_all n) ms
                ∙ length-select-never ms,
          )
  ]

  clear-id : (x : Conversation) → (clear_unread u x).id ≡ x.id
  clear-id x = elim (Bool-cases (u.id == x.participant_one_id)) [
    | inl y ↦ rw y refl
    | inr n ↦
        rw n (elim (Bool-cases (u.id == x.participant_two_id)) [
          | inl y ↦ rw y refl
          | inr m ↦ rw m refl
        ])
  ]

  clear-absent : is_participant u c ≡ false → clear_unread u c ≡ c
  clear-absent absent = elim (Bool-cases (u.id == c.participant_one_id)) [
    | inl y ↦ absurd (ground (arith, y, absent))
    | inr n ↦ let two : (u.id == c.participant_two_id) ≡ false = rw n at absent in rw (n, two) refl
  ]

  clear_known :
      (n : ℕ) (xs : List Conversation)
      → All (λ x. x.id < n) xs
      → All (λ x. x.id < n) (update_row (λ x. x.id) c.id (clear_unread u) xs)
  clear_known n xs h =
      All-update_row (λ x. x.id) (λ x. x.id < n) c.id (clear_unread u) xs
        (All-imp (λ x. x.id < n) (λ x. x.id ≡ c.id → (clear_unread u x).id < n)
          (λ x l _. subst (λ i. i < n) (sym (clear-id x)) l) xs h)
        h

  -- A participant's reading.
  pub read-IsCounted :
      (db : Db)
      → is_participant u c ≡ true
      → HasThread c db
      → IsCounted (record db {
        conversations = update_row (λ x. x.id) c.id (clear_unread u) db.conversations;
        messages = map marked db.messages;
      })
  read-IsCounted db part t =
      let s = t.counted in
      record {
        threads =
            Distinct-update_row (λ x. x.id) c.id (clear_unread u) clear-id db.conversations
              s.threads;
        known = clear_known db.next_id db.conversations s.known;
        posted =
            All-map (λ m. m.conversation_id < db.next_id) marked
              (λ m l. elim (Bool-cases (is_new_to u.id c.id m)) [ inl y ↦ rw y l | inr n ↦ rw n l ])
              db.messages s.posted;
        counts =
            All-update_row_cases (λ x. x.id) (HasCounts (map marked db.messages)) c.id
              (clear_unread u) db.conversations
              (All-zip (HasCounts db.messages) (λ x. x.id ≡ c.id → x ≡ c)
                (λ x. x.id ≡ c.id → HasCounts (map marked db.messages) (clear_unread u x))
                (λ x h only e.
                  subst (λ y. HasCounts (map marked db.messages) (clear_unread u y)) (sym (only e))
                    (counts_read db.messages part (subst (HasCounts db.messages) (only e) h)))
                db.conversations s.counts t.only)
              (All-imp (HasCounts db.messages)
                (λ x. x.id ≢ c.id → HasCounts (map marked db.messages) x)
                (λ x h other. (
                  length-select-same marked (is_in x.id) (is_in x.id) (stays x.id) db.messages
                      ∙ h.0,
                  length-select-same marked (is_waiting x) (is_waiting x) (elsewhere x other)
                        db.messages
                      ∙ h.1,
                ))
                db.conversations s.counts);
      }

  -- The staff's look at a thread that is not theirs.
  pub look-IsCounted :
      (db : Db)
      → is_participant u c ≡ false
      → HasThread c db
      → IsCounted (record db {
        conversations = update_row (λ x. x.id) c.id (clear_unread u) db.conversations;
      })
  look-IsCounted db absent t =
      let s = t.counted in
      record {
        threads =
            Distinct-update_row (λ x. x.id) c.id (clear_unread u) clear-id db.conversations
              s.threads;
        known = clear_known db.next_id db.conversations s.known;
        posted = s.posted;
        counts =
            All-update_row (λ x. x.id) (HasCounts db.messages) c.id (clear_unread u)
              db.conversations
              (All-zip (HasCounts db.messages) (λ x. x.id ≡ c.id → x ≡ c)
                (λ x. x.id ≡ c.id → HasCounts db.messages (clear_unread u x))
                (λ x h only e.
                  subst (λ y. HasCounts db.messages (clear_unread u y)) (sym (only e))
                    (subst (HasCounts db.messages) (sym (clear-absent absent))
                      (subst (HasCounts db.messages) (only e) h)))
                db.conversations s.counts t.only)
              s.counts;
      }
