-- ===== src/Messages/Counting.antt =====
-- The counters of a conversation (backend/app/services/message_service.py): an invariant, and the
-- writes one by one.
use kaasb.Common.{
  Distinct-update_row, Distinct-append, All-zip, ℕ, suc, ◌+◌, ◌<◌, ◌≡◌, ◌≢◌, refl, ap, ap₂, sym,
  subst, ◌∙◌, Bool, Bool-cases, inl, inr, true, false, List, [], ◌∷◌, ◌++◌, select, length, All,
  All-imp, All-append, All-update_row, All-update_row_cases, select-append, select-none,
  length-append, update_row, Distinct, OnlyRow, if◌then◌else◌, ◌==◌, ◌&&◌, not, arith,
}
use kaasb.Db.{Db, Conversation, Message}

abbrev pub is_in : ℕ → Message → Bool
is_in k m = m.conversation_id == k

-- Of the first participant, and not read.
abbrev pub is_waiting : Conversation → Message → Bool
is_waiting c m =
    (m.conversation_id == c.id) && ((m.sender_id == c.participant_one_id) && not m.is_read)

abbrev pub HasCounts : List Message → Conversation → Type 0
HasCounts ms c =
    (length (select (is_in c.id) ms) ≡ c.message_count)
    × (length (select (is_waiting c) ms) ≡ c.unread_two)

pub record IsCounted (db : Db) : Type 0 where
  pub threads : Distinct (λ c. c.id) db.conversations
  pub known : All (λ c. c.id < db.next_id) db.conversations
  pub posted : All (λ m. m.conversation_id < db.next_id) db.messages
  pub counts : All (HasCounts db.messages) db.conversations

-- A thread at hand: the only row with its id.
pub record HasThread (c : Conversation) (db : Db) : Type 0 where
  pub counted : IsCounted db
  pub only : OnlyRow (λ x. x.id) c.id c db.conversations
  pub id_known : c.id < db.next_id

-- One more message counts where it passes.
count_one :
    (p : Message → Bool) (m : Message) (ms : List Message)
    → length (select p (ms ++ m ∷ []))
      ≡ (if p m then suc (length (select p ms)) else length (select p ms))
count_one p m ms = ap length (select-append p ms (m ∷ [])) ∙ length-append (select p ms) _ ∙ one
  where
    one :
        length (select p ms) + length (select p (m ∷ []))
        ≡ (if p m then suc (length (select p ms)) else length (select p ms))
    one = elim (Bool-cases (p m)) [ inl y ↦ rw y (omega arith) | inr n ↦ rw n (omega arith) ]

-- What a message to the thread does to the row.
pub record Counts (m : Message) (x y : Conversation) : Type 0 where
  pub same_id : y.id ≡ x.id
  pub same_one : y.participant_one_id ≡ x.participant_one_id
  pub one_more : y.message_count ≡ suc x.message_count
  pub unread :
      y.unread_two
      ≡ (if m.sender_id == x.participant_one_id then suc x.unread_two else x.unread_two)

module _ (m : Message) (c : Conversation) (f : Conversation → Conversation) (db : Db)
    (in_thread : m.conversation_id ≡ c.id) (fresh : m.is_read ≡ false)
    (same : (x : Conversation) → (f x).id ≡ x.id) (effect : Counts m c (f c)) where
  counts_here : HasCounts db.messages c → HasCounts (db.messages ++ m ∷ []) (f c)
  counts_here h =
      let ms = db.messages ++ m ∷ [] in
      let inside : (m.conversation_id == c.id) ≡ true = ground (arith, in_thread) in
      (
        ap (λ i. length (select (is_in i) ms)) effect.same_id
            ∙ count_one (is_in c.id) m db.messages
            ∙ rw inside (ap suc h.0)
            ∙ sym effect.one_more,
        ap₂
              (λ i one. length (
                select (λ x. (x.conversation_id == i) && ((x.sender_id == one) && not x.is_read))
                  ms))
              effect.same_id effect.same_one
            ∙ count_one (is_waiting c) m db.messages
            ∙ rw (inside, fresh) (by_sender h.1)
            ∙ sym effect.unread,
      )
    where
      by_sender :
          length (select (is_waiting c) db.messages) ≡ c.unread_two
          → (if (m.sender_id == c.participant_one_id) && true
              then suc (length (select (is_waiting c) db.messages))
              else length (select (is_waiting c) db.messages))
            ≡ (if m.sender_id == c.participant_one_id then suc c.unread_two else c.unread_two)
      by_sender h1 = elim (Bool-cases (m.sender_id == c.participant_one_id)) [
        | inl y ↦ rw y (ap suc h1)
        | inr n ↦ rw n h1
      ]

  counts_there :
      (x : Conversation)
      → x.id ≢ c.id
      → HasCounts db.messages x
      → HasCounts (db.messages ++ m ∷ []) x
  counts_there x other h =
      let out : (m.conversation_id == x.id) ≡ false = ground (arith, in_thread, other) in
      (
        count_one (is_in x.id) m db.messages ∙ rw out h.0,
        count_one (is_waiting x) m db.messages ∙ rw out h.1,
      )

  pub post-IsCounted :
      HasThread c db
      → IsCounted (record db {
        messages = db.messages ++ m ∷ [];
        conversations = update_row (λ x. x.id) c.id f db.conversations;
      })
  post-IsCounted t =
      let s = t.counted in
      record {
        threads = Distinct-update_row (λ x. x.id) c.id f same db.conversations s.threads;
        known =
            All-update_row (λ x. x.id) (λ x. x.id < db.next_id) c.id f db.conversations
              (All-imp (λ x. x.id < db.next_id) (λ x. x.id ≡ c.id → (f x).id < db.next_id)
                (λ x l _. subst (λ i. i < db.next_id) (sym (same x)) l) db.conversations s.known)
              s.known;
        posted =
            All-append _ db.messages (m ∷ []) s.posted
              (subst (λ i. i < db.next_id) (sym in_thread) t.id_known, tt);
        counts =
            All-update_row_cases (λ x. x.id) (HasCounts (db.messages ++ m ∷ [])) c.id f
              db.conversations
              (All-zip (HasCounts db.messages) (λ x. x.id ≡ c.id → x ≡ c)
                (λ x. x.id ≡ c.id → HasCounts (db.messages ++ m ∷ []) (f x))
                (λ x h only e.
                  subst (λ y. HasCounts (db.messages ++ m ∷ []) (f y)) (sym (only e))
                    (counts_here (subst (HasCounts db.messages) (only e) h)))
                db.conversations s.counts t.only)
              (All-imp (HasCounts db.messages)
                (λ x. x.id ≢ c.id → HasCounts (db.messages ++ m ∷ []) x)
                (λ x h other. counts_there x other h) db.conversations s.counts);
      }

-- A write to rows that leaves their counters as they are.
pub record Steady (f : Conversation → Conversation) : Type 0 where
  pub steady_id : (x : Conversation) → (f x).id ≡ x.id
  pub steady_one : (x : Conversation) → (f x).participant_one_id ≡ x.participant_one_id
  pub steady_count : (x : Conversation) → (f x).message_count ≡ x.message_count
  pub steady_unread : (x : Conversation) → (f x).unread_two ≡ x.unread_two

module _ (f : Conversation → Conversation) (st : Steady f) where
  steady_counts : (ms : List Message) (x : Conversation) → HasCounts ms x → HasCounts ms (f x)
  steady_counts ms x h = (
    ap (λ i. length (select (is_in i) ms)) (st.steady_id x) ∙ h.0 ∙ sym (st.steady_count x),
    ap₂
          (λ i one.
            length (
              select (λ y. (y.conversation_id == i) && ((y.sender_id == one) && not y.is_read)) ms))
          (st.steady_id x) (st.steady_one x)
        ∙ h.1
        ∙ sym (st.steady_unread x),
  )

  pub steady-IsCounted :
      (k : ℕ) (db : Db)
      → IsCounted db
      → IsCounted (record db { conversations = update_row (λ x. x.id) k f db.conversations })
  steady-IsCounted k db s = record {
    threads = Distinct-update_row (λ x. x.id) k f st.steady_id db.conversations s.threads;
    known =
        All-update_row (λ x. x.id) (λ x. x.id < db.next_id) k f db.conversations
          (All-imp (λ x. x.id < db.next_id) (λ x. x.id ≡ k → (f x).id < db.next_id)
            (λ x l _. subst (λ i. i < db.next_id) (sym (st.steady_id x)) l) db.conversations
            s.known)
          s.known;
    posted = s.posted;
    counts =
        All-update_row (λ x. x.id) (HasCounts db.messages) k f db.conversations
          (All-imp (HasCounts db.messages) (λ x. x.id ≡ k → HasCounts db.messages (f x))
            (λ x h _. steady_counts db.messages x h) db.conversations s.counts)
          s.counts;
  }

-- A new thread has no messages.
pub open-HasThread :
    (c : Conversation) (db : Db)
    → c.id < db.next_id
    → All (λ x. x.id ≢ c.id) db.conversations
    → All (λ m. m.conversation_id ≢ c.id) db.messages
    → c.message_count ≡ 0
    → c.unread_two ≡ 0
    → IsCounted db
    → HasThread c (record db { conversations = db.conversations ++ c ∷ [] })
open-HasThread c db low apart none_yet no_count no_unread s = record {
  counted = record {
    threads = Distinct-append (λ x. x.id) c db.conversations s.threads apart;
    known = All-append _ db.conversations (c ∷ []) s.known (low, tt);
    posted = s.posted;
    counts =
        All-append (HasCounts db.messages) db.conversations (c ∷ []) s.counts
          ((ap length nothing ∙ sym no_count, ap length unwaited ∙ sym no_unread), tt);
  };
  only =
      All-append _ db.conversations (c ∷ [])
        (All-imp (λ x. x.id ≢ c.id) (λ x. x.id ≡ c.id → x ≡ c) (λ x other e. absurd (other e))
          db.conversations apart)
        ((λ _. refl), tt);
  id_known = low;
}
  where
    nothing : select (is_in c.id) db.messages ≡ []
    nothing = select-none (is_in c.id) db.messages (
        All-imp (λ m. m.conversation_id ≢ c.id) (λ m. is_in c.id m ≡ false)
          (λ m other. ground (arith, other)) db.messages none_yet)

    unwaited : select (is_waiting c) db.messages ≡ []
    unwaited = select-none (is_waiting c) db.messages (
        All-imp (λ m. m.conversation_id ≢ c.id) (λ m. is_waiting c m ≡ false)
          (λ m other.
            let out : (m.conversation_id == c.id) ≡ false = ground (arith, other) in rw out refl)
          db.messages none_yet)
