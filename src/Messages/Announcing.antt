-- ===== src/Messages/Announcing.antt =====
-- The platform's own conversations (backend/app/services/message_service.py,
-- `get_or_create_system_conversation`), for predicates that do not depend on the chat.
use kaasb.Common.{
  ℕ, suc, ◌≤◌, refl, true, false, Option, none, some, List, [], any, not, ◌==◌, Text, arith,
}
use kaasb.Db.{
  Db, ◌>>=◌, raise_if, find_one, new_id, Keeps, Keeps-ok, Keeps-pure, Keeps-raise, Keeps-modify,
  Keeps-raise_if, Keeps-bind, Keeps-find, Keeps-checked, Conversation, Message, SenderRole,
  bad_request, not_found, integrity,
}
use kaasb.Messages.Sending.{
  conversation_rows, or_no_conversation, with_conversation, set_conversation, add_message,
  new_message, receive_system, system_to,
}
use kaasb.Messages.Starting.{
  thread_rows, new_conversation, clashes, add_conversation, get_or_create,
  get_or_create_system_conversation, job_unless,
}

-- A predicate that new conversations, messages and ids leave alone.
pub record IgnoresChat (P : Db → Type 0) : Type 0 where
  pub ignores :
      (cs : List Conversation) (ms : List Message) (n : ℕ) (db : Db)
      → db.next_id ≤ n
      → P db
      → P (record db { conversations = cs; messages = ms; next_id = n })

module _ (P : Db → Type 0) (chat : IgnoresChat P) where
  Keeps-next : Keeps P new_id
  Keeps-next =
      Keeps-ok P new_id (λ db. (db.next_id, record db { next_id = suc db.next_id })) (λ db. refl)
        (λ db p. chat.ignores db.conversations db.messages (suc db.next_id) db (omega arith) p)

  Keeps-system_to :
      (now : ℕ) (content : Text) (c : Conversation) → Keeps P (system_to now content c)
  unfolding system_to
  Keeps-system_to now content c = Keeps-bind P new_id _ Keeps-next λ id.
      Keeps-bind P
        (add_message (new_message id c.participant_one_id SenderRole.system true content [] c)) _
        (Keeps-modify P _ λ db p. chat.ignores _ _ _ db (omega arith) p)
        λ _.
          Keeps-bind P (set_conversation c.id (receive_system now content)) _
            (Keeps-modify P _ λ db p. chat.ignores _ _ _ db (omega arith) p) λ _. Keeps-pure P id

  pub Keeps-announced :
      (now k : ℕ) (content : Text) → Keeps P (with_conversation k (system_to now content))
  Keeps-announced now k content =
      Keeps-find P (conversation_rows k) (or_no_conversation (system_to now content)) found
    where
      found : (o : Option Conversation) → Keeps P (or_no_conversation (system_to now content) o)
      found none = Keeps-raise P not_found
      found (some c) = Keeps-system_to now content c

  Keeps-get_or_create :
      (client freelancer : ℕ) (job order : Option ℕ) (o : Option Conversation)
      → Keeps P (get_or_create client freelancer job order o)
  Keeps-get_or_create client freelancer job order none = Keeps-bind P new_id _ Keeps-next λ id.
      Keeps-bind P (add_conversation (new_conversation id client freelancer false job order)) _
        (Keeps-checked P
          (λ db. not (
            any (clashes (new_conversation id client freelancer false job order)) db.conversations))
          _ integrity (λ db p. chat.ignores _ _ _ db (omega arith) p))
        λ _. Keeps-pure P id
  Keeps-get_or_create client freelancer job order (some c) = Keeps-pure P c.id

  pub Keeps-platform :
      (now client freelancer : ℕ) (job order : Option ℕ) (content : Text)
      → Keeps P (get_or_create_system_conversation now client freelancer job order content)
  unfolding get_or_create_system_conversation
  Keeps-platform now client freelancer job order content =
      Keeps-bind P (raise_if (client == freelancer) bad_request) _ (Keeps-raise_if P _ _) λ _.
        Keeps-bind P
          (find_one (thread_rows client freelancer (job_unless order job) order)
            >>= get_or_create client freelancer job order)
          _
          (Keeps-find P _ (get_or_create client freelancer job order)
            (Keeps-get_or_create client freelancer job order))
          λ k.
            Keeps-bind P (with_conversation k (system_to now content)) _
              (Keeps-announced now k content) λ _. Keeps-pure P k
