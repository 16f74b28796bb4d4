-- ===== src/Messages/Violations.antt =====
-- The escalation of violations over histories of requests
-- (backend/app/services/message_filter_service.py): the invariant, and a message through the filter.
use kaasb.Common.{
  ℕ, zero, suc, ◌≤◌, ◌≡◌, refl, sym, subst, Bool, Bool-cases, inl, inr, true, false, Option, none,
  some, List, [], ◌∷◌, String, All, All-imp, All-update_row, ◌&&◌, not, Text, arith,
}
use kaasb.Db.{
  Db, Action, pure, modify, ◌>>=◌, ◌>>◌, raise_if, new_id, Keeps, Keeps-ok, Keeps-pure, Keeps-raise,
  Keeps-modify, Keeps-raise_if, Keeps-bind, Keeps-find, Keeps-if, User, Conversation, Message,
  ViolationLog, ViolationType, ViolationAction, bad_request, forbidden, not_found, user_coded,
}
use kaasb.Auth.Tokens.{set_user}
use kaasb.Auth.Login.{is_after}
use kaasb.Messages.Filter.{
  Patterns, FilterOutcome, mask_content, add_log, log_of, set_violations, escalate, judge,
  process_message, of_kind, clean,
}
use kaasb.Messages.Sending.{
  is_staff, conversation_rows, or_no_conversation, with_conversation, set_conversation, add_message,
  new_message, role_for, receive, send_to, is_participant, is_staff_override, send_filtered,
  send_in,
}

-- At most the warning has been recorded.
abbrev pub IsWarned : User → Type 0
IsWarned u = (u.chat_violations ≤ 1) × (u.chat_suspended_until ≡ none)

pub record IsLenient (db : Db) : Type 0 where
  pub users : All IsWarned db.users

pub Keeps-others :
    (f : Db → Db) → ((db : Db) → (f db).users ≡ db.users) → Keeps IsLenient (modify f)
Keeps-others f same =
    Keeps-modify IsLenient f
      λ db c. record { users = subst (λ us. All IsWarned us) (sym (same db)) c.users }

pub Keeps-new_id : Keeps IsLenient new_id
Keeps-new_id =
    Keeps-ok IsLenient new_id (λ db. (db.next_id, record db { next_id = suc db.next_id }))
      (λ db. refl) (λ db c. record { users = c.users })

pub Keeps-set_conversation :
    (k : ℕ) (f : Conversation → Conversation) → Keeps IsLenient (set_conversation k f)
Keeps-set_conversation k f = Keeps-others _ (λ db. refl)

pub Keeps-add_message : (m : Message) → Keeps IsLenient (add_message m)
Keeps-add_message m = Keeps-others _ (λ db. refl)

Keeps-add_log : (l : ViolationLog) → Keeps IsLenient (add_log l)
Keeps-add_log l = Keeps-others _ (λ db. refl)

pub Keeps-with_conversation :
    {A : Type 0} (k : ℕ) (f : Conversation → Action A)
    → ((c : Conversation) → Keeps IsLenient (f c))
    → Keeps IsLenient (with_conversation k f)
Keeps-with_conversation {A} k f h =
    Keeps-find IsLenient (conversation_rows k) (or_no_conversation f) found
  where
    found : (o : Option Conversation) → Keeps IsLenient (or_no_conversation f o)
    found none = Keeps-raise IsLenient not_found
    found (some c) = h c

pub Keeps-send_to :
    (now : ℕ) (sender : User) (content : Text) (attachments : List String) (c : Conversation)
    → Keeps IsLenient (send_to now sender content attachments c)
unfolding send_to
Keeps-send_to now sender content attachments c = Keeps-bind IsLenient new_id _ Keeps-new_id λ id.
    Keeps-bind IsLenient
      (add_message (new_message id sender.id (role_for sender) false content attachments c)) _
      (Keeps-add_message _)
      λ _.
        Keeps-bind IsLenient (set_conversation c.id (receive now sender content c)) _
          (Keeps-set_conversation c.id (receive now sender content c)) λ _. Keeps-pure IsLenient id

-- A message through the filter, by the number of its sender's violations.
module _ (p : Patterns) (now : ℕ) (sender : User) (content : Text) (attachments : List String)
    (c : Conversation) where
  Keeps-send_filtered :
      (o : FilterOutcome) → Keeps IsLenient (send_filtered now sender attachments c o)
  Keeps-send_filtered o =
      Keeps-bind IsLenient (raise_if o.blocked bad_request) _ (Keeps-raise_if IsLenient _ _)
        λ _. Keeps-send_to now sender o.content attachments c

  Keeps-violation :
      (n : ℕ) (skip_urls : Bool) (vtype : ViolationType) (detected : Text)
      → n ≤ 1
      → Keeps IsLenient (
          (set_user sender.id (set_violations (suc n))
            >> escalate p now sender content skip_urls vtype detected (suc n))
          >>= send_filtered now sender attachments c)
  unfolding escalate
  Keeps-violation zero skip_urls vtype detected h =
      Keeps-bind IsLenient
        (set_user sender.id (set_violations 1)
          >> (add_log (log_of sender vtype detected ViolationAction.warning)
              >> pure (outcome mask)))
        (send_filtered now sender attachments c)
        (Keeps-bind IsLenient (set_user sender.id (set_violations 1)) _ set_one λ _.
          Keeps-bind IsLenient (add_log (log_of sender vtype detected ViolationAction.warning)) _
            (Keeps-add_log _) λ _. Keeps-pure IsLenient (outcome mask))
        Keeps-send_filtered
    where
      mask : Text
      mask = mask_content p skip_urls content

      outcome : Text → FilterOutcome
      outcome text = record {
        content = text;
        blocked = false;
        warning = true;
        code = some (of_kind vtype);
        total_violations = 1;
        suspended_until = none;
      }

      set_one : Keeps IsLenient (set_user sender.id (set_violations 1))
      set_one = Keeps-modify IsLenient _ λ db k. record {
        users =
            All-update_row (λ u. u.id) IsWarned sender.id (set_violations 1) db.users
              (All-imp IsWarned (λ u. u.id ≡ sender.id → IsWarned (set_violations 1 u))
                (λ u w _. (omega arith, w.1)) db.users k.users)
              k.users;
      }
  Keeps-violation (suc zero) skip_urls vtype detected h = record { keeps = λ db r e k. absurd (cc) }
  Keeps-violation (suc (suc n)) skip_urls vtype detected h = absurd (omega arith)

  Keeps-judged :
      (skip_urls : Bool) (found : List (ViolationType × Text))
      → sender.chat_violations ≤ 1
      → Keeps IsLenient
          (judge p now sender content skip_urls found >>= send_filtered now sender attachments c)
  Keeps-judged skip_urls [] h = Keeps-send_filtered (clean (p.normalize content))
  Keeps-judged skip_urls ((vtype, detected) ∷ rest) h =
      Keeps-violation sender.chat_violations skip_urls vtype detected h

  Keeps-filtered :
      sender.chat_violations ≤ 1
      → Keeps IsLenient (
          process_message p now sender content c.conversation_type
          >>= send_filtered now sender attachments c)
  unfolding process_message
  Keeps-filtered h = elim (Bool-cases (is_after now sender.chat_suspended_until)) [
    | inl y ↦ rw y (record { keeps = λ db r e k. absurd (cc) })
    | inr n ↦ rw n (Keeps-judged _ _ h)
  ]

  pub Keeps-send_in :
      sender.chat_violations ≤ 1 → Keeps IsLenient (send_in p now sender content attachments c)
  unfolding send_in
  Keeps-send_in h =
      Keeps-bind IsLenient
        (raise_if (not (is_participant sender c) && not (is_staff_override sender c)) forbidden) _
        (Keeps-raise_if IsLenient _ _)
        λ _.
          Keeps-if IsLenient (is_staff sender) (send_to now sender content attachments c) _
            (Keeps-send_to now sender content attachments c) (Keeps-filtered h)
