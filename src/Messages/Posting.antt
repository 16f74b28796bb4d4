-- ===== src/Messages/Posting.antt =====
-- A message that a user sends (backend/app/services/message_service.py), for the counters.
use kaasb.Common.{
  ℕ, suc, ◌+◌, ◌*◌, Bool, true, false, none, some, List, [], ◌∷◌, String, if◌then◌else◌, ◌==◌, ◌&&◌,
  not, Text,
}
use kaasb.Db.{
  Db, modify, ◌>>=◌, raise_if, Keeps, Keeps-pure, Keeps-modify, Keeps-raise_if, Keeps-bind,
  Keeps-if, Leads, Leads-kept, Leads-bind, User, Conversation, ConversationType, ViolationType,
  ViolationAction, ViolationLog, conversation_coded, user_coded, bad_request, forbidden,
}
use kaasb.Auth.Tokens.{set_user}
use kaasb.Auth.Login.{is_after}
use kaasb.Messages.Filter.{
  Patterns, add_log, log_of, set_violations, suspend, escalate, judge, process_message,
  mask_content, of_kind, is_suspended,
}
use kaasb.Messages.Sending.{
  is_staff, send_to, is_participant, is_staff_override, send_filtered, send_in,
}
use kaasb.Messages.Counting.{IsCounted, HasThread}
use kaasb.Messages.Counters.{Leads-send_to}

module _ (c : Conversation) where
  Keeps-thread :
      (f : Db → Db)
      → ((db : Db) → HasThread c db → HasThread c (f db))
      → Keeps (HasThread c) (modify f)
  Keeps-thread f same = Keeps-modify (HasThread c) f same

  other_tables :
      (us : List User) (ls : List ViolationLog) (db : Db)
      → HasThread c db
      → HasThread c (record db { users = us; violation_logs = ls })
  other_tables us ls db t = record {
    counted = record {
      threads = t.counted.threads;
      known = t.counted.known;
      posted = t.counted.posted;
      counts = t.counted.counts;
    };
    only = t.only;
    id_known = t.id_known;
  }

  module _ (p : Patterns) (now : ℕ) (u : User) (content : Text) where
    Keeps-escalate :
        (skip_urls : Bool) (vtype : ViolationType) (detected : Text) (n : ℕ)
        → Keeps (HasThread c) (escalate p now u content skip_urls vtype detected n)
    unfolding escalate
    Keeps-escalate skip_urls vtype detected n =
        Keeps-if (HasThread c) (n == 1) _ _
          (Keeps-bind (HasThread c) (add_log (log_of u vtype detected ViolationAction.warning)) _
            (Keeps-thread _ (λ db t. other_tables _ _ db t))
            λ _. Keeps-pure (HasThread c) (record {
              content = mask_content p skip_urls content;
              blocked = false;
              warning = true;
              code = some (of_kind vtype);
              total_violations = n;
              suspended_until = none;
            }))
          (Keeps-if (HasThread c) (n == 2) _ _
            (Keeps-bind (HasThread c) (add_log (log_of u vtype detected ViolationAction.blocked)) _
              (Keeps-thread _ (λ db t. other_tables _ _ db t))
              λ _. Keeps-pure (HasThread c) (record {
                content = content;
                blocked = true;
                warning = false;
                code = some (of_kind vtype);
                total_violations = n;
                suspended_until = none;
              }))
            (Keeps-bind (HasThread c) (set_user u.id (suspend (now + 24 * 3_600))) _
              (Keeps-thread _ (λ db t. other_tables _ _ db t))
              λ _.
                Keeps-bind (HasThread c)
                  (add_log (log_of u vtype detected ViolationAction.suspended)) _
                  (Keeps-thread _ (λ db t. other_tables _ _ db t))
                  λ _. Keeps-pure (HasThread c) (record {
                    content = content;
                    blocked = true;
                    warning = false;
                    code = some is_suspended;
                    total_violations = n;
                    suspended_until = some (now + 24 * 3_600);
                  })))

    Keeps-judge :
        (skip_urls : Bool) (found : List (ViolationType × Text))
        → Keeps (HasThread c) (judge p now u content skip_urls found)
    Keeps-judge skip_urls [] = Keeps-pure (HasThread c) _
    Keeps-judge skip_urls ((vtype, detected) ∷ rest) =
        Keeps-bind (HasThread c) (set_user u.id (set_violations (suc u.chat_violations))) _
          (Keeps-thread _ (λ db t. other_tables _ _ db t))
          λ _. Keeps-escalate skip_urls vtype detected (suc u.chat_violations)

    Keeps-process_message :
        (t : ConversationType) → Keeps (HasThread c) (process_message p now u content t)
    unfolding process_message
    Keeps-process_message t =
        Keeps-if (HasThread c) (is_after now u.chat_suspended_until) _ _
          (Keeps-pure (HasThread c) _) (Keeps-judge _ _)

    pub Leads-send_in :
        (attachments : List String)
        → Leads (HasThread c) (send_in p now u content attachments c) (λ _. IsCounted)
    unfolding send_in
    Leads-send_in attachments =
        Leads-bind (HasThread c)
          (raise_if (not (is_participant u c) && not (is_staff_override u c)) forbidden) _
          (λ _. HasThread c) (λ _. IsCounted)
          (Leads-kept (HasThread c) _ (Keeps-raise_if (HasThread c) _ _)) λ _. either (is_staff u)
      where
        either :
            (b : Bool)
            → Leads
                (HasThread c)
                (if b
                  then send_to now u content attachments c
                  else (process_message p now u content c.conversation_type
                      >>= send_filtered now u attachments c))
                (λ _. IsCounted)
        either true = Leads-send_to now u content attachments c
        either false =
            Leads-bind (HasThread c) (process_message p now u content c.conversation_type)
              (send_filtered now u attachments c) (λ _. HasThread c) (λ _. IsCounted)
              (Leads-kept (HasThread c) _ (Keeps-process_message c.conversation_type))
              λ o.
                Leads-bind (HasThread c) (raise_if o.blocked bad_request) _ (λ _. HasThread c)
                  (λ _. IsCounted) (Leads-kept (HasThread c) _ (Keeps-raise_if (HasThread c) _ _))
                  λ _. Leads-send_to now u o.content attachments c
