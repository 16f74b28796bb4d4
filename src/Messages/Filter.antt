-- ===== src/Messages/Filter.antt =====
-- `MessageFilterService` (backend/app/services/message_filter_service.py): what a message says about
-- contacts outside the platform, and what follows for its sender. What the regular expressions and
-- `urlparse` find in a text is an argument.
use kaasb.Common.{
  ℕ, suc, ◌+◌, ◌*◌, Bool, true, false, Option, none, some, List, [], ◌∷◌, ◌++◌, select, map,
  if◌then◌else◌, ◌==◌, ◌||◌, not, Text, text_eq, take,
}
use kaasb.Db.{
  Action, ◌>>◌, pure, modify, ◌is◌, User, ConversationType, ViolationType, ViolationAction,
  ViolationLog, conversation_coded,
}
use kaasb.Auth.Tokens.{set_user}
use kaasb.Auth.Login.{is_after}

-- `unicodedata.normalize` with the stripping of invisible characters, what `finditer` finds for each
-- pattern and what `sub` leaves, and the host that `urlparse` reads.
pub record Patterns : Type 0 where
  pub normalize : Text → Text
  pub emails : Text → List Text
  pub phones_iraqi : Text → List Text
  pub phones_intl : Text → List Text
  pub urls : Text → List Text
  pub external_apps : Text → List Text
  pub without_emails : Text → Text
  pub without_phones_iraqi : Text → Text
  pub without_phones_intl : Text → Text
  pub without_urls : (Text → Bool) → Text → Text
  pub without_apps : Text → Text
  pub host : Text → Text

-- `s.endswith(t)`
abbrev pub ends_with : Text → Text → Bool
ends_with [] t = text_eq [] t
ends_with (c ∷ s) t = text_eq (c ∷ s) t || ends_with s t

abbrev pub allowed_domain : Text
allowed_domain = b'k' ∷ b'a' ∷ b'a' ∷ b's' ∷ b'b' ∷ b'.' ∷ b'c' ∷ b'o' ∷ b'm' ∷ []

-- `host` is the lower-case host without trailing dots, empty where there is none.
abbrev pub is_allowed_url : Patterns → Text → Bool
is_allowed_url p url =
    let host = p.host url in text_eq host allowed_domain || ends_with host (b'.' ∷ allowed_domain)

abbrev pub found : ViolationType → List Text → List (ViolationType × Text)
found vtype ts = map (λ t. (vtype, t)) ts

unfoldable pub detect_violations : Patterns → Bool → Text → List (ViolationType × Text)
detect_violations p skip_urls content =
    let text = p.normalize content in
    found ViolationType.email (p.emails text)
    ++ (found ViolationType.phone (p.phones_iraqi text)
        ++ (found ViolationType.phone (p.phones_intl text)
            ++ ((if skip_urls
                  then []
                  else found ViolationType.url
                      (select (λ u. not (is_allowed_url p u)) (p.urls text)))
                ++ found ViolationType.external_app (p.external_apps text))))

unfoldable pub mask_content : Patterns → Bool → Text → Text
mask_content p skip_urls content =
    let text =
      p.without_phones_intl (p.without_phones_iraqi (p.without_emails (p.normalize content))) in
    p.without_apps (if skip_urls then text else p.without_urls (is_allowed_url p) text)

-- `code`: the kind of the violation, or the suspension.
pub data OutcomeCode : Type 0 where
  of_kind : ViolationType → OutcomeCode
  is_suspended : OutcomeCode

pub record FilterOutcome : Type 0 where
  pub content : Text
  pub blocked : Bool
  pub warning : Bool
  pub code : Option OutcomeCode
  pub total_violations : ℕ
  pub suspended_until : Option ℕ

abbrev pub add_log : ViolationLog → Action (Unit {0})
add_log l = modify λ db. record db { violation_logs = db.violation_logs ++ l ∷ [] }

abbrev pub log_of : User → ViolationType → Text → ViolationAction → ViolationLog
log_of sender vtype detected action = record {
  user_id = sender.id;
  violation_type = vtype;
  content_detected = take 500 detected;
  action_taken = action;
}

abbrev pub set_violations : ℕ → User → User
set_violations n u = record u { chat_violations = n }

abbrev pub suspend : ℕ → User → User
suspend until u = record u { chat_suspended_until = some until }

-- What follows from the violation that is number `count`; the notifications of the sender and of the
-- admins are sent in the background and are not modelled.
unfoldable pub escalate :
    Patterns → ℕ → User → Text → Bool → ViolationType → Text → ℕ → Action FilterOutcome
escalate p now sender content skip_urls vtype detected count =
    if count == 1
    then (do
      add_log (log_of sender vtype detected ViolationAction.warning)
      pure (record {
        content = mask_content p skip_urls content;
        blocked = false;
        warning = true;
        code = some (of_kind vtype);
        total_violations = count;
        suspended_until = none;
      }))
    else if count == 2
    then (do
      add_log (log_of sender vtype detected ViolationAction.blocked)
      pure (record {
        content = content;
        blocked = true;
        warning = false;
        code = some (of_kind vtype);
        total_violations = count;
        suspended_until = none;
      }))
    else (do
      set_user sender.id (suspend (now + 24 * 3_600))
      add_log (log_of sender vtype detected ViolationAction.suspended)
      pure (record {
        content = content;
        blocked = true;
        warning = false;
        code = some is_suspended;
        total_violations = count;
        suspended_until = some (now + 24 * 3_600);
      }))

abbrev pub clean : Text → FilterOutcome
clean content = record {
  content = content;
  blocked = false;
  warning = false;
  code = none;
  total_violations = 0;
  suspended_until = none;
}

abbrev pub judge :
    Patterns → ℕ → User → Text → Bool → List (ViolationType × Text) → Action FilterOutcome
judge p now sender content skip_urls [] = pure (clean (p.normalize content))
judge p now sender content skip_urls ((vtype, detected) ∷ rest) = do
  set_user sender.id (set_violations (suc sender.chat_violations))
  escalate p now sender content skip_urls vtype detected (suc sender.chat_violations)

unfoldable pub process_message :
    Patterns → ℕ → User → Text → ConversationType → Action FilterOutcome
process_message p now sender content conversation_type =
    let skip_urls = conversation_type is ConversationType.order in
    if is_after now sender.chat_suspended_until
    then pure (record {
      content = content;
      blocked = true;
      warning = false;
      code = some is_suspended;
      total_violations = sender.chat_violations;
      suspended_until = sender.chat_suspended_until;
    })
    else judge p now sender content skip_urls (detect_violations p skip_urls content)
