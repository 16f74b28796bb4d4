-- ===== src/Messages/Calls.antt =====
-- The requests about messages (backend/app/api/v1/endpoints/messages.py), each by the current user,
-- and a history of them.
use kaasb.Common.{ℕ, Option, List, [], ◌∷◌, String, Text}
use kaasb.Db.{Db, request, user_coded}
use kaasb.Auth.Current.{as_user}
use kaasb.Messages.Filter.{Patterns}
use kaasb.Messages.Sending.{send_message}
use kaasb.Messages.Starting.{start_conversation, contact_support, get_or_create_system_conversation}
use kaasb.Messages.Threads.{
  get_messages, claim_support_ticket, resolve_support_ticket, reopen_support_ticket,
  release_support_ticket,
}

pub data Call : Type 0 where
  sends : ℕ → Text → List String → Call
  starts : ℕ → Option ℕ → Option ℕ → Text → Call
  contacts : Text → Option ℕ → Call
  reads claims resolves reopens releases : ℕ → Call

-- What the user of the id does, or the platform for two users.
pub data Event : Type 0 where
  by_user : ℕ → Call → Event
  by_platform : ℕ → ℕ → Option ℕ → Option ℕ → Text → Event

module _ (p : Patterns) where
  abbrev pub act : ℕ → ℕ → Call → Db → Db
  act now k (sends c content attachments) =
      request (as_user k λ u. send_message p now u c content attachments)
  act now k (starts recipient job order content) =
      request (as_user k λ u. start_conversation now u recipient job order content)
  act now k (contacts content order) = request (as_user k λ u. contact_support now u content order)
  act now k (reads c) = request (as_user k λ u. get_messages now u c)
  act now k (claims c) = request (as_user k λ u. claim_support_ticket c u)
  act now k (resolves c) = request (as_user k λ u. resolve_support_ticket now c u)
  act now k (reopens c) = request (as_user k λ u. reopen_support_ticket c u)
  act now k (releases c) = request (as_user k λ u. release_support_ticket c u)

  unfoldable pub step : ℕ × Event → Db → Db
  step (now, by_user k call) = act now k call
  step (now, by_platform client freelancer job order content) =
      request (get_or_create_system_conversation now client freelancer job order content)

  unfoldable pub run : List (ℕ × Event) → Db → Db
  run [] db = db
  run (e ∷ es) db = run es (step e db)
