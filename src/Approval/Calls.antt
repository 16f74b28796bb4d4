-- ===== src/Approval/Calls.antt =====
-- The requests of admins for a release (backend/app/services/payout_approval_service.py), as one
-- type, and a history of them.
use kaasb.Common.{ℕ, Option, List, [], ◌∷◌, Text}
use kaasb.Db.{Db, request}
use kaasb.Payment.Settings.{Settings}
use kaasb.Approval.Review.{request_release, approve, reject}

-- The escrow or the approval, the admin and the note.
pub data Call : Type 0 where
  requests approves rejects : ℕ → ℕ → Option Text → Call

module _ (s : Settings) where
  unfoldable pub step : ℕ × Call → Db → Db
  step (now, requests k admin remark) = request (request_release s now k admin remark)
  step (now, approves k admin remark) = request (approve now k admin remark)
  step (now, rejects k admin remark) = request (reject now k admin remark)

  unfoldable pub run : List (ℕ × Call) → Db → Db
  run [] db = db
  run (c ∷ cs) db = run cs (step c db)
