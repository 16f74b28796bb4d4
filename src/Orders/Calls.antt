-- ===== src/Orders/Calls.antt =====
-- What can happen to a service order once it is placed (backend/app/services/catalog_service.py,
-- dispute_service.py, payment_service.py and backend/app/tasks/marketplace_tasks.py), as one type,
-- and a history of it.
use kaasb.Common.{ℕ, String, Option, List, [], ◌∷◌, Text}
use kaasb.Db.{Db, request, ExternalRef}
use kaasb.Payment.Settings.{Settings}
use kaasb.Payment.Confirm.{confirm_qi_card_payment}
use kaasb.Orders.Work.{submit_requirements, mark_delivered, request_revision, complete_order}
use kaasb.Orders.Disputes.{Verdict, raise_dispute, open_dispute, resolve_order, resolve_dispute}
use kaasb.Orders.Tasks.{expire_stale_pending_orders}

-- The order or the dispute, then the user.
pub data Call : Type 0 where
  confirms : ExternalRef → String → Call
  submits : ℕ → ℕ → List String → Call
  delivers : ℕ → ℕ → String → List String → Call
  revises completes : ℕ → ℕ → Call
  raises opens : ℕ → ℕ → Text → Call
  resolves_order : ℕ → ℕ → Verdict → Call
  resolves : ℕ → ℕ → Verdict → Option Text → Call
  expires : Call

module _ (s : Settings) where
  unfoldable pub step : ℕ × Call → Db → Db
  step (now, confirms ref sig) = request (confirm_qi_card_payment s now ref sig)
  step (now, submits k client answers) = request (submit_requirements now k client answers)
  step (now, delivers k user message files) = request (mark_delivered now k user message files)
  step (now, revises k client) = request (request_revision now k client)
  step (now, completes k client) = request (complete_order now k client)
  step (now, raises k client reason) = request (raise_dispute now k client reason)
  step (now, opens k user text) = request (open_dispute now k user text)
  step (now, resolves_order k admin verdict) = request (resolve_order now k admin verdict)
  step (now, resolves k admin verdict notes) = request (resolve_dispute now k admin verdict notes)
  step (now, expires) = λ db. (expire_stale_pending_orders now db).1

  unfoldable pub run : List (ℕ × Call) → Db → Db
  run [] db = db
  run (c ∷ cs) db = run cs (step c db)
