-- ===== src/Orders/Runs.antt =====
-- Orders over any history (backend/app/services/catalog_service.py): they follow the machine, and an
-- order that is completed or cancelled stays so.
use kaasb.Common.{ℕ, ◌≡◌, refl, Bool, true, List, [], ◌∷◌, ◌||◌, false, arith}
use kaasb.Db.{
  Db, ok, err, Action, Result, request, ◌is◌, order_coded, ServiceOrder, ServiceOrderStatus,
}
use kaasb.Payment.Settings.{Settings}
use kaasb.Payment.Confirm.{confirm_qi_card_payment}
use kaasb.Orders.Work.{
  order_rows, submit_requirements, mark_delivered, request_revision, complete_order,
}
use kaasb.Orders.Disputes.{
  raise_dispute, open_dispute, resolve_order, resolve_dispute, is_disputable,
}
use kaasb.Orders.Machine.{Moves, Reaches, stay, move, Reaches-trans, Advance, Advance-same}
use kaasb.Orders.Progress.{
  submit_requirements-Advance, mark_delivered-Advance, request_revision-Advance,
  complete_order-Advance,
}
use kaasb.Orders.Disputing.{raise_dispute-Advance, open_dispute-Advance}
use kaasb.Orders.Resolving.{resolve_order-Advance, resolve_dispute-Advance}
use kaasb.Orders.Paying.{confirm-Advance, expire-Advance}
use kaasb.Orders.Calls.{
  Call, confirms, submits, delivers, revises, completes, raises, opens, resolves_order, resolves,
  expires, step, run,
}

result-Advance :
    {A : Type 0} (k : ℕ) (x : Result (A × Db)) (db : Db)
    → ((r : A × Db) → x ≡ ok r → Advance k db r.1)
    → Advance k db (request (λ _. x) db)
result-Advance k (ok r) db h = h r refl
result-Advance k (err e) db h = Advance-same k db db refl

-- A request that follows the machine where it returns follows it where it raises.
request-Advance :
    {A : Type 0} (k : ℕ) (m : Action A) (db : Db)
    → ((r : A × Db) → m db ≡ ok r → Advance k db r.1)
    → Advance k db (request m db)
request-Advance k m db h = result-Advance k (m db) db h

module _ (s : Settings) (k : ℕ) where
  step-Advance : (c : ℕ × Call) (db : Db) → Advance k db (step s c db)
  unfolding step
  step-Advance (now, confirms ref sig) db =
      request-Advance k (confirm_qi_card_payment s now ref sig) db
        (λ r. confirm-Advance s now ref sig k db)
  step-Advance (now, submits j client answers) db =
      request-Advance k (submit_requirements now j client answers) db
        (λ r. submit_requirements-Advance now j client answers k db)
  step-Advance (now, delivers j user message files) db =
      request-Advance k (mark_delivered now j user message files) db
        (λ r. mark_delivered-Advance now j user message files k db)
  step-Advance (now, revises j client) db =
      request-Advance k (request_revision now j client) db
        (λ r. request_revision-Advance now j client k db)
  step-Advance (now, completes j client) db =
      request-Advance k (complete_order now j client) db
        (λ r. complete_order-Advance now j client k db)
  step-Advance (now, raises j client reason) db =
      request-Advance k (raise_dispute now j client reason) db
        (λ r. raise_dispute-Advance now j client reason k db)
  step-Advance (now, opens j user text) db =
      request-Advance k (open_dispute now j user text) db
        (λ r. open_dispute-Advance now j user text k db)
  step-Advance (now, resolves_order j admin verdict) db =
      request-Advance k (resolve_order now j admin verdict) db
        (λ r. resolve_order-Advance now j admin verdict k db)
  step-Advance (now, resolves j admin verdict notes) db =
      request-Advance k (resolve_dispute now j admin verdict notes) db
        (λ r. resolve_dispute-Advance now j admin verdict notes k db)
  step-Advance (now, expires) db = expire-Advance now k db

  -- After any history of what can happen to placed orders, an order is still there and its status
  -- is one that the machine reaches from its old one.
  pub run-Reaches :
      (cs : List (ℕ × Call)) (db : Db) (o : ServiceOrder)
      → order_rows k db ≡ o ∷ []
      → (p : ServiceOrder) × (order_rows k (run s cs db) ≡ p ∷ []) × Reaches o.status p.status
  unfolding run
  run-Reaches [] db o h = (o, h, stay)
  run-Reaches (c ∷ cs) db o h =
      let (p, found, r) = step-Advance c db o h in
      let (q, found', r') = run-Reaches cs (step s c db) p found in (q, found', Reaches-trans r r')

abbrev pub is_final : ServiceOrderStatus → Bool
is_final t = (t is ServiceOrderStatus.completed) || (t is ServiceOrderStatus.cancelled)

disputable_not_final : (t : ServiceOrderStatus) → is_disputable t ≡ true → is_final t ≡ false
disputable_not_final t h = ground arith

-- No move leaves a final state.
Moves_not_final : {t u : ServiceOrderStatus} → Moves t u → is_final t ≡ false
Moves_not_final Moves.paid = refl
Moves_not_final Moves.paid_with_questions = refl
Moves_not_final Moves.expired = refl
Moves_not_final Moves.answered = refl
Moves_not_final Moves.delivers = refl
Moves_not_final Moves.redelivers = refl
Moves_not_final Moves.revises = refl
Moves_not_final Moves.completes = refl
Moves_not_final {t} (Moves.disputes d) = disputable_not_final t d
Moves_not_final Moves.releases = refl
Moves_not_final Moves.refunds = refl

final-Reaches : {t u : ServiceOrderStatus} → Reaches t u → is_final t ≡ true → u ≡ t
final-Reaches stay h = refl
final-Reaches (move m r) h = absurd (cc (Moves_not_final m))

-- An order that is completed or cancelled keeps its status through any history.
pub run-final :
    (s : Settings) (k : ℕ) (cs : List (ℕ × Call)) (db : Db) (o : ServiceOrder)
    → order_rows k db ≡ o ∷ []
    → is_final o.status ≡ true
    → (p : ServiceOrder) × (order_rows k (run s cs db) ≡ p ∷ []) × (p.status ≡ o.status)
run-final s k cs db o h f =
    let (p, found, r) = run-Reaches s k cs db o h in (p, found, final-Reaches r f)
