-- ===== src/Orders/Machine.antt =====
-- The states of a service order (backend/app/models/service.py, `ServiceOrderStatus`), as an
-- abstract machine, and what it means that tables follow it.
use kaasb.Common.{
  ℕ, ◌≡◌, refl, sym, ap, subst, ◌∙◌, true, Bool-cases, inl, inr, Option, none, some, [], ◌∷◌,
  select, select-update_row, found-test, cons-head, ◌==◌, ==→eq,
}
use kaasb.Db.{Db, Action, ok, find-inv, to_list, order_coded, ServiceOrder, ServiceOrderStatus}
use kaasb.Payment.Confirm.{update_order}
use kaasb.Orders.Work.{order_rows, or_missing, with_order}
use kaasb.Orders.Disputes.{is_disputable}

-- The moves of one order.
pub data Moves : ServiceOrderStatus → ServiceOrderStatus → Type 0 where
  paid : Moves ServiceOrderStatus.pending ServiceOrderStatus.in_progress
  paid_with_questions : Moves ServiceOrderStatus.pending ServiceOrderStatus.pending_requirements
  expired : Moves ServiceOrderStatus.pending ServiceOrderStatus.cancelled
  answered : Moves ServiceOrderStatus.pending_requirements ServiceOrderStatus.in_progress
  delivers : Moves ServiceOrderStatus.in_progress ServiceOrderStatus.delivered
  redelivers : Moves ServiceOrderStatus.revision_requested ServiceOrderStatus.delivered
  revises : Moves ServiceOrderStatus.delivered ServiceOrderStatus.revision_requested
  completes : Moves ServiceOrderStatus.delivered ServiceOrderStatus.completed
  disputes : {s : ServiceOrderStatus} → is_disputable s ≡ true → Moves s ServiceOrderStatus.disputed
  releases : Moves ServiceOrderStatus.disputed ServiceOrderStatus.completed
  refunds : Moves ServiceOrderStatus.disputed ServiceOrderStatus.cancelled

pub data Reaches : ServiceOrderStatus → ServiceOrderStatus → Type 0 where
  stay : {s : ServiceOrderStatus} → Reaches s s
  move : {s t u : ServiceOrderStatus} → Moves s t → Reaches t u → Reaches s u

pub Reaches-trans : {s t u : ServiceOrderStatus} → Reaches s t → Reaches t u → Reaches s u
Reaches-trans stay r = r
Reaches-trans (move m q) r = move m (Reaches-trans q r)

-- The order under `k`, if there is one, is still there, in a state that the machine reaches.
abbrev pub Advance : ℕ → Db → Db → Type 0
Advance k db db' =
    (o : ServiceOrder)
    → order_rows k db ≡ o ∷ []
    → (p : ServiceOrder) × (order_rows k db' ≡ p ∷ []) × Reaches o.status p.status

pub Advance-trans : (k : ℕ) (a b c : Db) → Advance k a b → Advance k b c → Advance k a c
Advance-trans k a b c f g o h =
    let (p, found, r) = f o h in let (q, found', r') = g p found in (q, found', Reaches-trans r r')

pub Advance-same : (k : ℕ) (db db' : Db) → db'.orders ≡ db.orders → Advance k db db'
Advance-same k db db' e o h = (o, ap (select (λ x. x.id == k)) e ∙ h, stay)

-- A write to the order that was found under `j`, by a move of the machine.
pub Advance-update :
    (k j : ℕ) (o : ServiceOrder) (f : ServiceOrder → ServiceOrder) (db db' : Db)
    → order_rows j db ≡ o ∷ []
    → ((x : ServiceOrder) → (f x).id ≡ x.id)
    → Moves o.status (f o).status
    → db'.orders ≡ update_order o.id f db.orders
    → Advance k db db'
Advance-update k j o f db db' found same m e p here =
    let rows : order_rows k db' ≡ update_order o.id f (p ∷ []) =
      ap (select (λ x. x.id == k)) e
      ∙ select-update_row (λ x. x.id) (λ x. x.id == k) o.id f (λ x. ap (λ i. i == k) (same x))
          db.orders
      ∙ ap (update_order o.id f) here in
    elim (Bool-cases (p.id == o.id)) [
      | inr apart ↦ (p, rows ∙ rw apart refl, stay)
      | inl same_id ↦
          let p_k = ==→eq p.id k (found-test (λ x. x.id == k) p [] db.orders here) in
          let o_j = ==→eq o.id j (found-test (λ x. x.id == j) o [] db.orders found) in
          let j_k : j ≡ k = sym o_j ∙ sym (==→eq p.id o.id same_id) ∙ p_k in
          let one : o ≡ p = cons-head (sym found ∙ ap (λ i. order_rows i db) j_k ∙ here) in
          (f p, rows ∙ rw same_id refl, move (subst (λ x. Moves x.status (f x).status) one m) stay)
    ]

pub with_order-inv :
    {A : Type 0} (k : ℕ) (f : ServiceOrder → Action A) (db : Db) {r : A × Db}
    → with_order k f db ≡ ok r
    → (o : ServiceOrder) × (order_rows k db ≡ o ∷ []) × (f o db ≡ ok r)
with_order-inv k f db {r} h =
    let (x, rows, h') = find-inv (order_rows k) (or_missing f) db h in found x rows h'
  where
    found :
        (x : Option ServiceOrder)
        → order_rows k db ≡ to_list x
        → or_missing f x db ≡ ok r
        → (o : ServiceOrder) × (order_rows k db ≡ o ∷ []) × (f o db ≡ ok r)
    found none rows h' = absurd (cc)
    found (some o) rows h' = (o, rows, h')
