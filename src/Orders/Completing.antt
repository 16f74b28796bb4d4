-- ===== src/Orders/Completing.antt =====
-- What `complete_order` pays (backend/app/services/catalog_service.py).
use kaasb.Common.{
  ℕ, suc, ◌+◌, ◌<◌, not, ◌==◌, ◌&&◌, ◌≡◌, ◌≢◌, refl, sym, ap, subst, ◌∙◌, Bool, true, Bool-cases,
  inl, inr, some, List, [], ◌∷◌, ◌++◌, All, All-imp, All-of, Distinct, length, select,
  select-single, select-update_row, sum_of-append, found-test, found-All, cons-head, arith, ==_refl,
  ==→eq,
}
use kaasb.Db.{
  transaction_coded, Db, Action, ok, ◌is◌, order_coded, escrow_coded, find_one-run, bind-run,
  add_transaction, add_transaction-run, gets, raise_if, conflict, modify, notify, new_id, holds,
  ◌>>=◌, ◌>>◌, pure, Escrow, payment_received, EscrowStatus, ServiceOrder, ServiceOrderStatus,
}
use kaasb.Payment.Confirm.{update_order}
use kaasb.Payment.Release.{
  release_locked_escrow, release_rows, is_expected, fee_transaction, release_transaction,
  ReleaseResponse,
}
use kaasb.Payment.Releasing.{Released, release_locked-Released, release_rows-select}
use kaasb.Payment.Payout.{total_released, released_share}
use kaasb.Orders.Work.{
  order_rows, or_missing, funded_order_rows, complete_order, complete_checked, complete,
  finish_order, release_or_skip,
}

-- Ids are unique: the UPDATE of a release selects its row alone.
expected-none :
    (e : Escrow) (es : List Escrow)
    → All (λ x. x.id ≢ e.id) es
    → length (select (is_expected e) es) ≡ 0
expected-none e [] h = refl
expected-none e (x ∷ es) h = ground (arith, h.0, expected-none e es h.1)

expected-one :
    (p : Escrow → Bool) (e : Escrow) (es : List Escrow)
    → Distinct (λ x. x.id) es
    → select p es ≡ e ∷ []
    → (e.status is EscrowStatus.funded) ≡ true
    → length (select (is_expected e) es) ≡ 1
expected-one p e [] d h f = absurd (cc)
expected-one p e (x ∷ es) d h f = elim (Bool-cases (p x)) [
  | inl hit ↦
      let same : x ≡ e = cons-head (rw hit at h) in
      let rest = expected-none e es (subst (λ y. All (λ z. z.id ≢ y.id) es) same d.0) in
      let self : is_expected e x ≡ true =
        subst (λ y. is_expected e y ≡ true) (sym same) (ground (arith, f)) in
      rw self (ap suc rest)
  | inr miss ↦
      let later = rw miss at h in
      let apart = (found-All (λ y. y.id ≢ x.id) p e [] es d.0 later).0 in
      ground (arith, expected-one p e es d.1 later f, apart)
]

abbrev response : Escrow → ReleaseResponse
response e = record { escrow_id = e.id; amount = e.amount; freelancer_amount = e.freelancer_amount }

abbrev released_db : ℕ → Escrow → Db → Db
released_db now e db = record db {
  transactions =
      (db.transactions ++ fee_transaction db.next_id now e ∷ [])
      ++ release_transaction (suc db.next_id) (suc (suc db.next_id)) now e ∷ [];
  escrows = release_rows (suc db.next_id) now e db.escrows;
  notifications =
      db.notifications ++ record { user_id = e.freelancer_id; kind = payment_received } ∷ [];
  next_id = suc (suc (suc db.next_id));
}

-- The steps of a release after each of its two rows.
abbrev finish_release : ℕ → Escrow → ℕ → Action ReleaseResponse
finish_release now e release_id = do
  rowcount ← gets λ db. length (select (is_expected e) db.escrows)
  raise_if (not (rowcount == 1)) conflict
  modify λ db. record db { escrows = release_rows release_id now e db.escrows }
  notify e.freelancer_id payment_received
  pure (response e)

abbrev record_release : ℕ → Escrow → Action ReleaseResponse
record_release now e = do
  release_id ← new_id
  reference ← new_id
  add_transaction (release_transaction release_id reference now e)
  finish_release now e release_id

release_locked-run :
    (now : ℕ) (e : Escrow) (db : Db)
    → 0 < e.platform_fee
    → 0 < e.freelancer_amount
    → length (select (is_expected e) db.escrows) ≡ 1
    → release_locked_escrow now e db ≡ ok (response e, released_db now e db)
unfolding release_locked_escrow
release_locked-run now e db fee amount one =
    let n = db.next_id in
    let fee_tx = fee_transaction n now e in
    let paid = release_transaction (suc n) (suc (suc n)) now e in
    let db1 : Db = record db { next_id = suc n } in
    let db2 : Db = record db {
      next_id = suc (suc (suc n));
      transactions = db.transactions ++ fee_tx ∷ [];
    } in
    let db3 : Db = record db2 { transactions = db2.transactions ++ paid ∷ [] } in
    bind-run (add_transaction fee_tx) (λ _. record_release now e) db1
      (add_transaction-run fee_tx db1 (ground arith))
    ∙ bind-run (add_transaction paid) (λ _. finish_release now e (suc n)) db2
        (add_transaction-run paid db2 (ground arith))
    ∙ rw one refl

total_released-Released :
    (now : ℕ) (e : Escrow) (db db' : Db)
    → Released now e db db'
    → total_released e.freelancer_id db'.transactions
      ≡ total_released e.freelancer_id db.transactions + e.freelancer_amount
total_released-Released now e db db' r =
    let u = e.freelancer_id in
    let n = db.next_id in
    let fee = fee_transaction n now e in
    let paid = release_transaction (suc n) (suc (suc n)) now e in
    let share : released_share u paid ≡ e.freelancer_amount = rw (==_refl u) refl in
    omega (
      arith,
      ap (total_released u) r.transactions,
      sum_of-append (released_share u) (db.transactions ++ fee ∷ []) (paid ∷ []),
      sum_of-append (released_share u) db.transactions (fee ∷ []),
      share,
    )

funded_order_rows-Released :
    (now k : ℕ) (e : Escrow) (db db' : Db)
    → funded_order_rows k db ≡ e ∷ []
    → Released now e db db'
    → funded_order_rows k db' ≡ []
funded_order_rows-Released now k e db db' found r =
    let q : Escrow → Bool = λ x. holds x.service_order_id k && (x.status is EscrowStatus.funded) in
    let here = found-test q e [] db.escrows found in
    let self : is_expected e e ≡ true = ground (arith, here) in
    ap (select q) r.escrows
    ∙ release_rows-select (suc db.next_id) now e q db.escrows
        (All-imp (λ x. q x ≡ true → x ≡ e) (λ x. q x ≡ true → is_expected e x ≡ true)
          (λ x same pass. subst (λ y. is_expected e y ≡ true) (sym (same pass)) self) db.escrows
          (select-single q e db.escrows found))
        (All-of (λ x. ground arith) db.escrows)

-- Completing a delivered order, by its client, returns; the order is COMPLETED, no escrow of it is
-- FUNDED any more, and the freelancer's released total grows by exactly the freelancer's part of
-- the escrow. The order has one funded escrow, with a positive fee and part, and escrow ids are
-- unique.
pub complete_order-pays :
    (now k : ℕ) (o : ServiceOrder) (e : Escrow) (db : Db)
    → order_rows k db ≡ o ∷ []
    → (o.status is ServiceOrderStatus.delivered) ≡ true
    → funded_order_rows k db ≡ e ∷ []
    → Distinct (λ x. x.id) db.escrows
    → 0 < e.platform_fee
    → 0 < e.freelancer_amount
    → (db' : Db) × (complete_order now k o.client_id db ≡ ok (o.id, db'))
      × (order_rows k db' ≡ complete now o ∷ [])
      × (funded_order_rows k db' ≡ [])
      × (total_released e.freelancer_id db'.transactions
          ≡ total_released e.freelancer_id db.transactions + e.freelancer_amount)
unfolding complete_order complete_checked finish_order
complete_order-pays now k o e db found delivered funded distinct fee part =
    let db0 : Db = record db { orders = update_order o.id (complete now) db.orders } in
    let at_k = ==→eq o.id k (found-test (λ x. x.id == k) o [] db.orders found) in
    let q : Escrow → Bool = λ x. holds x.service_order_id k && (x.status is EscrowStatus.funded) in
    let here = found-test q e [] db.escrows funded in
    let one = expected-one q e db.escrows distinct funded (ground (arith, here)) in
    let released = release_locked-run now e db0 fee part one in
    let r : ReleaseResponse × Db = (response e, released_db now e db0) in
    let d = release_locked-Released now e db0 released in
    let finished : finish_order now o db ≡ ok (tt, r.1) =
      find_one-run (funded_order_rows o.id) (release_or_skip now) db0 (some e)
        (subst (λ i. funded_order_rows i db ≡ e ∷ []) (sym at_k) funded)
      ∙ bind-run (release_locked_escrow now e) (λ _. pure tt) db0 released in
    let rows : order_rows k r.1 ≡ complete now o ∷ [] =
      ap (select (λ x. x.id == k)) d.orders
      ∙ select-update_row (λ x. x.id) (λ x. x.id == k) o.id (complete now) (λ _. refl) db.orders
      ∙ ap (update_order o.id (complete now)) found
      ∙ rw (==_refl o.id) refl in
    (
      r.1,
      find_one-run (order_rows k) (or_missing (complete_checked now o.client_id)) db (some o) found
          ∙ rw (==_refl o.client_id)
              (rw delivered (bind-run (finish_order now o) (λ _. pure o.id) db finished)),
      rows,
      funded_order_rows-Released now k e db0 r.1 funded d,
      total_released-Released now e db0 r.1 d,
    )
