-- ===== src/Payment/Kept.antt =====
-- Predicates of the single transactions and escrows that every money request keeps
-- (backend/app/services/payment_service.py), request by request.
use kaasb.Common.{
  ℕ, ◌≡◌, refl, Bool, true, false, Option, none, some, List, [], ◌∷◌, ◌++◌, All, All-append,
  All-imp, All-update_row, select, ◌==◌, not, suc, length, Bool-cases, inl, inr,
}
use kaasb.Db.{
  Db, gets, modify, raise_if, notify, new_id, set_escrow, set_transaction, add_transaction,
  transaction_checks, integrity, conflict, bad_request, ◌is◌, holds, Keeps, Keeps-ok, Keeps-pure,
  Keeps-bind, Keeps-gets, Keeps-modify, Keeps-raise_if, Keeps-find, Keeps-checked, Transaction,
  TransactionType, Escrow, EscrowStatus, NotificationType, transaction_type_coded,
  transaction_coded, escrow_coded,
}
use kaasb.Payment.Release.{
  release_locked_escrow, release_rows, release_transaction, fee_transaction, mark_released,
  is_expected, release_found, release_checked, release_escrow, release_escrow_by_id,
  funded_milestone_rows, funded_rows, is_payable, payout_accounts,
}

-- What the requests do to a transaction and to an escrow, as conditions on two predicates.
pub record IsKept (p : Transaction → Bool) (q : Escrow → Bool) : Type 0 where
  pub fresh :
      (t : Transaction) → (t.transaction_type is TransactionType.payout) ≡ false → p t ≡ true
  pub moved :
      (t t' : Transaction) → t'.transaction_type ≡ t.transaction_type → p t ≡ true → p t' ≡ true
  pub unlinked :
      (e : Escrow)
      → e.funding_transaction_id ≡ none
      → (e.status is EscrowStatus.funded) ≡ false
      → q e ≡ true
  pub closed :
      (e e' : Escrow)
      → e'.id ≡ e.id
      → e'.funding_transaction_id ≡ e.funding_transaction_id
      → (e'.status is EscrowStatus.funded) ≡ false
      → q e ≡ true
      → q e' ≡ true
  pub linked :
      (k : ℕ) (e x x' : Escrow)
      → holds e.funding_transaction_id k ≡ true
      → q e ≡ true
      → x.id ≡ e.id
      → x'.id ≡ x.id
      → q x ≡ true
      → q x' ≡ true

module _ (p : Transaction → Bool) (q : Escrow → Bool) where
  abbrev pub Rows : Db → Type 0
  Rows db = All (λ t. p t ≡ true) db.transactions × All (λ e. q e ≡ true) db.escrows

  module _ (k : IsKept p q) where
    pub Keeps-new_id : Keeps Rows new_id
    Keeps-new_id =
        Keeps-ok Rows new_id (λ db. (db.next_id, record db { next_id = suc db.next_id }))
          (λ db. refl) (λ db h. h)

    pub Keeps-notify : (u : ℕ) (n : NotificationType) → Keeps Rows (notify u n)
    Keeps-notify u n = Keeps-modify Rows _ λ db h. h

    pub Keeps-add_transaction : (t : Transaction) → p t ≡ true → Keeps Rows (add_transaction t)
    Keeps-add_transaction t h =
        Keeps-checked Rows (λ _. transaction_checks t)
          (λ db. record db { transactions = db.transactions ++ t ∷ [] }) integrity
          λ db r. (All-append (λ x. p x ≡ true) db.transactions (t ∷ []) r.0 (h, tt), r.1)

    pub Keeps-set_transaction :
        (i : ℕ) (f : Transaction → Transaction)
        → ((t : Transaction) → (f t).transaction_type ≡ t.transaction_type)
        → Keeps Rows (set_transaction i f)
    Keeps-set_transaction i f same = Keeps-modify Rows _ λ db r. (
      All-update_row (λ t. t.id) (λ t. p t ≡ true) i f db.transactions
          (All-imp (λ t. p t ≡ true) (λ t. t.id ≡ i → p (f t) ≡ true)
            (λ t h _. k.moved t (f t) (same t) h) db.transactions r.0)
          r.0,
      r.1,
    )

    pub Keeps-set_escrow :
        (i : ℕ) (f : Escrow → Escrow)
        → ((e : Escrow) → e.id ≡ i → q e ≡ true → q (f e) ≡ true)
        → Keeps Rows (set_escrow i f)
    Keeps-set_escrow i f same = Keeps-modify Rows _ λ db r. (
      r.0,
      All-update_row (λ e. e.id) (λ e. q e ≡ true) i f db.escrows
          (All-imp (λ e. q e ≡ true) (λ e. e.id ≡ i → q (f e) ≡ true) (λ e h here. same e here h)
            db.escrows r.1)
          r.1,
    )

    release_rows-All :
        (tx now : ℕ) (e : Escrow) (es : List Escrow)
        → All (λ x. q x ≡ true) es
        → All (λ x. q x ≡ true) (release_rows tx now e es)
    unfolding release_rows
    release_rows-All tx now e [] h = tt
    release_rows-All tx now e (x ∷ xs) h = elim (Bool-cases (is_expected e x)) [
      | inl hit ↦ rw hit (
        k.closed x (mark_released tx now e x) refl refl refl h.0,
        release_rows-All tx now e xs h.1,
      )
      | inr miss ↦ rw miss (h.0, release_rows-All tx now e xs h.1)
    ]

    Keeps-release_locked : (now : ℕ) (e : Escrow) → Keeps Rows (release_locked_escrow now e)
    unfolding release_locked_escrow
    Keeps-release_locked now e = Keeps-bind Rows new_id _ Keeps-new_id λ i.
        Keeps-bind Rows (add_transaction (fee_transaction i now e)) _
          (Keeps-add_transaction (fee_transaction i now e) (k.fresh _ refl))
          λ _. Keeps-bind Rows new_id _ Keeps-new_id λ j. Keeps-bind Rows new_id _ Keeps-new_id λ r.
            Keeps-bind Rows (add_transaction (release_transaction j r now e)) _
              (Keeps-add_transaction (release_transaction j r now e) (k.fresh _ refl))
              λ _.
                Keeps-bind Rows (gets λ db. length (select (is_expected e) db.escrows)) _
                  (Keeps-gets Rows _)
                  λ n.
                    Keeps-bind Rows (raise_if (not (n == 1)) conflict) _ (Keeps-raise_if Rows _ _)
                      λ _.
                        Keeps-bind Rows
                          (modify λ db. record db { escrows = release_rows j now e db.escrows }) _
                          (Keeps-modify Rows _
                            λ db h. (h.0, release_rows-All j now e db.escrows h.1))
                          λ _.
                            Keeps-bind Rows
                              (notify e.freelancer_id NotificationType.payment_received) _
                              (Keeps-notify _ _)
                              λ _. Keeps-pure Rows (record {
                                escrow_id = e.id;
                                amount = e.amount;
                                freelancer_amount = e.freelancer_amount;
                              })

    pub Keeps-release_escrow : (now i : ℕ) → Keeps Rows (release_escrow now i)
    unfolding release_escrow
    Keeps-release_escrow now i = Keeps-find Rows (funded_milestone_rows i) (release_found now) found
      where
        found : (o : Option Escrow) → Keeps Rows (release_found now o)
        found none = Keeps-pure Rows none
        found (some e) =
            Keeps-bind Rows (release_locked_escrow now e) _ (Keeps-release_locked now e)
              λ r. Keeps-pure Rows (some r)

    pub Keeps-release_by_id : (now i : ℕ) → Keeps Rows (release_escrow_by_id now i)
    unfolding release_escrow_by_id
    Keeps-release_by_id now i = Keeps-find Rows (funded_rows i) (release_checked now) checked
      where
        checked : (o : Option Escrow) → Keeps Rows (release_checked now o)
        checked none = Keeps-pure Rows none
        checked (some e) =
            Keeps-bind Rows (gets λ db. is_payable (payout_accounts e.freelancer_id db)) _
              (Keeps-gets Rows _)
              λ b. Keeps-bind Rows (raise_if (not b) bad_request) _ (Keeps-raise_if Rows _ _) λ _.
                Keeps-bind Rows (release_locked_escrow now e) _ (Keeps-release_locked now e)
                  λ r. Keeps-pure Rows (some r)
