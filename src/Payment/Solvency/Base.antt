-- ===== src/Payment/Solvency/Base.antt =====
-- A state whose ledger is sound, and how one that is known by equations inherits it.
use kaasb.Common.{
  ℕ, ◌≡◌, sym, subst, subst₂, Bool, List, [], ◌∷◌, All, All-imp, found-OnlyRow, select,
}
use kaasb.Db.{Db, ok, Transaction}
use kaasb.Payment.Ledger.{IsLedger}

abbrev pub IsSound : Db → Type 0
IsSound db = IsLedger db.transactions db.next_id

-- The ledger of a state that is known by equations.
pub carry :
    (db : Db) {ts : List Transaction} {n : ℕ}
    → db.transactions ≡ ts
    → db.next_id ≡ n
    → IsLedger ts n
    → IsSound db
carry db e e' l = subst₂ IsLedger (sym e) (sym e') l

-- A call that wrote nothing.
pub unchanged :
    {A : Type 0} (a : A) (db : Db) (r : A × Db) → ok (a, db) ≡ ok r → IsSound db → IsSound r.1
unchanged a db r h l = let same : db ≡ r.1 = cc in subst IsSound same l

-- The rows under the id of a row that a query found have that row's shares.
pub shares-found :
    (w : Transaction → ℕ) (p : Transaction → Bool) (f : Transaction → Transaction) (t : Transaction)
    (ts : List Transaction) {n : ℕ}
    → IsLedger ts n
    → select p ts ≡ t ∷ []
    → w (f t) ≡ w t
    → All (λ x. x.id ≡ t.id → w (f x) ≡ w x) ts
shares-found w p f t ts l e same =
    All-imp (λ x. x.id ≡ t.id → x ≡ t) (λ x. x.id ≡ t.id → w (f x) ≡ w x)
      (λ x only i. subst (λ y. w (f y) ≡ w y) (sym (only i)) same) ts
      (found-OnlyRow (λ x. x.id) p t [] ts l.distinct e)
