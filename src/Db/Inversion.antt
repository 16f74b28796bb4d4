-- ===== src/Db/Inversion.antt =====
-- What the parts of an action did, from a run of it that succeeded.
use kaasb.Common.{
  if◌then◌else◌, ◌++◌, ◌≡◌, refl, ap, Bool, true, false, Option, none, some, List, [], ◌∷◌,
}
use kaasb.Db.Session.{
  Db, Result, ok, err, Error, multiple_results, Action, ◌>>=◌, one_or_none, find_one, raise_if,
  or_raise, integrity, transaction_checks, add_transaction,
}
use kaasb.Db.Rows.{Transaction}

-- The rows that a query had, by what `scalar_one_or_none` made of them.
abbrev pub to_list {ℓ} : {A : Type ℓ} → Option A → List A
to_list none = []
to_list (some a) = a ∷ []

module _ {A B : Type 0} where
  result-inv :
      (x : Result (A × Db)) (f : A → Action B) (db : Db) {r : B × Db}
      → ((λ _. x) >>= f) db ≡ ok r
      → (a : A) × (db1 : Db) × (x ≡ ok (a, db1)) × (f a db1 ≡ ok r)
  result-inv (ok (a, db1)) f db h = (a, db1, refl, h)
  result-inv (err e) f db h = absurd (cc)

  pub bind-inv :
      (m : Action A) (f : A → Action B) (db : Db) {r : B × Db}
      → (m >>= f) db ≡ ok r
      → (a : A) × (db1 : Db) × (m db ≡ ok (a, db1)) × (f a db1 ≡ ok r)
  bind-inv m f db h = result-inv (m db) f db h

  -- An action that is known to return goes on with its value.
  pub bind-run :
      (m : Action A) (f : A → Action B) (db : Db) {a : A} {db1 : Db}
      → m db ≡ ok (a, db1)
      → (m >>= f) db ≡ f a db1
  bind-run m f db h = ap (λ x. ((λ _. x) >>= f) db) h

  -- An action that is known to fail fails with what follows.
  pub bind-fails :
      (m : Action A) (f : A → Action B) (db : Db) {e : Error} → m db ≡ err e → (m >>= f) db ≡ err e
  bind-fails m f db h = ap (λ x. ((λ _. x) >>= f) db) h

  rows-inv :
      (xs : List A) (f : Option A → Action B) (db : Db) {r : B × Db}
      → (one_or_none xs >>= f) db ≡ ok r
      → (a : Option A) × (xs ≡ to_list a) × (f a db ≡ ok r)
  rows-inv [] f db h = (none, refl, h)
  rows-inv (x ∷ []) f db h = (some x, refl, h)
  rows-inv (x ∷ y ∷ rest) f db h = absurd (cc)

  pub find-inv :
      (q : Db → List A) (f : Option A → Action B) (db : Db) {r : B × Db}
      → (find_one q >>= f) db ≡ ok r
      → (a : Option A) × (q db ≡ to_list a) × (f a db ≡ ok r)
  find-inv q f db h = rows-inv (q db) f db h

  -- A query that has one row or none goes on with what it found.
  pub find_one-run :
      (q : Db → List A) (f : Option A → Action B) (db : Db) (a : Option A)
      → q db ≡ to_list a
      → (find_one q >>= f) db ≡ f a db
  find_one-run q f db none e = ap (λ xs. (one_or_none xs >>= f) db) e
  find_one-run q f db (some a) e = ap (λ xs. (one_or_none xs >>= f) db) e

  -- A query that has two rows or more raises.
  pub find_one-multiple :
      (q : Db → List A) (f : Option A → Action B) (db : Db) (a b : A) (rest : List A)
      → q db ≡ a ∷ b ∷ rest
      → (find_one q >>= f) db ≡ err multiple_results
  find_one-multiple q f db a b rest e = ap (λ xs. (one_or_none xs >>= f) db) e

  pub or_raise-inv :
      (o : Option A) (e : Error) (f : A → Action B) (db : Db) {r : B × Db}
      → (or_raise o e >>= f) db ≡ ok r
      → (a : A) × (o ≡ some a) × (f a db ≡ ok r)
  or_raise-inv none e f db h = absurd (cc)
  or_raise-inv (some a) e f db h = (a, refl, h)

pub raise_if-inv :
    {B : Type 0} (b : Bool) (e : Error) (m : Action B) (db : Db) {r : B × Db}
    → (raise_if b e >>= λ _. m) db ≡ ok r
    → (b ≡ false) × (m db ≡ ok r)
raise_if-inv true e m db h = absurd (cc)
raise_if-inv false e m db h = (refl, h)

-- An insert that a constraint may refuse, and what follows it.
pub checked-inv :
    {B : Type 0} (b : Bool) (x : Db) (e : Error) (m : Action B) (db : Db) {r : B × Db}
    → ((λ _. if b then ok (tt, x) else err e) >>= λ _. m) db ≡ ok r
    → (b ≡ true) × (m x ≡ ok r)
checked-inv true x e m db h = (refl, h)
checked-inv false x e m db h = absurd (cc)

pub add_transaction-run :
    (t : Transaction) (db : Db)
    → transaction_checks t ≡ true
    → add_transaction t db ≡ ok (tt, record db { transactions = db.transactions ++ t ∷ [] })
add_transaction-run t db h =
    ap
      (λ b.
        if b
        then ok (tt, record db { transactions = db.transactions ++ t ∷ [] })
        else err integrity)
      h

pub raise_if-run :
    {B : Type 0} (b : Bool) (e : Error) (m : Action B) (db : Db)
    → b ≡ false
    → (raise_if b e >>= λ _. m) db ≡ m db
raise_if-run b e m db h = ap (λ x. (raise_if x e >>= λ _. m) db) h
