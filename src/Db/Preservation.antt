-- ===== src/Db/Preservation.antt =====
-- Actions that keep a predicate of the tables, by the shape of their code: what fails keeps
-- anything, since the request rolls back.
use kaasb.Common.{
  ◌≡◌, refl, subst, sym, ◌∙◌, Bool, true, false, Option, none, some, List, [], ◌∷◌, if◌then◌else◌,
}
use kaasb.Db.Session.{
  Db, Result, ok, err, Error, Action, ◌>>=◌, pure, raise, gets, modify, raise_if, when, find_one,
  request, request-keeps, one_or_none, or_raise,
}
use kaasb.Db.Inversion.{bind-inv, find-inv, to_list}

-- `P` holds after every run that returns, if it held before.
pub record Keeps {A : Type 0} (P : Db → Type 0) (m : Action A) : Type 0 where
  pub keeps : (db : Db) (r : A × Db) → m db ≡ ok r → P db → P r.1

pub ok-inj : {A : Type 0} {r s : A} → Result.ok r ≡ Result.ok s → r ≡ s
ok-inj h = cc

module _ (P : Db → Type 0) where
  pub Keeps-ok :
      {A : Type 0} (m : Action A) (f : Db → A × Db)
      → ((db : Db) → m db ≡ ok (f db))
      → ((db : Db) → P db → P (f db).1)
      → Keeps P m
  Keeps-ok m f runs h = record {
    keeps = λ db r e p. subst (λ x. P x.1) (ok-inj (sym (runs db) ∙ e)) (h db p);
  }

  pub Keeps-pure : {A : Type 0} (a : A) → Keeps P (pure a)
  Keeps-pure a = Keeps-ok (pure a) (λ db. (a, db)) (λ db. refl) (λ db p. p)

  pub Keeps-gets : {A : Type 0} (f : Db → A) → Keeps P (gets f)
  Keeps-gets f = Keeps-ok (gets f) (λ db. (f db, db)) (λ db. refl) (λ db p. p)

  pub Keeps-raise : {A : Type 0} (e : Error) → Keeps P (raise {A = A} e)
  Keeps-raise e = record { keeps = λ db r h p. absurd (cc) }

  pub Keeps-modify : (f : Db → Db) → ((db : Db) → P db → P (f db)) → Keeps P (modify f)
  Keeps-modify f h = Keeps-ok (modify f) (λ db. (tt, f db)) (λ db. refl) h

  pub Keeps-raise_if : (b : Bool) (e : Error) → Keeps P (raise_if b e)
  Keeps-raise_if true e = Keeps-raise e
  Keeps-raise_if false e = Keeps-pure tt

  pub Keeps-when : (b : Bool) (m : Action (Unit {0})) → Keeps P m → Keeps P (when b m)
  Keeps-when true m h = h
  Keeps-when false m h = Keeps-pure tt

  pub Keeps-or_raise : {A : Type 0} (o : Option A) (e : Error) → Keeps P (or_raise o e)
  Keeps-or_raise none e = Keeps-raise e
  Keeps-or_raise (some a) e = Keeps-pure a

  pub Keeps-bind :
      {A B : Type 0} (m : Action A) (f : A → Action B)
      → Keeps P m
      → ((a : A) → Keeps P (f a))
      → Keeps P (m >>= f)
  Keeps-bind m f hm hf = record {
    keeps = λ db r e p.
        let (a, db1, first, rest) = bind-inv m f db e in
        (hf a).keeps db1 r rest (hm.keeps db (a, db1) first p);
  }

  Keeps-rows : {A : Type 0} (xs : List A) → Keeps P (one_or_none xs)
  Keeps-rows [] = Keeps-pure none
  Keeps-rows (x ∷ []) = Keeps-pure (some x)
  Keeps-rows (x ∷ y ∷ rest) = Keeps-raise Error.multiple_results

  pub Keeps-find_one : {A : Type 0} (q : Db → List A) → Keeps P (find_one q)
  Keeps-find_one q = record { keeps = λ db r e p. (Keeps-rows (q db)).keeps db r e p }

  pub Keeps-find :
      {A B : Type 0} (q : Db → List A) (f : Option A → Action B)
      → ((o : Option A) → Keeps P (f o))
      → Keeps P (find_one q >>= f)
  Keeps-find q f h = Keeps-bind (find_one q) f (Keeps-find_one q) h

  pub Keeps-if :
      {A : Type 0} (b : Bool) (m n : Action A)
      → Keeps P m
      → Keeps P n
      → Keeps P (if b then m else n)
  Keeps-if true m n hm hn = hm
  Keeps-if false m n hm hn = hn

  check-inv :
      (b : Bool) (x : Db) (e : Error) (r : Unit {0} × Db)
      → (if b then Result.ok (tt, x) else err e) ≡ ok r
      → P x
      → P r.1
  check-inv true x e r h p = subst (λ y. P y.1) (ok-inj h) p
  check-inv false x e r h p = absurd (cc)

  -- An insert that a constraint may refuse.
  pub Keeps-checked :
      (test : Db → Bool) (f : Db → Db) (e : Error)
      → ((db : Db) → P db → P (f db))
      → Keeps P (λ db. if test db then ok (tt, f db) else err e)
  Keeps-checked test f e h = record {
    keeps = λ db r eq p. check-inv (test db) (f db) e r eq (h db p);
  }

  -- What ends in an exception writes nothing.
  pub Keeps-raises :
      {A B : Type 0} (m : Action A) (e : Error) → Keeps P (m >>= λ _. raise {A = B} e)
  Keeps-raises m e = record {
    keeps =
        λ db r h p. let (a, db1, first, rest) = bind-inv m (λ _. raise e) db h in absurd (cc rest);
  }

  pub Keeps-request : {A : Type 0} (m : Action A) (db : Db) → Keeps P m → P db → P (request m db)
  Keeps-request m db h p = request-keeps P m db (λ r e. h.keeps db r e) p

-- `Q` holds of the value and the tables after every run that returns, if `P` held before.
pub record Leads {A : Type 0} (P : Db → Type 0) (m : Action A) (Q : A → Db → Type 0) : Type 0 where
  pub leads : (db : Db) (r : A × Db) → m db ≡ ok r → P db → Q r.0 r.1

module _ {A : Type 0} (P : Db → Type 0) where
  pub Leads-kept : (m : Action A) → Keeps P m → Leads P m (λ _. P)
  Leads-kept m h = record { leads = h.keeps }

  pub Keeps-led : (m : Action A) → Leads P m (λ _. P) → Keeps P m
  Keeps-led m h = record { keeps = h.leads }

  pub Leads-ok :
      (m : Action A) (f : Db → A × Db) (Q : A → Db → Type 0)
      → ((db : Db) → m db ≡ ok (f db))
      → ((db : Db) → P db → Q (f db).0 (f db).1)
      → Leads P m Q
  Leads-ok m f Q runs h = record {
    leads = λ db r e p. subst (λ x. Q x.0 x.1) (ok-inj (sym (runs db) ∙ e)) (h db p);
  }

  pub Leads-bind :
      {B : Type 0} (m : Action A) (f : A → Action B) (Q : A → Db → Type 0) (R : B → Db → Type 0)
      → Leads P m Q
      → ((a : A) → Leads (Q a) (f a) R)
      → Leads P (m >>= f) R
  Leads-bind m f Q R hm hf = record {
    leads = λ db r e p.
        let (a, db1, first, rest) = bind-inv m f db e in
        (hf a).leads db1 r rest (hm.leads db (a, db1) first p);
  }

-- An insert that a constraint may refuse.
pub Leads-checked :
    (P : Db → Type 0) (test : Db → Bool) (f : Db → Db) (e : Error) (Q : Db → Type 0)
    → ((db : Db) → P db → Q (f db))
    → Leads P (λ db. if test db then ok (tt, f db) else err e) (λ _. Q)
Leads-checked P test f e Q h = record {
  leads = λ db r eq p. check-inv Q (test db) (f db) e r eq (h db p);
}

-- A row that a query may find, and what follows.
pub Leads-find :
    {A B : Type 0} (P : Db → Type 0) (q : Db → List A) (f : Option A → Action B)
    (R : B → Db → Type 0)
    → Leads P (f none) R
    → ((a : A) → Leads (λ db. P db × (q db ≡ a ∷ [])) (f (some a)) R)
    → Leads P (find_one q >>= f) R
Leads-find {A = A} {B = B} P q f R hn hs = record {
  leads = λ db r e p. let (o, rows, rest) = find-inv q f db e in found db r p o rows rest;
}
  where
    found :
        (db : Db) (r : B × Db)
        → P db
        → (o : Option A) → q db ≡ to_list o
        → f o db ≡ ok r
        → R r.0 r.1
    found db r p none rows e = hn.leads db r e p
    found db r p (some a) rows e = (hs a).leads db r e (p, rows)
