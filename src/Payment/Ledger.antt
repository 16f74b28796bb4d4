-- ===== src/Payment/Ledger.antt =====
-- The transactions as a ledger: their ids are distinct and below the next one, and no user has been
-- paid out more than was released to them.
use kaasb.Common.{
  ℕ, ◌+◌, ◌≤◌, ◌<◌, ◌≡◌, ◌≢◌, false, List, [], ◌∷◌, ◌++◌, All, All-append, All-imp, All-update_row,
  Distinct, sum_of-append, sum_of-update_row, ◌==◌, if◌then◌else◌, Bool-cases, inl, inr, arith,
}
use kaasb.Db.{Transaction, update_transaction, PaymentAccount}
use kaasb.Payment.Payout.{
  released_share, paid_share, total_released, total_paid_out, exceeds_balance, payout_transaction,
}

-- Half a hundredth of an IQD (50 of its ten-thousandths) is what rounding the balance may add.
abbrev pub IsSolvent : List Transaction → Type 0
IsSolvent ts = (u : ℕ) → total_paid_out u ts ≤ total_released u ts + 50

pub record IsLedger (ts : List Transaction) (n : ℕ) : Type 0 where
  pub below : All (λ t. t.id < n) ts
  pub distinct : Distinct (λ t. t.id) ts
  pub solvent : IsSolvent ts

Distinct-append :
    (t : Transaction) (ts : List Transaction)
    → All (λ x. x.id < t.id) ts
    → Distinct (λ x. x.id) ts
    → Distinct (λ x. x.id) (ts ++ t ∷ [])
Distinct-append t [] b d = (tt, tt)
Distinct-append t (x ∷ xs) b d =
    (All-append (λ y. y.id ≢ x.id) xs (t ∷ []) d.0 (omega arith, tt), Distinct-append t xs b.1 d.1)

ids-update :
    (k i : ℕ) (f : Transaction → Transaction)
    → ((t : Transaction) → (f t).id ≡ t.id)
    → (ts : List Transaction) → All (λ y. y.id ≢ i) ts
    → All (λ y. y.id ≢ i) (update_transaction k f ts)
ids-update k i f same [] h = tt
ids-update k i f same (x ∷ xs) h = ground (arith, same x, ids-update k i f same xs h.1)

Distinct-update :
    (k : ℕ) (f : Transaction → Transaction)
    → ((t : Transaction) → (f t).id ≡ t.id)
    → (ts : List Transaction) → Distinct (λ x. x.id) ts
    → Distinct (λ x. x.id) (update_transaction k f ts)
Distinct-update k f same [] d = tt
Distinct-update k f same (x ∷ xs) d = elim (Bool-cases (x.id == k)) [
  | inl e ↦ rw (e, same x) (ids-update k x.id f same xs d.0, Distinct-update k f same xs d.1)
  | inr e ↦ rw e (ids-update k x.id f same xs d.0, Distinct-update k f same xs d.1)
]

IsLedger-mono : {ts : List Transaction} {n : ℕ} (m : ℕ) → n ≤ m → IsLedger ts n → IsLedger ts m
IsLedger-mono {ts} {n} m le l = record {
  below = All-imp (λ t. t.id < n) (λ t. t.id < m) (λ t h. omega arith) ts l.below;
  distinct = l.distinct;
  solvent = l.solvent;
}

-- A row that pays nobody out may be added under a fresh id.
pub IsLedger-append :
    {ts : List Transaction} {n : ℕ} (t : Transaction) (m : ℕ)
    → n ≤ t.id
    → t.id < m
    → ((u : ℕ) → paid_share u t ≡ 0)
    → IsLedger ts n
    → IsLedger (ts ++ t ∷ []) m
IsLedger-append {ts} {n} t m fresh le unpaid l = record {
  below =
      All-append (λ x. x.id < m) ts (t ∷ [])
        (All-imp (λ x. x.id < n) (λ x. x.id < m) (λ x h. omega arith) ts l.below) (le, tt);
  distinct =
      Distinct-append t ts
        (All-imp (λ x. x.id < n) (λ x. x.id < t.id) (λ x h. omega arith) ts l.below) l.distinct;
  solvent = λ u. omega (
    arith,
    l.solvent u,
    unpaid u,
    sum_of-append (paid_share u) ts (t ∷ []),
    sum_of-append (released_share u) ts (t ∷ []),
  );
}

-- A row may be rewritten under its id, if no share of any user changes.
pub IsLedger-update :
    {ts : List Transaction} {n : ℕ} (k : ℕ) (f : Transaction → Transaction)
    → ((t : Transaction) → (f t).id ≡ t.id)
    → ((u : ℕ) → All (λ t. t.id ≡ k → paid_share u (f t) ≡ paid_share u t) ts)
    → ((u : ℕ) → All (λ t. t.id ≡ k → released_share u (f t) ≡ released_share u t) ts)
    → IsLedger ts n
    → IsLedger (update_transaction k f ts) n
IsLedger-update {ts} {n} k f same paid released l = record {
  below =
      All-update_row (λ t. t.id) (λ t. t.id < n) k f ts
        (All-imp (λ t. t.id < n) (λ t. t.id ≡ k → (f t).id < n) (λ t h _. rw (same t) h) ts l.below)
        l.below;
  distinct = Distinct-update k f same ts l.distinct;
  solvent = λ u. omega (
    arith,
    l.solvent u,
    sum_of-update_row (λ t. t.id) (paid_share u) k f ts (paid u),
    sum_of-update_row (λ t. t.id) (released_share u) k f ts (released u),
  );
}

-- What the balance test lets through: never more than half a hundredth above the balance, and never
-- above a balance in whole hundredths.
pub exceeds_balance-within :
    (amount released paid : ℕ)
    → exceeds_balance amount released paid ≡ false
    → paid + amount ≤ released + 50
unfolding exceeds_balance
exceeds_balance-within amount released paid h = ground arith

payout_shares :
    (id reference user amount u : ℕ) (account : PaymentAccount)
    → let t = payout_transaction id reference user amount account in
      (released_share u t ≡ 0) × (paid_share u t ≡ (if user == u then amount else 0))
payout_shares id reference user amount u account = ground arith

-- `request_payout`'s guard keeps the ledger solvent for the user who asks, and others lose nothing.
pub IsLedger-payout :
    {ts : List Transaction} {n : ℕ} (id reference user amount m : ℕ) (account : PaymentAccount)
    → n ≤ id
    → id < m
    → exceeds_balance amount (total_released user ts) (total_paid_out user ts) ≡ false
    → IsLedger ts n
    → IsLedger (ts ++ payout_transaction id reference user amount account ∷ []) m
IsLedger-payout {ts} {n} id reference user amount m account fresh le within l = record {
  below =
      All-append (λ x. x.id < m) ts (payout_transaction id reference user amount account ∷ [])
        (All-imp (λ x. x.id < n) (λ x. x.id < m) (λ x h. omega arith) ts l.below) (le, tt);
  distinct =
      Distinct-append (payout_transaction id reference user amount account) ts
        (All-imp (λ x. x.id < n) (λ x. x.id < id) (λ x h. omega arith) ts l.below) l.distinct;
  solvent = λ u.
      let shares = payout_shares id reference user amount u account in
      let bound = exceeds_balance-within amount _ _ within in
      let t = payout_transaction id reference user amount account in
      ground (
        arith,
        l.solvent u,
        shares.0,
        shares.1,
        bound,
        sum_of-append (paid_share u) ts (t ∷ []),
        sum_of-append (released_share u) ts (t ∷ []),
      );
}
