-- ===== src/Payment/Solvency/Release.antt =====
-- Releases keep the ledger (backend/app/services/payment_service.py).
use kaasb.Common.{ℕ, suc, ◌≡◌, Option, none, some, not, arith}
use kaasb.Db.{Db, ok, find-inv, bind-inv, raise_if-inv, pure, bad_request, Escrow}
use kaasb.Payment.Release.{
  release_locked_escrow, release_escrow, release_escrow_by_id, fee_transaction, release_transaction,
  ReleaseResponse, release_found, release_checked, funded_milestone_rows, funded_rows, is_payable,
  payout_accounts,
}
use kaasb.Payment.Releasing.{release_locked-Released}
use kaasb.Payment.Ledger.{IsLedger-append}
use kaasb.Payment.Solvency.Base.{IsSound, carry, unchanged}

pub release_locked-IsSound :
    (now : ℕ) (e : Escrow) (db : Db) {r : ReleaseResponse × Db}
    → release_locked_escrow now e db ≡ ok r
    → IsSound db
    → IsSound r.1
release_locked-IsSound now e db {r} h l =
    let d = release_locked-Released now e db h in
    let n = db.next_id in
    carry r.1 d.transactions d.next_id (
      IsLedger-append (release_transaction (suc n) (suc (suc n)) now e) (suc (suc (suc n)))
        (omega arith) (omega arith) (λ u. ground arith)
        (IsLedger-append (fee_transaction n now e) (suc n) (omega arith) (omega arith)
          (λ u. ground arith) l))

release_found-IsSound :
    (now : ℕ) (e : Option Escrow) (db : Db) {r : Option ReleaseResponse × Db}
    → release_found now e db ≡ ok r
    → IsSound db
    → IsSound r.1
release_found-IsSound now none db {r} h l = unchanged none db r h l
release_found-IsSound now (some e) db {r} h l =
    let (resp, db1, locked, h') =
      bind-inv (release_locked_escrow now e) (λ x. pure (some x)) db h in
    unchanged (some resp) db1 r h' (release_locked-IsSound now e db locked l)

pub release_escrow-IsSound :
    (now k : ℕ) (db : Db) {r : Option ReleaseResponse × Db}
    → release_escrow now k db ≡ ok r
    → IsSound db
    → IsSound r.1
unfolding release_escrow
release_escrow-IsSound now k db h l =
    let (e, _, h') = find-inv (funded_milestone_rows k) (release_found now) db h in
    release_found-IsSound now e db h' l

release_checked-IsSound :
    (now : ℕ) (e : Option Escrow) (db : Db) {r : Option ReleaseResponse × Db}
    → release_checked now e db ≡ ok r
    → IsSound db
    → IsSound r.1
release_checked-IsSound now none db {r} h l = unchanged none db r h l
release_checked-IsSound now (some e) db {r} h l =
    let (_, h') =
      raise_if-inv (not (is_payable (payout_accounts e.freelancer_id db))) bad_request
        (release_found now (some e)) db h in
    release_found-IsSound now (some e) db h' l

pub release_by_id-IsSound :
    (now k : ℕ) (db : Db) {r : Option ReleaseResponse × Db}
    → release_escrow_by_id now k db ≡ ok r
    → IsSound db
    → IsSound r.1
unfolding release_escrow_by_id
release_by_id-IsSound now k db h l =
    let (e, _, h') = find-inv (funded_rows k) (release_checked now) db h in
    release_checked-IsSound now e db h' l
