-- ===== src/Conversions/Lifecycle/Submission.antt =====
-- Submitting a conversion moves the conversions along their machine
-- (src/conversions/conversions.service.ts).
use smartpig_backend.Common.{
  ℕ, ◌≡◌, subst, refl, sym, Option, some, String, ok, err, Result, arith, find?-update_same,
  find_row-key, ◌==◌, ◌>>◌,
}
use smartpig_backend.TransactionState.{FailureCode}
use smartpig_backend.Schema.{Db}
use smartpig_backend.Schema.Intents.{Decimal, AssetConversion, ConversionStatus}
use smartpig_backend.StellarChain.{StellarChain}
use smartpig_backend.Conversions.{find_conversion}
use smartpig_backend.Conversions.Creation.{
  set_conversion, update_conversion, fail_conversion, failed_conversion,
}
use smartpig_backend.Conversions.Submission.{
  OwnedConversion, find_owned_conversion, assert_status, assert_in_time, assert_convertible,
  confirm_conversion, settle_conversion, send_conversion, submit_conversion, confirm, expired_error,
}
use smartpig_backend.Conversions.Lifecycle.{IsOpen, Step, one, Evolves, Preserves, Preserves-trans}
use smartpig_backend.Conversions.Lifecycle.Rows.{
  Preserves-refl, update_conversion-Preserves, open_fails,
}

-- What the search for the row of a submission answers.
pub find_owned-found :
    (id user : ℕ) (db : Db)
    → ((find_owned_conversion id user db).1 ≡ db)
      × ((o : OwnedConversion)
          → (find_owned_conversion id user db).0 ≡ ok o
          → find_conversion id db ≡ some o.row)
unfolding find_owned_conversion
find_owned-found id user db = (ground arith, λ o h. ground arith)

-- Whatever row has the identifier is in the state.
abbrev HasStatus : ConversionStatus → ℕ → Db → Type 0
HasStatus s id db = (c : AssetConversion) → find_conversion id db ≡ some c → c.status ≡ s

abbrev pub signed_by : String → AssetConversion → AssetConversion
signed_by signed c = record c {
  signed_xdr = some signed;
  status = ConversionStatus.signed_xdr_received;
}

signed_row-HasStatus :
    (signed : String) (id : ℕ) (db : Db)
    → HasStatus ConversionStatus.signed_xdr_received id
        (update_conversion id (signed_by signed) db).1
unfolding update_conversion set_conversion
signed_row-HasStatus signed id db c found =
    ground
      (arith, find?-update_same (λ c. c.id == id) (signed_by signed) db.conversions (λ c. refl))

open_signs :
    (signed : String) (c : AssetConversion) → IsOpen c.status → Evolves c (signed_by signed c)
open_signs signed c o = (
  (refl, refl, refl, refl, refl, refl, refl, refl, refl, refl, refl, refl, refl),
  one (Step.sign o),
  (λ confirmed. absurd (subst IsOpen confirmed o)),
  λ linked. linked,
)

signed_confirms :
    (hash : String) (received : Option Decimal) (c : AssetConversion)
    → c.status ≡ ConversionStatus.signed_xdr_received
    → Evolves c (confirm hash received c)
signed_confirms hash received c signed = (
  (refl, refl, refl, refl, refl, refl, refl, refl, refl, refl, refl, refl, refl),
  rw signed (one Step.confirm),
  (λ confirmed. absurd (ground arith)),
  λ linked. linked,
)

settle_conversion-Preserves :
    (chain : StellarChain) (o : OwnedConversion) (answer : Result String) (db : Db)
    → HasStatus ConversionStatus.signed_xdr_received o.row.id db
    → Preserves db (settle_conversion chain o answer db).1
unfolding settle_conversion fail_conversion confirm_conversion
settle_conversion-Preserves chain o (err e) db signed = ground (
  arith,
  update_conversion-Preserves o.row.id (failed_conversion e FailureCode.chain_rejected) db
      (λ r. refl) (λ r found. open_fails e FailureCode.chain_rejected r (rw (signed r found) tt)),
)
settle_conversion-Preserves chain o (ok hash) db signed = grind (
  arith,
  Preserves-refl db,
  λ (received : Option Decimal).
      update_conversion-Preserves o.row.id (confirm hash received) db (λ r. refl)
        (λ r found. signed_confirms hash received r (signed r found)),
)

send_conversion-Preserves :
    (chain : StellarChain) (signed : String) (o : OwnedConversion) (db : Db)
    → find_conversion o.row.id db ≡ some o.row
    → IsOpen o.row.status
    → Preserves db (send_conversion chain signed o db).1
unfolding send_conversion
send_conversion-Preserves chain signed o db found open_status =
    let sent = (update_conversion o.row.id (signed_by signed) db).1 in
    let first : Preserves db sent =
      update_conversion-Preserves o.row.id (signed_by signed) db (λ r. refl)
        (λ r this. open_signs signed r (
          subst (λ (x : AssetConversion). IsOpen x.status) {x = o.row} {y = r} (ground arith)
            open_status)) in
    grind (
      arith,
      first,
      λ (answer : Result String).
          Preserves-trans db sent (settle_conversion chain o answer sent).1 first (
            settle_conversion-Preserves chain o answer sent
              (signed_row-HasStatus signed o.row.id db)),
    )

-- What passes the checks of a submission.
assert_convertible_passes :
    (now : ℕ) (c : AssetConversion) (db : Db)
    → (assert_convertible now c db).0 ≡ ok tt
    → ((assert_convertible now c db).1 ≡ db) × IsOpen c.status
unfolding assert_convertible assert_status assert_in_time
assert_convertible_passes now c db h = ground arith

assert_in_time-Preserves :
    (now : ℕ) (c : AssetConversion) (db : Db)
    → find_conversion c.id db ≡ some c
    → IsOpen c.status
    → Preserves db (assert_in_time now c db).1
unfolding assert_in_time fail_conversion
assert_in_time-Preserves now c db found o = ground (
  arith,
  Preserves-refl db,
  update_conversion-Preserves c.id (failed_conversion expired_error FailureCode.intent_expired) db
      (λ r. refl)
      (λ r this.
        open_fails expired_error FailureCode.intent_expired r
          (subst (λ (x : AssetConversion). IsOpen x.status) {x = c} {y = r} (ground arith) o)),
)

assert_convertible-Preserves :
    (now : ℕ) (c : AssetConversion) (db : Db)
    → find_conversion c.id db ≡ some c
    → Preserves db (assert_convertible now c db).1
unfolding assert_convertible assert_status
assert_convertible-Preserves now c db found =
    ground (arith, Preserves-refl db, assert_in_time-Preserves now c db found)

submit_found-Preserves :
    (chain : StellarChain) (now : ℕ) (signed : String) (o : OwnedConversion) (db : Db)
    → find_conversion o.row.id db ≡ some o.row
    → Preserves db ((assert_convertible now o.row >> send_conversion chain signed o) db).1
submit_found-Preserves chain now signed o db found = ground (
  arith,
  assert_convertible-Preserves now o.row db found,
  assert_convertible_passes now o.row db,
  send_conversion-Preserves chain signed o db found,
)

-- A row is found under its own identifier.
pub found_itself :
    (id : ℕ) (db : Db) {c : AssetConversion}
    → find_conversion id db ≡ some c
    → find_conversion c.id db ≡ some c
found_itself id db {c} found =
    let own : c.id ≡ id = find_row-key (λ (c : AssetConversion). c.id) id db.conversions found in
    subst (λ i. find_conversion i db ≡ some c) (sym own) found

pub submit_conversion-Preserves :
    (chain : StellarChain) (now id user : ℕ) (signed : String) (db : Db)
    → Preserves db (submit_conversion chain now id user signed db).1
unfolding submit_conversion
submit_conversion-Preserves chain now id user signed db = grind (
  arith,
  Preserves-refl db,
  find_owned-found id user db,
  λ (o : OwnedConversion) (found : find_conversion id db ≡ some o.row).
      submit_found-Preserves chain now signed o db (found_itself id db found),
)
