-- ===== src/Conversions/Submitting.antt =====
-- What `submitConversion` promises (src/conversions/conversions.service.ts).
use smartpig_backend.Common.{
  ℕ, get_or_else, Returns, ◌≡◌, ◌⊎◌, refl, true, Option, none, some, String, Result, ok, err, Found,
  Fails, is_some, arith, find?-update_same, ◌==◌, find_row-key, subst, inl, inr, Option-cases, ◌>>◌,
}
use smartpig_backend.TransactionState.{FailureCode}
use smartpig_backend.Schema.{Db}
use smartpig_backend.Schema.Intents.{Decimal, AssetConversion, ConversionStatus}
use smartpig_backend.StellarChain.{StellarChain, to_stellar_asset}
use smartpig_backend.AssetRegistry.{get_asset}
use smartpig_backend.Conversions.{find_conversion}
use smartpig_backend.Conversions.Creation.{
  update_conversion, set_conversion, fail_conversion, failed_conversion,
}
use smartpig_backend.Conversions.Lifecycle.Submission.{signed_by, found_itself, find_owned-found}
use smartpig_backend.Conversions.Submission.{
  ConversionReceipt, OwnedConversion, assert_convertible, assert_status, assert_in_time,
  is_hash_taken, confirm_conversion, settle_conversion, send_conversion, submit_conversion, confirm,
  expired_error,
}

find_conversion-update :
    (id : ℕ) (f : AssetConversion → AssetConversion) (db : Db)
    → ((c : AssetConversion) → (f c).id ≡ c.id)
    → find_conversion id (update_conversion id f db).1
      ≡ elim (find_conversion id db) [ none ↦ none | some c ↦ some (f c) ]
unfolding update_conversion set_conversion
find_conversion-update id f db keep =
    ground (arith, find?-update_same (λ c. c.id == id) f db.conversions (λ c. rw (keep c) refl))

-- The update of a row that is there returns, and the row is found updated.
update_found :
    (id : ℕ) (f : AssetConversion → AssetConversion) (db : Db) (c : AssetConversion)
    → ((r : AssetConversion) → (f r).id ≡ r.id)
    → find_conversion id db ≡ some c
    → ((update_conversion id f db).0 ≡ ok tt)
      × (find_conversion id (update_conversion id f db).1 ≡ some (f c))
unfolding update_conversion
update_found id f db c keep found =
    (ground arith, ground (arith, find_conversion-update id f db keep))

-- Why a transaction that the network accepted is not recorded: the registry does not have the target
-- asset, the SDK refuses the asset, or another conversion has the hash.
abbrev pub CannotRecord : StellarChain → String → Db → AssetConversion → Type 0
CannotRecord chain hash db c =
    Fails (get_asset chain.registry c.target_symbol)
    ⊎ (Returns (get_asset chain.registry c.target_symbol) (λ a. Fails (to_stellar_asset chain a))
        ⊎ (is_hash_taken c.id hash db ≡ true))

-- A submission that failed: FAILED with a failure code, or signed, accepted by the network under a hash
-- and not recorded.
abbrev pub IsUnsettled : StellarChain → String → Db → AssetConversion → Type 0
IsUnsettled chain signed db c =
    ((c.status ≡ ConversionStatus.failed) × (is_some c.failure_code ≡ true))
    ⊎ ((c.status ≡ ConversionStatus.signed_xdr_received)
        × Returns (chain.submit_fee_bump_transaction signed (get_or_else c.unsigned_xdr ""))
            (λ hash. CannotRecord chain hash db c))

-- What a submission leaves behind, by its answer.
abbrev pub SubmissionOutcome :
    StellarChain → String → ℕ → Db → Result ConversionReceipt × Db → Type 0
SubmissionOutcome chain signed id before (ok r, after) =
    Found (find_conversion id after)
      (λ c. (c.status ≡ ConversionStatus.confirmed) × (c.tx_hash ≡ some r.tx_hash) × (r.id ≡ id))
SubmissionOutcome chain signed id before (err e, after) =
    (after ≡ before) ⊎ Found (find_conversion id after) (IsUnsettled chain signed after)

settle_conversion-Outcome :
    (chain : StellarChain) (signed : String) (o : OwnedConversion) (answer : Result String)
    (before db : Db) (c : AssetConversion)
    → find_conversion o.row.id db ≡ some c
    → c.status ≡ ConversionStatus.signed_xdr_received
    → c.target_symbol ≡ o.row.target_symbol
    → c.id ≡ o.row.id
    → chain.submit_fee_bump_transaction signed (get_or_else c.unsigned_xdr "") ≡ answer
    → SubmissionOutcome chain signed o.row.id before (settle_conversion chain o answer db)
unfolding settle_conversion fail_conversion confirm_conversion
settle_conversion-Outcome chain signed o (err e) before db c found status target own sent = ground (
  arith,
  update_found o.row.id (failed_conversion e FailureCode.chain_rejected) db c (λ c. refl) found,
)
settle_conversion-Outcome chain signed o (ok hash) before db c found status target own sent =
    grind (
      arith,
      λ (received : Option Decimal).
          update_found o.row.id (confirm hash received) db c (λ c. refl) found,
    )

send_conversion-Outcome :
    (chain : StellarChain) (signed : String) (o : OwnedConversion) (db : Db)
    → find_conversion o.row.id db ≡ some o.row
    → SubmissionOutcome chain signed o.row.id db (send_conversion chain signed o db)
unfolding send_conversion
send_conversion-Outcome chain signed o db found =
    let sent = update_found o.row.id (signed_by signed) db o.row (λ c. refl) found in
    grind (
      arith,
      sent,
      settle_conversion-Outcome chain signed o
          (chain.submit_fee_bump_transaction signed (get_or_else o.row.unsigned_xdr "")) db
          (update_conversion o.row.id (signed_by signed) db).1 (signed_by signed o.row) sent.1 refl
          refl refl refl,
    )

check_found-Outcome :
    (chain : StellarChain) (now : ℕ) (signed : String) (o : OwnedConversion) (db : Db)
    → find_conversion o.row.id db ≡ some o.row
    → SubmissionOutcome chain signed o.row.id db
        ((assert_convertible now o.row >> send_conversion chain signed o) db)
unfolding assert_convertible assert_status assert_in_time fail_conversion
check_found-Outcome chain now signed o db found = ground (
  arith,
  send_conversion-Outcome chain signed o db found,
  update_found o.row.id (failed_conversion expired_error FailureCode.intent_expired) db o.row
      (λ c. refl) found,
)

-- A submission, from any state: if it answers, the conversion is confirmed with the hash of the answer;
-- if it throws, either nothing was written, or the conversion is FAILED with a failure code, or the
-- network accepted the transaction and the conversion is left as SIGNED_XDR_RECEIVED, because the registry
-- does not have the target asset, the SDK refuses the asset, or another conversion has the hash.
pub submit_conversion-Outcome :
    (chain : StellarChain) (now id user : ℕ) (signed : String) (db : Db)
    → SubmissionOutcome chain signed id db (submit_conversion chain now id user signed db)
unfolding submit_conversion
submit_conversion-Outcome chain now id user signed db = grind (
  arith,
  find_owned-found id user db,
  λ (o : OwnedConversion) (found : find_conversion id db ≡ some o.row).
      find_row-key (λ (c : AssetConversion). c.id) id db.conversions {a = o.row} found,
  λ (o : OwnedConversion) (found : find_conversion id db ≡ some o.row).
      check_found-Outcome chain now signed o db (found_itself id db found),
)

-- A confirmed conversion is not submitted, whoever asks.
confirmed_refused :
    (chain : StellarChain) (now id user : ℕ) (signed : String) (db : Db) {c : AssetConversion}
    → find_conversion id db ≡ some c
    → c.status ≡ ConversionStatus.confirmed
    → Fails (submit_conversion chain now id user signed db).0
      × ((submit_conversion chain now id user signed db).1 ≡ db)
unfolding submit_conversion assert_convertible assert_status
confirmed_refused chain now id user signed db {c} h status =
    (grind (arith, find_owned-found id user db), grind (arith, find_owned-found id user db))

-- After a submission that was answered, every later submission of the conversion throws and writes
-- nothing, whoever asks, whatever is signed, and whatever the chain and the clock are by then.
pub submit_conversion_once :
    (chain later_chain : StellarChain) (now later id user anyone : ℕ) (signed again : String)
    (db : Db) {r : ConversionReceipt} {after : Db}
    → submit_conversion chain now id user signed db ≡ (ok r, after)
    → Fails (submit_conversion later_chain later id anyone again after).0
      × ((submit_conversion later_chain later id anyone again after).1 ≡ after)
submit_conversion_once chain later_chain now later id user anyone signed again db {r} {after} h =
    let left : SubmissionOutcome chain signed id db (ok r, after) =
      subst (SubmissionOutcome chain signed id db) h
        (submit_conversion-Outcome chain now id user signed db) in
    elim (Option-cases (find_conversion id after)) [
      | inl missing ↦ absurd (ground arith)
      | inr found ↦
          confirmed_refused later_chain later id anyone again after {c = found.0} found.1
            (ground arith)
    ]
