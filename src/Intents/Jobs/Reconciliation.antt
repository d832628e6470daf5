-- ===== src/Intents/Jobs/Reconciliation.antt =====
-- What the reconciliation job does to the intents (src/jobs/reconciliation.job.ts).
use smartpig_backend.Common.{
  ℕ, ◌≡◌, ◌⊎◌, refl, subst, inl, inr, true, some, List, [], ◌∷◌, String, ◌==◌, find?, take, filter,
  is_present, get_or_else, ok, err, Exception, Found, arith, ==_iff, find?-update_where,
  Option-cases,
}
use smartpig_backend.TransactionState.{IntentStatus}
use smartpig_backend.Schema.{Db}
use smartpig_backend.Schema.Intents.{
  DepositIntent, TransactionRecord, TransactionStatus, IntentType,
}
use smartpig_backend.Services.{Services, SubmitResult}
use smartpig_backend.Intents.Rows.{find_deposit}
use smartpig_backend.Intents.Jobs.{
  get_intent, confirm_both, reconcile_one, reconcile_all, reconcile_pending_transactions,
  is_pending,
}

abbrev pub confirmed_row : ℕ → DepositIntent → DepositIntent
confirmed_row now r = record r { status = IntentStatus.confirmed; updated_at = now }

-- The row as it was, or confirmed at this run of the job.
abbrev pub KeptOrConfirmed : ℕ → DepositIntent → DepositIntent → Type 0
KeptOrConfirmed now r d = (d ≡ r) ⊎ (d ≡ confirmed_row now r)

confirm_both-Kept :
    (now id : ℕ) (t : TransactionRecord) (db : Db) {r : DepositIntent}
    → find_deposit id db ≡ some r
    → Found (find_deposit id (confirm_both now t db).1) (KeptOrConfirmed now r)
unfolding confirm_both
confirm_both-Kept now id t db {r} h =
    let other = get_or_else t.deposit_intent_id 0 in
    ground (
      arith,
      find?-update_where (λ (x : DepositIntent). x.id == id) (λ (x : DepositIntent). x.id == other)
          (confirmed_row now) db.deposits (λ x. refl),
    )

Kept-trans :
    (now : ℕ) {a b c : DepositIntent}
    → KeptOrConfirmed now a b
    → KeptOrConfirmed now b c
    → KeptOrConfirmed now a c
Kept-trans now h k = ground arith

reconcile_one-Kept :
    (services : Services) (now id : ℕ) (t : TransactionRecord) (db : Db) {r : DepositIntent}
    → find_deposit id db ≡ some r
    → Found (find_deposit id (reconcile_one services now t db)) (KeptOrConfirmed now r)
unfolding reconcile_one
reconcile_one-Kept services now id t db {r} h = grind (arith, confirm_both-Kept now id t db h)

reconcile_all-Kept :
    (services : Services) (now id : ℕ) (ts : List TransactionRecord) (db : Db) {r : DepositIntent}
    → find_deposit id db ≡ some r
    → Found (find_deposit id (reconcile_all services now ts db)) (KeptOrConfirmed now r)
unfolding reconcile_all
reconcile_all-Kept services now id [] db h = ground arith
reconcile_all-Kept services now id (t ∷ ts) db {r} h =
    elim (Option-cases (find_deposit id (reconcile_one services now t db))) [
      | inl missing ↦ absurd (
          subst (λ o. Found o (KeptOrConfirmed now r)) missing
            (reconcile_one-Kept services now id t db h))
      | inr (d, found) ↦
          let kept =
            subst (λ o. Found o (KeptOrConfirmed now r)) found
              (reconcile_one-Kept services now id t db h) in
          let rest =
            reconcile_all-Kept services now id ts (reconcile_one services now t db) found in
          ground (arith, kept, rest)
    ]

-- A run of the job leaves every deposit as it was, or confirms it: no other field but the time of
-- the last write changes, and no deposit is lost, whatever the network answers.
pub reconcile_only_confirms :
    (services : Services) (now id : ℕ) (db : Db) {r : DepositIntent}
    → find_deposit id db ≡ some r
    → Found
        (find_deposit id (reconcile_pending_transactions services now db))
        (KeptOrConfirmed now r)
unfolding reconcile_pending_transactions
reconcile_only_confirms services now id db h =
    reconcile_all-Kept services now id (take 50 (filter (λ t. is_pending t.status) db.transactions))
      db h

reconcile_all-offline :
    (services : Services) (now : ℕ) (e : Exception)
    → ((xdr : String) → services.submit_signed_transaction xdr ≡ err e)
    → (ts : List TransactionRecord) (db : Db) → reconcile_all services now ts db ≡ db
unfolding reconcile_all
reconcile_all-offline services now e down [] db = refl
reconcile_all-offline services now e down (t ∷ ts) db =
    grind (arith, down, reconcile_all-offline services now e down ts db)

-- If every submission throws, then the job changes nothing.
pub reconcile_offline :
    (services : Services) (now : ℕ) (db : Db) (e : Exception)
    → ((xdr : String) → services.submit_signed_transaction xdr ≡ err e)
    → reconcile_pending_transactions services now db ≡ db
unfolding reconcile_pending_transactions
reconcile_offline services now db e down =
    reconcile_all-offline services now e down
      (take 50 (filter (λ t. is_pending t.status) db.transactions)) db

reconcile_one-accepted :
    (services : Services) (now : ℕ) (t : TransactionRecord) (db : Db) {xdr : String}
    {result : SubmitResult}
    → is_present t.tx_hash ≡ true
    → get_intent t db ≡ some xdr
    → is_present (some xdr) ≡ true
    → services.submit_signed_transaction xdr ≡ ok result
    → result.success ≡ true
    → reconcile_one services now t db ≡ (confirm_both now t db).1
unfolding reconcile_one
reconcile_one-accepted services now t db hash signed present accepted success =
    rw (hash, signed, present, accepted, success) refl

find_deposit-id :
    (id : ℕ) (rows : List DepositIntent) {r : DepositIntent}
    → find? (λ x. x.id == id) rows ≡ some r
    → (r.id == id) ≡ true
find_deposit-id id [] h = ground arith
find_deposit-id id (x ∷ rows) {r} h = ground (arith, find_deposit-id id rows {r = r})

confirm_both-confirms :
    (now id : ℕ) (t : TransactionRecord) (db : Db) {r : DepositIntent}
    → t.intent_type ≡ IntentType.deposit
    → t.deposit_intent_id ≡ some id
    → find_deposit id db ≡ some r
    → find? (λ u. u.id == t.id) db.transactions ≡ some t
    → (find_deposit id (confirm_both now t db).1 ≡ some (confirmed_row now r))
      × (find? (λ u. u.id == t.id) (confirm_both now t db).1.transactions
          ≡ some (record t { status = TransactionStatus.confirmed; confirmed_at = some now }))
unfolding confirm_both
confirm_both-confirms now id t db {r} kind owner found row = ground (
  arith,
  find_deposit-id id db.deposits found,
  find?-update_where (λ (x : DepositIntent). x.id == id) (λ (x : DepositIntent). x.id == id)
      (confirmed_row now) db.deposits (λ x. refl),
  find?-update_where (λ (u : TransactionRecord). u.id == t.id)
      (λ (u : TransactionRecord). u.id == t.id)
      (λ (u : TransactionRecord). record u {
        status = TransactionStatus.confirmed;
        confirmed_at = some now;
      })
      db.transactions (λ x. refl),
  ==_iff t.id t.id,
)

-- One round for a deposit's record that has a hash, whose intent has a signed XDR that the network
-- accepts: both the intent and the record are confirmed.
pub reconcile_one-confirms :
    (services : Services) (now id : ℕ) (t : TransactionRecord) (db : Db) {r : DepositIntent}
    {xdr : String} {result : SubmitResult}
    → t.intent_type ≡ IntentType.deposit
    → t.deposit_intent_id ≡ some id
    → is_present t.tx_hash ≡ true
    → find_deposit id db ≡ some r
    → r.signed_xdr ≡ some xdr
    → is_present (some xdr) ≡ true
    → services.submit_signed_transaction xdr ≡ ok result
    → result.success ≡ true
    → find? (λ u. u.id == t.id) db.transactions ≡ some t
    → (find_deposit id (reconcile_one services now t db) ≡ some (confirmed_row now r))
      × (find? (λ u. u.id == t.id) (reconcile_one services now t db).transactions
          ≡ some (record t { status = TransactionStatus.confirmed; confirmed_at = some now }))
unfolding get_intent
reconcile_one-confirms services now id t db {r} {xdr} {result} kind owner hash found signed present
      accepted success row =
    let same =
      reconcile_one-accepted services now t db hash (ground arith) present accepted success in
    rw same (confirm_both-confirms now id t db kind owner found row)
