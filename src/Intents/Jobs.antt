-- ===== src/Intents/Jobs.antt =====
-- The two jobs over the intents (src/jobs/expired-intents.job.ts, src/jobs/reconciliation.job.ts).
pub mod Expiry
pub mod Reconciliation
use smartpig_backend.Common.{
  ℕ, ◌+◌, ◌-◌, ◌*◌, Bool, true, false, ◌&&◌, ◌||◌, not, Option, none, some, List, [], ◌∷◌, String,
  ◌==◌, ltb, if◌then◌else◌, find?, filter, any?, update_where, take, is_some, is_present,
  get_or_else, Result, ok, err, Action, pure, gets, modify, lift, ◌>>=◌, ◌>>◌,
}
use smartpig_backend.TransactionState.{IntentStatus, FailureCode}
use smartpig_backend.Schema.{Db}
use smartpig_backend.Schema.Intents.{
  DepositIntent, WithdrawalIntent, TransactionRecord, TransactionStatus, IntentType,
}
use smartpig_backend.Services.{Services, SubmitResult}
use smartpig_backend.Intents.Rows.{
  find_deposit, find_withdrawal, update_deposit, update_withdrawal, set_deposit, set_withdrawal,
  same_id,
}

-- `PURGE_AFTER_DAYS`, in milliseconds.
abbrev pub purge_after_ms : ℕ
purge_after_ms = 30 * 24 * 60 * 60 * 1000

abbrev pub is_expirable : IntentStatus → Bool
is_expirable IntentStatus.created = true
is_expirable IntentStatus.xdr_generated = true
is_expirable _ = false

abbrev pub is_failed : IntentStatus → Bool
is_failed IntentStatus.failed = true
is_failed _ = false

-- The job writes the status and the message, and no failure code.
abbrev pub expire_deposit : ℕ → DepositIntent → DepositIntent
expire_deposit now r = record r {
  status = IntentStatus.failed;
  error_message = some "Intent expired";
  updated_at = now;
}

abbrev pub expire_withdrawal : ℕ → WithdrawalIntent → WithdrawalIntent
expire_withdrawal now r = record r {
  status = IntentStatus.failed;
  error_message = some "Intent expired";
  updated_at = now;
}

abbrev pub deposit_transaction : ℕ → Db → Option TransactionRecord
deposit_transaction id db = find? (λ t. same_id t.deposit_intent_id (some id)) db.transactions

abbrev pub withdrawal_transaction : ℕ → Db → Option TransactionRecord
withdrawal_transaction id db = find? (λ t. same_id t.withdrawal_intent_id (some id)) db.transactions

-- The first half of `cleanupExpiredIntents`.
unfoldable pub mark_expired : ℕ → Db → Db
mark_expired now db = record db {
  deposits =
      update_where (λ r. is_expirable r.status && ltb r.expires_at now) (expire_deposit now)
        db.deposits;
  withdrawals =
      update_where (λ r. is_expirable r.status && ltb r.expires_at now) (expire_withdrawal now)
        db.withdrawals;
}

abbrev pub is_purgeable : ℕ → IntentStatus → ℕ → Option TransactionRecord → Bool
is_purgeable now status updated_at t =
    is_failed status && ltb (updated_at + purge_after_ms) now && not (is_some t)

-- The second half: old failed intents with no transaction are deleted.
unfoldable pub purge_failed : ℕ → Db → Db
purge_failed now db = record db {
  deposits =
      filter (λ r. not (is_purgeable now r.status r.updated_at (deposit_transaction r.id db)))
        db.deposits;
  withdrawals =
      filter (λ r. not (is_purgeable now r.status r.updated_at (withdrawal_transaction r.id db)))
        db.withdrawals;
}

unfoldable pub cleanup_expired_intents : ℕ → Db → Db
unfolding mark_expired purge_failed
cleanup_expired_intents now db = purge_failed now (mark_expired now db)

abbrev pub is_pending : TransactionStatus → Bool
is_pending TransactionStatus.pending = true
is_pending _ = false

-- `getIntent`: the signed XDR of the intent that the record belongs to.
intent_xdr : IntentType → Option ℕ → Option ℕ → Db → Option String
intent_xdr IntentType.deposit (some id) w db = elim (find_deposit id db) [
  | none ↦ none
  | some r ↦ r.signed_xdr
]
intent_xdr IntentType.deposit none none db = none
intent_xdr IntentType.deposit none (some id) db = elim (find_withdrawal id db) [
  | none ↦ none
  | some r ↦ r.signed_xdr
]
intent_xdr IntentType.withdrawal d none db = none
intent_xdr IntentType.withdrawal d (some id) db = elim (find_withdrawal id db) [
  | none ↦ none
  | some r ↦ r.signed_xdr
]

unfoldable pub get_intent : TransactionRecord → Db → Option String
unfolding intent_xdr
get_intent t db = intent_xdr t.intent_type t.deposit_intent_id t.withdrawal_intent_id db

-- The second write of the job's `$transaction`; an update of a missing row throws.
confirm_intent : ℕ → IntentType → Option ℕ → Option ℕ → Action Db (Unit {0})
confirm_intent now IntentType.deposit (some id) w =
    update_deposit id (λ r. record r { status = IntentStatus.confirmed; updated_at = now })
confirm_intent now IntentType.deposit none none = pure tt
confirm_intent now IntentType.deposit none (some id) =
    update_withdrawal id (λ r. record r { status = IntentStatus.confirmed; updated_at = now })
confirm_intent now IntentType.withdrawal d none = pure tt
confirm_intent now IntentType.withdrawal d (some id) =
    update_withdrawal id (λ r. record r { status = IntentStatus.confirmed; updated_at = now })

abbrev pub confirm_record : ℕ → ℕ → Db → Db
confirm_record now id db = record db {
  transactions =
      update_where (λ t. t.id == id)
        (λ t. record t { status = TransactionStatus.confirmed; confirmed_at = some now })
        db.transactions;
}

-- The `$transaction`: the intent first here, since a throw there leaves the record unwritten too.
unfoldable pub confirm_both : ℕ → TransactionRecord → Action Db (Unit {0})
unfolding confirm_intent
confirm_both now t = do
  confirm_intent now t.intent_type t.deposit_intent_id t.withdrawal_intent_id
  modify (confirm_record now t.id)

-- A throw of the body is logged, and the loop goes on; the notification is left out.
abbrev pub swallow : Result (Unit {0}) × Db → Db
swallow (r, db) = db

module _ (services : Services) (now : ℕ) where
  open services use {submit_signed_transaction}

  after_submit : TransactionRecord → Result SubmitResult → Db → Db
  unfolding confirm_both
  after_submit t (err e) db = db
  after_submit t (ok result) db = if result.success then swallow (confirm_both now t db) else db

  -- One round of the loop.
  unfoldable pub reconcile_one : TransactionRecord → Db → Db
  unfolding after_submit get_intent
  reconcile_one t db =
      if is_present t.tx_hash && is_present (get_intent t db)
      then after_submit t (submit_signed_transaction (get_or_else (get_intent t db) "")) db
      else db

  unfoldable pub reconcile_all : List TransactionRecord → Db → Db
  unfolding reconcile_one
  reconcile_all [] db = db
  reconcile_all (t ∷ ts) db = reconcile_all ts (reconcile_one t db)

  -- `reconcilePendingTransactions`: the records are read once, before the loop.
  unfoldable pub reconcile_pending_transactions : Db → Db
  unfolding reconcile_all
  reconcile_pending_transactions db =
      reconcile_all (take 50 (filter (λ t. is_pending t.status) db.transactions)) db
