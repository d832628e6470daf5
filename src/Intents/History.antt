-- ===== src/Intents/History.antt =====
-- What the client sees of its intents: `getDeposit`, `listDeposits` (src/deposits/deposits.service.ts)
-- and the same routes of src/withdrawals/withdrawals.service.ts.
pub mod Agreement
use smartpig_backend.Common.{
  ℕ, Bool, true, false, ◌&&◌, Option, none, some, List, map, String, ◌==◌, if◌then◌else◌, filter,
  Action, pure, gets, or_throw, ◌>>=◌,
}
use smartpig_backend.TransactionState.{
  IntentStatus, FailureCode, TransactionState, normalize_transaction_state,
}
use smartpig_backend.Schema.{Db}
use smartpig_backend.Schema.Intents.{
  DepositIntent, WithdrawalIntent, TransactionRecord, TransactionStatus,
}
use smartpig_backend.Intents.Rows.{find_owned_deposit, find_owned_withdrawal}
use smartpig_backend.Intents.Deposits.{deposit_not_found}
use smartpig_backend.Intents.Withdrawals.{withdrawal_not_found}
use smartpig_backend.Intents.Jobs.{deposit_transaction, withdrawal_transaction}

-- The fields that the two routes add to, or change in, the row.
pub record View : Type 0 where
  pub id : ℕ
  pub status : IntentStatus
  pub tx_hash : Option String
  pub state : TransactionState
  pub failure_code : Option FailureCode

abbrev is_confirmed : TransactionStatus → Bool
is_confirmed TransactionStatus.confirmed = true
is_confirmed _ = false

-- `transaction?.status === 'CONFIRMED'`
unfoldable pub tx_confirmed : Option TransactionRecord → Bool
tx_confirmed none = false
tx_confirmed (some t) = is_confirmed t.status

-- `transaction?.txHash ?? null`
abbrev pub tx_hash_of : Option TransactionRecord → Option String
tx_hash_of none = none
tx_hash_of (some t) = t.tx_hash

-- The detail route projects the stored status.
unfoldable pub detail_view :
    ℕ → ℕ → IntentStatus → ℕ → Option FailureCode → Option TransactionRecord → View
detail_view now id status expires_at code t = record {
  id = id;
  status = status;
  tx_hash = tx_hash_of t;
  state = normalize_transaction_state (record {
    status = status;
    expires_at = expires_at;
    failure_code = code;
    tx_confirmed = tx_confirmed t;
    now = now;
  });
  failure_code = code;
}

-- The list route first lets a confirmed transaction override the stored status.
unfoldable pub list_view :
    ℕ → ℕ → IntentStatus → ℕ → Option FailureCode → Option TransactionRecord → View
unfolding detail_view
list_view now id status expires_at code t =
    detail_view now id (if tx_confirmed t then IntentStatus.confirmed else status) expires_at code t

unfoldable pub get_deposit : ℕ → ℕ → ℕ → Action Db View
get_deposit now id user = do
  r ← or_throw (← gets (find_owned_deposit id user)) deposit_not_found
  t ← gets (deposit_transaction r.id)
  pure (detail_view now r.id r.status r.expires_at r.failure_code t)

unfoldable pub get_withdrawal : ℕ → ℕ → ℕ → Action Db View
get_withdrawal now id user = do
  r ← or_throw (← gets (find_owned_withdrawal id user)) withdrawal_not_found
  t ← gets (withdrawal_transaction r.id)
  pure (detail_view now r.id r.status r.expires_at r.failure_code t)

-- The rows in the order of the table; the source sorts them by creation.
unfoldable pub list_deposits : ℕ → ℕ → Db → List View
list_deposits now user db =
    map
      (λ (r : DepositIntent).
        list_view now r.id r.status r.expires_at r.failure_code (deposit_transaction r.id db))
      (filter (λ r. r.user_id == user) db.deposits)

unfoldable pub list_withdrawals : ℕ → ℕ → Db → List View
list_withdrawals now user db =
    map
      (λ (r : WithdrawalIntent).
        list_view now r.id r.status r.expires_at r.failure_code (withdrawal_transaction r.id db))
      (filter (λ r. r.user_id == user) db.withdrawals)
