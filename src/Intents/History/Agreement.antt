-- ===== src/Intents/History/Agreement.antt =====
-- When the list of deposits and the detail of one agree, and what the expiry job does to the state
-- that the client sees.
use smartpig_backend.Common.{ℕ, ◌<◌, ◌≡◌, ◌⊎◌, ◌↔◌, true, false, Option, none, some, arith, Found}
use smartpig_backend.TransactionState.{
  IntentStatus, FailureCode, TransactionState, normalize_transaction_state,
}
use smartpig_backend.Schema.{Db}
use smartpig_backend.Schema.Intents.{DepositIntent, TransactionRecord}
use smartpig_backend.Intents.Rows.{find_deposit}
use smartpig_backend.Intents.Jobs.{is_expirable, mark_expired}
use smartpig_backend.Intents.Jobs.Expiry.{find_deposit-mark_expired}
use smartpig_backend.Intents.History.{tx_confirmed, detail_view, list_view}

-- The list and the detail show the same state exactly when the transaction record is not confirmed,
-- or the stored status is one that only a signed intent has.
pub views_agree_iff :
    (now id : ℕ) (status : IntentStatus) (expires_at : ℕ) (code : Option FailureCode)
    (t : Option TransactionRecord)
    → ((list_view now id status expires_at code t).state
        ≡ (detail_view now id status expires_at code t).state)
      ↔ ((tx_confirmed t ≡ false)
          ⊎ (status ≡ IntentStatus.signed_xdr_received)
          ⊎ (status ≡ IntentStatus.submitted)
          ⊎ (status ≡ IntentStatus.confirmed))
unfolding list_view normalize_transaction_state
views_agree_iff now id status expires_at code t = (λ h. ground arith, λ h. ground arith)

abbrev pub state_of : ℕ → DepositIntent → TransactionState
state_of now r = (detail_view now r.id r.status r.expires_at r.failure_code none).state

-- An unsigned deposit past its expiry, with no failure code, is shown as EXPIRED until the expiry job
-- has run, and as FAILED at every instant after that: the job does not record why it failed.
pub expired_becomes_failed :
    (now later id : ℕ) (db : Db) {r : DepositIntent}
    → find_deposit id db ≡ some r
    → is_expirable r.status ≡ true
    → r.expires_at < now
    → r.failure_code ≡ none
    → (state_of now r ≡ TransactionState.expired)
      × Found
          (find_deposit id (mark_expired now db))
          (λ d. state_of later d ≡ TransactionState.failed)
unfolding detail_view normalize_transaction_state
expired_becomes_failed now later id db {r} h expirable past code =
    ground (arith, find_deposit-mark_expired now id db)
