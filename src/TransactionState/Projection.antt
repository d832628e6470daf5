-- ===== src/TransactionState/Projection.antt =====
-- What the projection of transaction-state.ts promises the client.
use smartpig_backend.Common.{ℕ, ◌≤◌, ◌<◌, ◌≡◌, ◌⊎◌, ◌↔◌, true, false, arith}
use smartpig_backend.TransactionState.{
  IntentStatus, TransactionState, NormalizeInput, is_user_actionable, normalize_transaction_state,
  is_terminal_state,
}

-- The rows whose transaction the network may already have.
abbrev pub InFlight : NormalizeInput → Type 0
InFlight i = (i.status ≡ IntentStatus.signed_xdr_received) ⊎ (i.status ≡ IntentStatus.submitted)

-- The rows that still wait for a signature.
abbrev pub Unsigned : NormalizeInput → Type 0
Unsigned i = (i.status ≡ IntentStatus.created) ⊎ (i.status ≡ IntentStatus.xdr_generated)

-- An intent is shown as EXPIRED exactly when it still waits for a signature and the current time
-- has passed its expiry; so a submitted intent is never shown as expired.
pub expired_iff :
    (i : NormalizeInput)
    → (normalize_transaction_state i ≡ TransactionState.expired)
      ↔ (Unsigned i × (i.expires_at < i.now))
unfolding normalize_transaction_state
expired_iff i = (λ h. ground arith, λ h. ground arith)

-- An intent is shown as SUCCESS exactly when it is confirmed, or when it is in flight and its
-- transaction record is confirmed.
pub success_iff :
    (i : NormalizeInput)
    → (normalize_transaction_state i ≡ TransactionState.success)
      ↔ ((i.status ≡ IntentStatus.confirmed) ⊎ (InFlight i × (i.tx_confirmed ≡ true)))
unfolding normalize_transaction_state
success_iff i = (λ h. ground arith, λ h. ground arith)

-- An intent is shown as REJECTED exactly when it failed with a code that the user can act on, and
-- as FAILED exactly when it failed with any other code or with none.
pub rejected_or_failed_iff :
    (i : NormalizeInput)
    → ((normalize_transaction_state i ≡ TransactionState.rejected)
        ↔ ((i.status ≡ IntentStatus.failed) × (is_user_actionable i.failure_code ≡ true)))
      × ((normalize_transaction_state i ≡ TransactionState.failed)
          ↔ ((i.status ≡ IntentStatus.failed) × (is_user_actionable i.failure_code ≡ false)))
unfolding normalize_transaction_state
rejected_or_failed_iff i =
    ((λ h. ground arith, λ h. ground arith), (λ h. ground arith, λ h. ground arith))

-- A terminal state of an unchanged row is the same at every later time, so a client that stops
-- polling on it loses nothing.
pub terminal_stays :
    (i : NormalizeInput) (later : ℕ)
    → i.now ≤ later
    → is_terminal_state (normalize_transaction_state i) ≡ true
    → normalize_transaction_state (record i { now = later }) ≡ normalize_transaction_state i
unfolding normalize_transaction_state is_terminal_state
terminal_stays i later h t = ground arith
