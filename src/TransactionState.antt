-- ===== src/TransactionState.antt =====
-- The client-facing state of an intent (src/defindex/transaction-state.ts), and the status enums
-- of the rows that it is computed from (prisma/schema.prisma).
pub mod Projection
use smartpig_backend.Common.{
  ℕ, Bool, true, false, Option, none, some, ltb, if◌then◌else◌, not, ◌&&◌,
}

pub data IntentStatus : Type 0 where
  created xdr_generated signed_xdr_received submitted confirmed failed : IntentStatus

pub data FailureCode : Type 0 where
  user_rejected_signature signature_mismatch intent_expired insufficient_balance : FailureCode
  no_trustline slippage_exceeded quote_expired : FailureCode
  xdr_generation_failed upstream_unavailable chain_rejected unknown : FailureCode

pub data TransactionState : Type 0 where
  pending_signature pending success rejected failed expired : TransactionState

-- Membership in the set `USER_ACTIONABLE`.
unfoldable pub user_actionable : FailureCode → Bool
user_actionable FailureCode.user_rejected_signature = true
user_actionable FailureCode.signature_mismatch = true
user_actionable FailureCode.intent_expired = true
user_actionable FailureCode.insufficient_balance = true
user_actionable FailureCode.no_trustline = true
user_actionable FailureCode.slippage_exceeded = true
user_actionable FailureCode.quote_expired = true
user_actionable _ = false

unfoldable pub is_user_actionable : Option FailureCode → Bool
unfolding user_actionable
is_user_actionable none = false
is_user_actionable (some code) = user_actionable code

-- `NormalizeInput`: instants are milliseconds, and the default `now` is an argument.
pub record NormalizeInput : Type 0 where
  pub status : IntentStatus
  pub expires_at : ℕ
  pub failure_code : Option FailureCode
  pub tx_confirmed : Bool
  pub now : ℕ

-- The `switch` of `normalizeTransactionState`.
project : IntentStatus → NormalizeInput → TransactionState
unfolding is_user_actionable
project IntentStatus.confirmed i = TransactionState.success
project IntentStatus.failed i =
    if is_user_actionable i.failure_code then TransactionState.rejected else TransactionState.failed
project IntentStatus.signed_xdr_received i =
    if i.tx_confirmed then TransactionState.success else TransactionState.pending
project IntentStatus.submitted i =
    if i.tx_confirmed then TransactionState.success else TransactionState.pending
project IntentStatus.created i =
    if ltb i.expires_at i.now then TransactionState.expired else TransactionState.pending_signature
project IntentStatus.xdr_generated i =
    if ltb i.expires_at i.now then TransactionState.expired else TransactionState.pending_signature

unfoldable pub normalize_transaction_state : NormalizeInput → TransactionState
unfolding project
normalize_transaction_state i = project i.status i

abbrev is_pending_signature : TransactionState → Bool
is_pending_signature TransactionState.pending_signature = true
is_pending_signature _ = false

abbrev is_pending : TransactionState → Bool
is_pending TransactionState.pending = true
is_pending _ = false

unfoldable pub is_terminal_state : TransactionState → Bool
is_terminal_state s = not (is_pending_signature s) && not (is_pending s)
