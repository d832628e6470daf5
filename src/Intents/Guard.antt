-- ===== src/Intents/Guard.antt =====
-- The refusals at the head of both `submitSignedXdr` handlers (src/deposits/deposits.service.ts,
-- src/withdrawals/withdrawals.service.ts), which test the same conditions in the same order.
use smartpig_backend.Common.{ℕ, ltb, http, ErrorKind, Exception, Action, throw, throw_if}
use smartpig_backend.TransactionState.{IntentStatus}
use smartpig_backend.Schema.{Db}

abbrev pub already_confirmed : Exception
already_confirmed = http ErrorKind.conflict "already confirmed"

abbrev pub already_submitted : Exception
already_submitted = http ErrorKind.conflict "already submitted"

abbrev pub in_failed_state : Exception
in_failed_state = http ErrorKind.bad_request "is in FAILED state"

abbrev pub has_no_xdr : Exception
has_no_xdr = http ErrorKind.bad_request "has no XDR yet (status: CREATED)"

abbrev pub has_expired : Exception
has_expired = http ErrorKind.bad_request "has expired"

unfoldable pub assert_submittable : ℕ → IntentStatus → ℕ → Action Db (Unit {0})
assert_submittable now IntentStatus.confirmed expires_at = throw already_confirmed
assert_submittable now IntentStatus.submitted expires_at = throw already_submitted
assert_submittable now IntentStatus.failed expires_at = throw in_failed_state
assert_submittable now IntentStatus.created expires_at = throw has_no_xdr
assert_submittable now IntentStatus.xdr_generated expires_at =
    throw_if (ltb expires_at now) has_expired
assert_submittable now IntentStatus.signed_xdr_received expires_at =
    throw_if (ltb expires_at now) has_expired
