-- ===== src/Conversions/Submission.antt =====
-- Submitting a signed conversion (src/conversions/conversions.service.ts: submitConversion,
-- findOwnedOrThrow).
use smartpig_backend.Common.{
  ℕ, not, Bool, ◌&&◌, any?, Option, some, String, ◌==◌, ltb, is_present, is_some, get_or_else,
  if◌then◌else◌, http, ErrorKind, Exception, Result, ok, err, Action, pure, throw, gets, lift,
  or_throw, throw_if, ◌>>=◌, ◌>>◌,
}
use smartpig_backend.TransactionState.{FailureCode}
use smartpig_backend.Schema.{Db}
use smartpig_backend.Schema.Intents.{Decimal, AssetConversion, ConversionStatus}
use smartpig_backend.AssetRegistry.{get_asset}
use smartpig_backend.StellarChain.{StellarChain, to_stellar_asset}
use smartpig_backend.Intents.Rows.{find_wallet, same_hash, unique_violation}
use smartpig_backend.Conversions.{find_conversion, conversion_not_found}
use smartpig_backend.Conversions.Creation.{update_conversion, fail_conversion}

abbrev pub wallet_gone : Exception
wallet_gone = http ErrorKind.not_found "Wallet no longer exists"

abbrev pub conversion_confirmed : Exception
conversion_confirmed = http ErrorKind.conflict "Conversion already confirmed"

abbrev pub conversion_submitted : Exception
conversion_submitted = http ErrorKind.conflict "Conversion already submitted"

abbrev pub conversion_failed : Exception
conversion_failed = http ErrorKind.bad_request "Conversion is in FAILED state"

abbrev pub no_xdr_yet : Exception
no_xdr_yet = http ErrorKind.bad_request "Conversion has no XDR yet"

abbrev pub conversion_expired : Exception
conversion_expired = http ErrorKind.bad_request "Conversion has expired"

-- `new Error('Conversion intent has expired')`
abbrev pub expired_error : Exception
expired_error = http ErrorKind.plain "Conversion intent has expired"

-- `findOwnedOrThrow`: the row and the address of its wallet.
pub record OwnedConversion : Type 0 where
  pub row : AssetConversion
  pub wallet_address : String

unfoldable pub find_owned_conversion : ℕ → ℕ → Action Db OwnedConversion
find_owned_conversion id user = do
  c ← or_throw (← gets (find_conversion id)) conversion_not_found
  throw_if (not (c.user_id == user)) conversion_not_found
  wallet ← or_throw (← gets (find_wallet c.wallet_account_id)) wallet_gone
  pure (record { row = c; wallet_address = wallet.stellar_address })

-- The refusals by status, in the order of the source.
unfoldable pub assert_status : ConversionStatus → Action Db (Unit {0})
assert_status ConversionStatus.confirmed = throw conversion_confirmed
assert_status ConversionStatus.submitted = throw conversion_submitted
assert_status ConversionStatus.failed = throw conversion_failed
assert_status _ = pure tt

-- An expired conversion fails as it is refused.
unfoldable pub assert_in_time : ℕ → AssetConversion → Action Db (Unit {0})
assert_in_time now c =
    if ltb c.expires_at now
    then (do
      fail_conversion c.id expired_error FailureCode.intent_expired
      throw conversion_expired)
    else pure tt

pub record ConversionReceipt : Type 0 where
  pub id : ℕ
  pub status : ConversionStatus
  pub tx_hash : String

-- `receivedAmount: received ?? undefined`: an amount that was not read leaves the column.
abbrev pub confirm : String → Option Decimal → AssetConversion → AssetConversion
confirm hash received c = record c {
  status = ConversionStatus.confirmed;
  tx_hash = some hash;
  received_amount = if is_some received then received else c.received_amount;
}

-- Another conversion has the hash: `txHash` is a unique column.
abbrev pub is_hash_taken : ℕ → String → Db → Bool
is_hash_taken id hash db =
    any? (λ (c : AssetConversion). not (c.id == id) && same_hash (some hash) c.tx_hash)
      db.conversions

-- The update that writes the hash.
unfoldable pub confirm_conversion : ℕ → String → Option Decimal → Action Db (Unit {0})
confirm_conversion id hash received = do
  taken ← gets (is_hash_taken id hash)
  throw_if taken unique_violation
  update_conversion id (confirm hash received)

-- The checks, in the order of the source.
unfoldable pub assert_convertible : ℕ → AssetConversion → Action Db (Unit {0})
assert_convertible now c = do
  assert_status c.status
  throw_if (not (is_present c.unsigned_xdr)) no_xdr_yet
  assert_in_time now c

module _ (chain : StellarChain) where
  open chain use {registry, submit_fee_bump_transaction, read_path_payment_received}

  -- The answer of the network.
  unfoldable pub settle_conversion : OwnedConversion → Result String → Action Db ConversionReceipt
  settle_conversion owned (err e) = do
    fail_conversion owned.row.id e FailureCode.chain_rejected
    throw e
  settle_conversion owned (ok hash) = do
    target ← lift (get_asset registry owned.row.target_symbol)
    asset ← lift (to_stellar_asset chain target)
    confirm_conversion owned.row.id hash
        (read_path_payment_received hash owned.wallet_address asset)
    pure (record { id = owned.row.id; status = ConversionStatus.confirmed; tx_hash = hash })

  unfoldable pub send_conversion : String → OwnedConversion → Action Db ConversionReceipt
  send_conversion signed owned = do
    update_conversion owned.row.id
        (λ c. record c { signed_xdr = some signed; status = ConversionStatus.signed_xdr_received })
    settle_conversion owned
        (submit_fee_bump_transaction signed (get_or_else owned.row.unsigned_xdr ""))

  unfoldable pub submit_conversion : ℕ → ℕ → ℕ → String → Action Db ConversionReceipt
  submit_conversion now id user signed = do
    owned ← find_owned_conversion id user
    assert_convertible now owned.row
    send_conversion signed owned
