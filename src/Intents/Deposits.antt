-- ===== src/Intents/Deposits.antt =====
-- The deposit handlers (src/deposits/deposits.service.ts).
pub mod Creation
pub mod Submitting
pub mod Funding
pub mod Planning
use smartpig_backend.Common.{
  ℕ, ◌+◌, ◌*◌, ℤ, pos, negsuc, Bool, true, false, not, Option, none, some, String, ◌==◌, ltb,
  if◌then◌else◌, is_some, get_or_else, same_text, to_upper_case, http, ErrorKind, Exception, Result,
  ok, err, Action, pure, throw, gets, modify, lift, or_throw, throw_if, catch, ◌>>=◌, ◌>>◌,
}
use smartpig_backend.TransactionState.{IntentStatus, FailureCode}
use smartpig_backend.FailureClassifier.{classify_failure}
use smartpig_backend.Environment.{Env}
use smartpig_backend.Schema.{Db}
use smartpig_backend.Schema.Vaults.{Vault}
use smartpig_backend.Schema.Intents.{
  Decimal, DepositIntent, AssetConversion, ConversionStatus, PlannedDeposit, ConversionKey,
}
use smartpig_backend.AssetAmount.{DecimalLib, to_asset_units}
use smartpig_backend.Services.{Services, ConversionQuote, ConversionRequest}
use smartpig_backend.VaultRegistry.{assert_depositable}
use smartpig_backend.VaultEligibility.{assert_eligible_for_deposit}
use smartpig_backend.Disclosures.{assert_acknowledged}
use smartpig_backend.Intents.Rows.{
  find_deposit_by_key, find_owned_deposit, find_active_wallet, wallet_not_found, update_deposit,
  create_deposit_row,
}
use smartpig_backend.Intents.Guard.{assert_submittable}
use smartpig_backend.Conversions.{get_consumable, attach_deposit}
use smartpig_backend.Intents.Orchestrator.{Submission, build_deposit_xdr, submit_deposit}

-- `INTENT_TTL_HOURS`, in milliseconds.
abbrev pub intent_ttl_ms : ℕ
intent_ttl_ms = 24 * 60 * 60 * 1000

pub record CreateDeposit : Type 0 where
  pub idempotency_key : ℕ
  pub user_id : ℕ
  pub wallet_account_id : ℕ
  pub vault_id : ℕ
  pub amount : Decimal
  pub asset_symbol : String
  pub auto_convert : Bool

-- The body of a response: an intent, or the steps of a plan (the conversion, and the vault of the
-- deferred deposit).
pub data DepositAnswer : Type 0 where
  intent : DepositIntent → DepositAnswer
  plan : ConversionQuote → ℕ → DepositAnswer

abbrev pub key_taken : Exception
key_taken = http ErrorKind.conflict "Idempotency key is already associated with another account"

abbrev pub wrong_asset : Exception
wrong_asset = http ErrorKind.bad_request "Vault accepts another asset"

abbrev pub deposit_not_found : Exception
deposit_not_found = http ErrorKind.not_found "Deposit intent not found"

-- The row of a new intent, in state CREATED.
abbrev pub new_deposit : ℕ → ℕ → ℕ → ℕ → ℕ → Decimal → String → DepositIntent
new_deposit now key user wallet vault amount symbol = record {
  id = 0;
  idempotency_key = key;
  user_id = user;
  wallet_account_id = wallet;
  vault_id = vault;
  amount = amount;
  asset_symbol = symbol;
  status = IntentStatus.created;
  unsigned_xdr = none;
  signed_xdr = none;
  error_message = none;
  failure_code = none;
  expires_at = now + intent_ttl_ms;
  created_at = now;
  updated_at = now;
}

pub record FromConversion : Type 0 where
  pub idempotency_key : ℕ
  pub conversion_id : ℕ
  pub wallet_account_id : ℕ

abbrev pub yielded_nothing : Exception
yielded_nothing = http ErrorKind.bad_request "Conversion yielded nothing to deposit"

-- `receivedAmount.toDecimalPlaces(vault.assetDecimals, ROUND_DOWN)`; decimal.js throws on a negative
-- number of places.
abbrev pub round_to : DecimalLib → Decimal → ℤ → Result Decimal
round_to lib amount (pos places) = ok (lib.round_down amount places)
round_to lib amount (negsuc n) = err (http ErrorKind.plain "[DecimalError] Invalid argument")

-- `asset.toUpperCase() === asset.toUpperCase()`
unfoldable pub same_asset : String → String → Bool
unfolding same_text to_upper_case
same_asset a b = same_text (to_upper_case a) (to_upper_case b)

module _ (services : Services) (env : Env) where
  open services use {decimals, create_conversion}
  open env use {now}

  -- The `catch` around `buildDepositXdr`.
  unfoldable pub fail_deposit : ℕ → Exception → Action Db (Option String)
  fail_deposit id e = do
    update_deposit id (λ r. record r {
      status = IntentStatus.failed;
      error_message = some e.message;
      failure_code = some (classify_failure e FailureCode.xdr_generation_failed);
      updated_at = now;
    })
    throw e

  -- Both ways to a deposit end so: the row, then the XDR.
  unfoldable pub generate_for : DepositIntent → Action Db DepositAnswer
  unfolding fail_deposit
  generate_for row = do
    xdr ← catch (build_deposit_xdr services now row.id) (fail_deposit row.id)
    pure (DepositAnswer.intent (record row { unsigned_xdr = xdr }))

  unfoldable pub plan_conversion_first : CreateDeposit → String → Action Db DepositAnswer
  plan_conversion_first dto target = do
    quoted ← create_conversion (record {
      idempotency_key = ConversionKey.derived dto.idempotency_key;
      user_id = dto.user_id;
      wallet_account_id = dto.wallet_account_id;
      to_symbol = target;
      amount = dto.amount;
      planned_deposit = record { vault_id = some dto.vault_id; asset_symbol = target };
    })
    pure (DepositAnswer.plan quoted dto.vault_id)

  -- The part of `createDeposit` for a deposit in the vault's own asset.
  unfoldable pub create_in_asset : CreateDeposit → Vault → Action Db DepositAnswer
  create_in_asset dto vault = do
    units ← lift (to_asset_units decimals dto.amount vault.asset_decimals)
    wallet ←
        or_throw (← gets (find_active_wallet dto.wallet_account_id dto.user_id)) wallet_not_found
    row ← create_deposit_row (
        new_deposit now dto.idempotency_key dto.user_id dto.wallet_account_id dto.vault_id
          dto.amount vault.asset_symbol)
    generate_for row

  -- The checks before anything is written, in the order of the source.
  unfoldable pub check_deposit : ℕ → ℕ → Action Db Vault
  check_deposit user vault_id = do
    vault ← assert_depositable env vault_id
    eligibility ← assert_eligible_for_deposit env user vault.id vault.asset_symbol
    assert_acknowledged env user vault.id vault.asset_symbol
    pure vault

  -- The vault takes one asset: another is converted first if the client asked for that.
  unfoldable pub create_or_plan : CreateDeposit → Vault → Action Db DepositAnswer
  unfolding create_in_asset plan_conversion_first
  create_or_plan dto vault =
      if same_asset dto.asset_symbol vault.asset_symbol
      then create_in_asset dto vault
      else if dto.auto_convert
      then plan_conversion_first dto vault.asset_symbol
      else throw wrong_asset

  -- The part of `createDeposit` after the idempotency check.
  unfoldable pub create_new : CreateDeposit → Action Db DepositAnswer
  unfolding check_deposit create_or_plan
  create_new dto = do vault ← check_deposit dto.user_id dto.vault_id; create_or_plan dto vault

  -- A row with the key answers for the request, to its owner alone.
  abbrev pub answer_existing : ℕ → DepositIntent → Action Db DepositAnswer
  answer_existing user row =
      if row.user_id == user then pure (DepositAnswer.intent row) else throw key_taken

  unfoldable pub create_deposit : CreateDeposit → Action Db DepositAnswer
  create_deposit dto = do
    existing ← gets (find_deposit_by_key dto.idempotency_key)
    elim existing [ some row ↦ answer_existing dto.user_id row | none ↦ create_new dto ]

  -- `createDepositFromConversion`, after the idempotency check: the deposit is sized by what the
  -- conversion received, rounded down to the precision of the asset.
  unfoldable pub create_from : ℕ → FromConversion → Action Db DepositAnswer
  create_from user dto = do
    conversion ← get_consumable dto.conversion_id user
    vault ← check_deposit user conversion.vault_id
    amount ← lift (round_to decimals conversion.received_amount vault.asset_decimals)
    throw_if (decimals.lte_zero amount) yielded_nothing
    wallet ← or_throw (← gets (find_active_wallet dto.wallet_account_id user)) wallet_not_found
    row ←
        create_deposit_row
          (new_deposit now dto.idempotency_key user wallet.id vault.id amount vault.asset_symbol)
    attach_deposit dto.conversion_id row.id
    generate_for row

  unfoldable pub create_deposit_from_conversion : ℕ → FromConversion → Action Db DepositAnswer
  create_deposit_from_conversion user dto = do
    existing ← gets (find_deposit_by_key dto.idempotency_key)
    elim existing [ some row ↦ answer_existing user row | none ↦ create_from user dto ]

  -- `submitSignedXdr`; the answer repeats the identifier of the request.
  unfoldable pub submit_signed_deposit : ℕ → String → ℕ → Action Db Submission
  submit_signed_deposit id signed_xdr user = do
    row ← or_throw (← gets (find_owned_deposit id user)) deposit_not_found
    assert_submittable now row.status row.expires_at
    submit_deposit services now id signed_xdr
