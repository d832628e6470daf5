-- ===== src/Intents/Withdrawals.antt =====
-- The withdrawal handlers (src/withdrawals/withdrawals.service.ts).
pub mod Requests
use smartpig_backend.Common.{
  ℕ, ◌+◌, pos, Bool, true, false, not, Option, none, some, String, ◌==◌, if◌then◌else◌, http,
  ErrorKind, Exception, Action, pure, throw, gets, lift, or_throw, throw_if, catch, ◌>>=◌, ◌>>◌,
}
use smartpig_backend.TransactionState.{IntentStatus, FailureCode}
use smartpig_backend.FailureClassifier.{classify_failure}
use smartpig_backend.Environment.{Env}
use smartpig_backend.Schema.{Db}
use smartpig_backend.Schema.Intents.{Decimal, WithdrawalIntent}
use smartpig_backend.AssetAmount.{to_asset_units, defindex_share_decimals}
use smartpig_backend.Services.{Services}
use smartpig_backend.VaultRegistry.{find_vault}
use smartpig_backend.Intents.Rows.{
  find_withdrawal_by_key, find_owned_withdrawal, find_active_wallet, wallet_not_found,
  update_withdrawal, create_withdrawal_row,
}
use smartpig_backend.Intents.Guard.{assert_submittable}
use smartpig_backend.Intents.Orchestrator.{Submission, build_withdraw_xdr, submit_withdrawal}
use smartpig_backend.Intents.Deposits.{intent_ttl_ms}

pub record CreateWithdrawal : Type 0 where
  pub idempotency_key : ℕ
  pub user_id : ℕ
  pub wallet_account_id : ℕ
  pub vault_id : ℕ
  pub share_amount : Decimal
  pub requested_amount : Option Decimal

abbrev pub vault_inactive : Exception
vault_inactive = http ErrorKind.not_found "Vault not found or inactive"

abbrev pub withdrawal_not_found : Exception
withdrawal_not_found = http ErrorKind.not_found "Withdrawal intent not found"

-- The row of a new intent, in state CREATED.
abbrev pub new_withdrawal : ℕ → CreateWithdrawal → WithdrawalIntent
new_withdrawal now dto = record {
  id = 0;
  idempotency_key = dto.idempotency_key;
  user_id = dto.user_id;
  wallet_account_id = dto.wallet_account_id;
  vault_id = dto.vault_id;
  share_amount = dto.share_amount;
  requested_amount = dto.requested_amount;
  status = IntentStatus.created;
  unsigned_xdr = none;
  signed_xdr = none;
  error_message = none;
  failure_code = none;
  expires_at = now + intent_ttl_ms;
  created_at = now;
  updated_at = now;
}

module _ (services : Services) (env : Env) where
  open services use {decimals}
  open env use {now}

  -- The `catch` around `buildWithdrawXdr`.
  unfoldable pub fail_withdrawal : ℕ → Exception → Action Db (Option String)
  fail_withdrawal id e = do
    update_withdrawal id (λ r. record r {
      status = IntentStatus.failed;
      error_message = some e.message;
      failure_code = some (classify_failure e FailureCode.xdr_generation_failed);
      updated_at = now;
    })
    throw e

  -- The part of `createWithdrawal` after the idempotency check.
  unfoldable pub create_new : CreateWithdrawal → Action Db WithdrawalIntent
  unfolding fail_withdrawal
  create_new dto = do
    vault ← or_throw (← gets (find_vault dto.vault_id)) vault_inactive
    throw_if (not vault.is_active) vault_inactive
    wallet ←
        or_throw (← gets (find_active_wallet dto.wallet_account_id dto.user_id)) wallet_not_found
    units ← lift (to_asset_units decimals dto.share_amount (pos defindex_share_decimals))
    row ← create_withdrawal_row (new_withdrawal now dto)
    xdr ← catch (build_withdraw_xdr services now row.id) (fail_withdrawal row.id)
    pure (record row { unsigned_xdr = xdr })

  -- A row with the key answers for the request, whoever asks.
  unfoldable pub create_withdrawal : CreateWithdrawal → Action Db WithdrawalIntent
  create_withdrawal dto = do
    existing ← gets (find_withdrawal_by_key dto.idempotency_key)
    elim existing [ some row ↦ pure row | none ↦ create_new dto ]

  -- `submitSignedXdr`
  unfoldable pub submit_signed_withdrawal : ℕ → String → ℕ → Action Db Submission
  submit_signed_withdrawal id signed_xdr user = do
    row ← or_throw (← gets (find_owned_withdrawal id user)) withdrawal_not_found
    assert_submittable now row.status row.expires_at
    submit_withdrawal services now id signed_xdr
