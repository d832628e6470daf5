-- ===== src/Intents/Orchestrator.antt =====
-- The flows over the tables and the chain (src/defindex/defindex.orchestrator.ts).
use smartpig_backend.Common.{
  ℕ, Bool, not, Option, none, some, [], ◌∷◌, String, if◌then◌else◌, get_or_else, is_present, http,
  ErrorKind, Exception, Action, pure, gets, modify, lift, or_throw, throw_if, ◌>>=◌, ◌>>◌,
}
use smartpig_backend.TransactionState.{IntentStatus}
use smartpig_backend.Schema.{Db}
use smartpig_backend.Schema.Intents.{TransactionRecord, TransactionStatus, IntentType}
use smartpig_backend.AssetAmount.{to_asset_units, defindex_share_decimals}
use smartpig_backend.VaultRegistry.{find_vault}
use smartpig_backend.Services.{Services, SubmitResult}
use smartpig_backend.Common.{pos}
use smartpig_backend.Intents.Rows.{
  record_not_found, unique_violation, find_deposit, find_withdrawal, find_wallet, update_deposit,
  update_withdrawal, is_duplicate, insert_transaction,
}

abbrev pub no_unsigned_xdr : Exception
no_unsigned_xdr = http ErrorKind.plain "Intent has no unsigned XDR"

pub record Submission : Type 0 where
  pub tx_hash : String
  pub status : IntentStatus

abbrev pub intent_status : Bool → IntentStatus
intent_status success = if success then IntentStatus.confirmed else IntentStatus.submitted

abbrev pub transaction_status : Bool → TransactionStatus
transaction_status success =
    if success then TransactionStatus.confirmed else TransactionStatus.pending

module _ (services : Services) (now : ℕ) where
  open services use {
    decimals, generate_deposit_xdr, generate_withdraw_xdr, submit_signed_transaction,
    build_sponsored_fee_bump_xdr,
  }

  unfoldable pub build_deposit_xdr : ℕ → Action Db (Option String)
  build_deposit_xdr id = do
    intent ← or_throw (← gets (find_deposit id)) record_not_found
    vault ← or_throw (← gets (find_vault intent.vault_id)) record_not_found
    wallet ← or_throw (← gets (find_wallet intent.wallet_account_id)) record_not_found
    units ← lift (to_asset_units decimals intent.amount vault.asset_decimals)
    xdr ← lift (
        generate_deposit_xdr (record {
          vault_address = vault.defindex_vault_id;
          caller_address = wallet.stellar_address;
          amounts = units ∷ [];
        }))
    update_deposit id (λ r. record r {
      unsigned_xdr = xdr;
      status = IntentStatus.xdr_generated;
      updated_at = now;
    })
    pure xdr

  unfoldable pub build_withdraw_xdr : ℕ → Action Db (Option String)
  build_withdraw_xdr id = do
    intent ← or_throw (← gets (find_withdrawal id)) record_not_found
    vault ← or_throw (← gets (find_vault intent.vault_id)) record_not_found
    wallet ← or_throw (← gets (find_wallet intent.wallet_account_id)) record_not_found
    units ← lift (to_asset_units decimals intent.share_amount (pos defindex_share_decimals))
    xdr ← lift (
        generate_withdraw_xdr (record {
          vault_address = vault.defindex_vault_id;
          caller_address = wallet.stellar_address;
          share_amount = units;
        }))
    update_withdrawal id (λ r. record r {
      unsigned_xdr = xdr;
      status = IntentStatus.xdr_generated;
      updated_at = now;
    })
    pure xdr

  -- The `$transaction` that closes a submission: both writes happen, or none does.
  unfoldable pub settle_deposit : ℕ → ℕ → SubmitResult → Action Db (Unit {0})
  settle_deposit id user result = do
    let t : TransactionRecord = record {
      id = 0;
      user_id = user;
      intent_type = IntentType.deposit;
      deposit_intent_id = some id;
      withdrawal_intent_id = none;
      tx_hash = some result.tx_hash;
      status = transaction_status result.success;
      confirmed_at = if result.success then some now else none;
    }
    duplicate ← gets (is_duplicate t)
    throw_if duplicate unique_violation
    update_deposit id (λ r. record r { status = intent_status result.success; updated_at = now })
    modify (insert_transaction t)

  unfoldable pub settle_withdrawal : ℕ → ℕ → SubmitResult → Action Db (Unit {0})
  settle_withdrawal id user result = do
    let t : TransactionRecord = record {
      id = 0;
      user_id = user;
      intent_type = IntentType.withdrawal;
      deposit_intent_id = none;
      withdrawal_intent_id = some id;
      tx_hash = some result.tx_hash;
      status = transaction_status result.success;
      confirmed_at = if result.success then some now else none;
    }
    duplicate ← gets (is_duplicate t)
    throw_if duplicate unique_violation
    update_withdrawal id (λ r. record r { status = intent_status result.success; updated_at = now })
    modify (insert_transaction t)

  unfoldable pub submit_deposit : ℕ → String → Action Db Submission
  unfolding settle_deposit
  submit_deposit id signed_xdr = do
    intent ← or_throw (← gets (find_deposit id)) record_not_found
    throw_if (not (is_present intent.unsigned_xdr)) no_unsigned_xdr
    sponsored ← lift (build_sponsored_fee_bump_xdr signed_xdr (get_or_else intent.unsigned_xdr ""))
    update_deposit id (λ r. record r {
      signed_xdr = some sponsored;
      status = IntentStatus.signed_xdr_received;
      updated_at = now;
    })
    result ← lift (submit_signed_transaction sponsored)
    user ← or_throw (← gets (find_deposit id)) record_not_found
    settle_deposit id user.user_id result
    pure (record { tx_hash = result.tx_hash; status = intent_status result.success })

  unfoldable pub submit_withdrawal : ℕ → String → Action Db Submission
  unfolding settle_withdrawal
  submit_withdrawal id signed_xdr = do
    intent ← or_throw (← gets (find_withdrawal id)) record_not_found
    throw_if (not (is_present intent.unsigned_xdr)) no_unsigned_xdr
    sponsored ← lift (build_sponsored_fee_bump_xdr signed_xdr (get_or_else intent.unsigned_xdr ""))
    update_withdrawal id (λ r. record r {
      signed_xdr = some sponsored;
      status = IntentStatus.signed_xdr_received;
      updated_at = now;
    })
    result ← lift (submit_signed_transaction sponsored)
    user ← or_throw (← gets (find_withdrawal id)) record_not_found
    settle_withdrawal id user.user_id result
    pure (record { tx_hash = result.tx_hash; status = intent_status result.success })
