-- ===== src/Intents/Withdrawals/Requests.antt =====
-- What `createWithdrawal` promises (src/withdrawals/withdrawals.service.ts), and where it differs
-- from the deposit path.
use smartpig_backend.Common.{
  ℕ, ◌≡◌, ◌≢◌, ◌⊎◌, true, false, none, some, List, is_some, Result, ok, err, Found, arith, ==_iff,
}
use smartpig_backend.TransactionState.{IntentStatus}
use smartpig_backend.Environment.{Env}
use smartpig_backend.Schema.{Db}
use smartpig_backend.Schema.Vaults.{Vault}
use smartpig_backend.Schema.Intents.{WithdrawalIntent}
use smartpig_backend.Services.{Services}
use smartpig_backend.VaultRegistry.{find_vault, assert_withdrawable}
use smartpig_backend.Intents.Rows.{find_withdrawal_by_key, create_withdrawal_row}
use smartpig_backend.Intents.Orchestrator.{build_withdraw_xdr}
use smartpig_backend.Intents.Withdrawals.{
  CreateWithdrawal, create_new, create_withdrawal, vault_inactive,
}

-- What a request with a new key leaves behind, by its answer.
abbrev pub Outcome : ℕ → ℕ → List WithdrawalIntent → Result WithdrawalIntent × Db → Type 0
Outcome key user before (ok r, after) = Found (find_withdrawal_by_key key after) (λ d.
    (d.status ≡ IntentStatus.xdr_generated)
    × (d.unsigned_xdr ≡ r.unsigned_xdr)
    × (d.id ≡ r.id)
    × (d.user_id ≡ user)
    × (r.user_id ≡ user)
    × (d.wallet_account_id ≡ r.wallet_account_id)
    × (d.vault_id ≡ r.vault_id)
    × (d.share_amount ≡ r.share_amount)
    × (d.requested_amount ≡ r.requested_amount)
    × (d.expires_at ≡ r.expires_at)
    × (r.status ≡ IntentStatus.created))
Outcome key user before (err e, after) =
    (after.withdrawals ≡ before)
    ⊎ Found (find_withdrawal_by_key key after)
        (λ d. (d.status ≡ IntentStatus.failed) × (is_some d.failure_code ≡ true))

-- A request with a new key, from any state: if it answers, the row under the key is XDR_GENERATED,
-- belongs to the user, and has the identifier, the XDR, the wallet, the vault, the amounts and the
-- expiry of the answer, whose status is still CREATED; if it throws, either no withdrawal changed or the
-- row under the key is FAILED with a failure code.
pub create_withdrawal-Outcome :
    (services : Services) (env : Env) (dto : CreateWithdrawal) (db : Db)
    → find_withdrawal_by_key dto.idempotency_key db ≡ none
    → Outcome dto.idempotency_key dto.user_id db.withdrawals (create_withdrawal services env dto db)
unfolding create_withdrawal create_new create_withdrawal_row build_withdraw_xdr
create_withdrawal-Outcome services env dto db new =
    ground (arith, ==_iff dto.idempotency_key dto.idempotency_key, ==_iff db.next_id db.next_id)

-- The key of another account is answered with that account's intent, its XDR included.
pub create_withdrawal_foreign_key :
    (services : Services) (env : Env) (dto : CreateWithdrawal) (db : Db) {r : WithdrawalIntent}
    → find_withdrawal_by_key dto.idempotency_key db ≡ some r
    → r.user_id ≢ dto.user_id
    → create_withdrawal services env dto db ≡ (ok r, db)
unfolding create_withdrawal
create_withdrawal_foreign_key services env dto db h other = ground arith

-- A delisted vault refuses every new withdrawal request, although the registry resolves it for one.
pub delisted_refuses_withdrawal :
    (services : Services) (env : Env) (dto : CreateWithdrawal) (db : Db) {v : Vault}
    → find_withdrawal_by_key dto.idempotency_key db ≡ none
    → find_vault dto.vault_id db ≡ some v
    → v.is_active ≡ false
    → (create_withdrawal services env dto db ≡ (err vault_inactive, db))
      × (assert_withdrawable dto.vault_id db ≡ (ok v, db))
unfolding create_withdrawal create_new assert_withdrawable
delisted_refuses_withdrawal services env dto db new found inactive = ground arith
