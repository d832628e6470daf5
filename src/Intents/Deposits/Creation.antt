-- ===== src/Intents/Deposits/Creation.antt =====
-- What `createDeposit` promises (src/deposits/deposits.service.ts): what it leaves behind on every
-- branch, and that a retry is answered by the first request's row.
use smartpig_backend.Common.{
  ℕ, ◌+◌, ◌≡◌, refl, ◌≢◌, ◌⊎◌, subst, Bool, true, none, some, List, String, is_some, Result, ok,
  err, Returns, Found, ◌∷◌, arith, ==_iff,
}
use smartpig_backend.TransactionState.{IntentStatus}
use smartpig_backend.Environment.{Env}
use smartpig_backend.Schema.{Db}
use smartpig_backend.Schema.Vaults.{Vault}
use smartpig_backend.Schema.Intents.{DepositIntent}
use smartpig_backend.Services.{Services, ConversionRequest}
use smartpig_backend.Intents.Rows.{find_deposit_by_key, create_deposit_row}
use smartpig_backend.Intents.Orchestrator.{build_deposit_xdr}
use smartpig_backend.VaultRegistry.{assert_depositable}
use smartpig_backend.VaultEligibility.{evaluate, assert_eligible_for_deposit, upsert_unlock}
use smartpig_backend.Disclosures.{assert_acknowledged, has_acknowledged_current, find_current}
use smartpig_backend.Intents.Deposits.{
  CreateDeposit, DepositAnswer, check_deposit, create_new, create_or_plan, create_in_asset,
  plan_conversion_first, create_deposit, key_taken, generate_for, new_deposit,
}

-- The tables of intents, transactions and conversions are the same.
abbrev pub SameIntents : Db → Db → Type 0
SameIntents a b =
    (a.deposits ≡ b.deposits)
    × (a.withdrawals ≡ b.withdrawals)
    × (a.transactions ≡ b.transactions)
    × (a.conversions ≡ b.conversions)
    × (a.next_id ≡ b.next_id)

assert_depositable-same :
    (env : Env) (vault : ℕ) (db : Db) → (assert_depositable env vault db).1 ≡ db
unfolding assert_depositable
assert_depositable-same env vault db = ground arith

evaluate-SameIntents :
    (user vault : ℕ) (symbol : String) (persist : Bool) (db : Db)
    → SameIntents (evaluate user vault symbol persist db).1 db
unfolding evaluate upsert_unlock
evaluate-SameIntents user vault symbol persist db = ground arith

pub eligible-SameIntents :
    (env : Env) (user vault : ℕ) (symbol : String) (db : Db)
    → SameIntents (assert_eligible_for_deposit env user vault symbol db).1 db
unfolding assert_eligible_for_deposit
eligible-SameIntents env user vault symbol db =
    ground (arith, evaluate-SameIntents user vault symbol true db)

acknowledged-SameIntents :
    (env : Env) (user vault : ℕ) (symbol : String) (db : Db)
    → SameIntents (assert_acknowledged env user vault symbol db).1 db
unfolding assert_acknowledged has_acknowledged_current find_current
acknowledged-SameIntents env user vault symbol db = ground arith

-- The checks before a deposit write no intent, whatever they answer.
pub check_deposit-SameIntents :
    (services : Services) (env : Env) (user vault : ℕ) (db : Db)
    → SameIntents (check_deposit services env user vault db).1 db
unfolding check_deposit
check_deposit-SameIntents services env user vault db =
    grind (arith, assert_depositable-same, eligible-SameIntents, acknowledged-SameIntents)

-- The conversion service leaves the deposits alone.
abbrev pub KeepsDeposits : Services → Type 0
KeepsDeposits services =
    (request : ConversionRequest) (db : Db)
    → (services.create_conversion request db).1.deposits ≡ db.deposits

-- The intent again, with its XDR: only the status, CREATED in the first answer, shows the row's.
abbrev pub IsSameIntent : DepositIntent → DepositAnswer → Type 0
IsSameIntent r (DepositAnswer.intent q) =
    (q.id ≡ r.id)
    × (q.unsigned_xdr ≡ r.unsigned_xdr)
    × (q.user_id ≡ r.user_id)
    × (q.wallet_account_id ≡ r.wallet_account_id)
    × (q.vault_id ≡ r.vault_id)
    × (q.amount ≡ r.amount)
    × (q.asset_symbol ≡ r.asset_symbol)
    × (q.expires_at ≡ r.expires_at)
    × (r.status ≡ IntentStatus.created)
    × (q.status ≡ IntentStatus.xdr_generated)
IsSameIntent r (DepositAnswer.plan quote vault) = ⊥

-- What a request with a new key leaves behind, by its answer.
abbrev pub Outcome : ℕ → ℕ → List DepositIntent → Result DepositAnswer × Db → Type 0
Outcome key user before (ok (DepositAnswer.intent r), after) =
    Found (find_deposit_by_key key after) (λ d.
      (d.status ≡ IntentStatus.xdr_generated)
      × (d.unsigned_xdr ≡ r.unsigned_xdr)
      × (d.id ≡ r.id)
      × (d.user_id ≡ user)
      × (r.user_id ≡ user)
      × (d.wallet_account_id ≡ r.wallet_account_id)
      × (d.vault_id ≡ r.vault_id)
      × (d.amount ≡ r.amount)
      × (d.asset_symbol ≡ r.asset_symbol)
      × (d.expires_at ≡ r.expires_at)
      × (r.status ≡ IntentStatus.created))
Outcome key user before (ok (DepositAnswer.plan quote vault), after) = after.deposits ≡ before
Outcome key user before (err e, after) =
    (after.deposits ≡ before)
    ⊎ Found (find_deposit_by_key key after)
        (λ d. (d.status ≡ IntentStatus.failed) × (is_some d.failure_code ≡ true))

generate_for-Outcome :
    (services : Services) (env : Env) (row : DepositIntent) (before rest : List DepositIntent)
    (db : Db)
    → db.deposits ≡ row ∷ rest
    → row.status ≡ IntentStatus.created
    → Outcome row.idempotency_key row.user_id before (generate_for services env row db)
unfolding generate_for build_deposit_xdr
generate_for-Outcome services env row before rest db h fresh =
    ground (arith, ==_iff row.id row.id, ==_iff row.idempotency_key row.idempotency_key)

create_in_asset-Outcome :
    (services : Services) (env : Env) (dto : CreateDeposit) (vault : Vault) (db : Db)
    → find_deposit_by_key dto.idempotency_key db ≡ none
    → Outcome dto.idempotency_key dto.user_id db.deposits
        (create_in_asset services env dto vault db)
unfolding create_in_asset create_deposit_row
create_in_asset-Outcome services env dto vault db new =
    let row =
      record (new_deposit env.now dto.idempotency_key dto.user_id dto.wallet_account_id dto.vault_id
        dto.amount vault.asset_symbol) { id = db.next_id } in
    ground (
      arith,
      generate_for-Outcome services env row db.deposits db.deposits
          (record db { deposits = row ∷ db.deposits; next_id = db.next_id + 1 }) refl refl,
    )

create_or_plan-Outcome :
    (services : Services) (env : Env) (dto : CreateDeposit) (vault : Vault) (db : Db)
    → KeepsDeposits services
    → find_deposit_by_key dto.idempotency_key db ≡ none
    → Outcome dto.idempotency_key dto.user_id db.deposits (create_or_plan services env dto vault db)
unfolding create_or_plan plan_conversion_first
create_or_plan-Outcome services env dto vault db keeps new =
    grind (arith, create_in_asset-Outcome services env dto vault db new, keeps)

-- A request with a new key, from any state: if it answers with an intent, the row under the key is
-- XDR_GENERATED, belongs to the user, and has the identifier, the XDR and the expiry of the answer;
-- if it answers with a plan, no deposit changed; and if it throws, either no deposit changed or the
-- row under the key is FAILED with a failure code. So no request leaves a row in CREATED. The
-- conversion service is assumed to leave the deposits alone.
pub create_deposit-Outcome :
    (services : Services) (env : Env) (dto : CreateDeposit) (db : Db)
    → KeepsDeposits services
    → find_deposit_by_key dto.idempotency_key db ≡ none
    → Outcome dto.idempotency_key dto.user_id db.deposits (create_deposit services env dto db)
unfolding create_deposit create_new
create_deposit-Outcome services env dto db keeps new = grind (
  arith,
  check_deposit-SameIntents services env dto.user_id dto.vault_id db,
  λ (vault : Vault) (checked : Db) (n : find_deposit_by_key dto.idempotency_key checked ≡ none).
      create_or_plan-Outcome services env dto vault checked keeps n,
)

-- A retry of a request under a new key that was answered with an intent is answered with the same intent,
-- its XDR, owner, wallet, vault, amount, asset and expiry included, whatever the services, the
-- configuration and the clock are by then, and writes nothing; the status is CREATED in the first answer
-- and XDR_GENERATED in the second. The conversion service is assumed to leave the deposits alone.
pub create_deposit_retry :
    (services later_services : Services) (env later : Env) (dto : CreateDeposit) (db : Db)
    {r : DepositIntent} {after : Db}
    → KeepsDeposits services
    → find_deposit_by_key dto.idempotency_key db ≡ none
    → create_deposit services env dto db ≡ (ok (DepositAnswer.intent r), after)
    → ((create_deposit later_services later dto after).1 ≡ after)
      × Returns (create_deposit later_services later dto after).0 (IsSameIntent r)
unfolding create_deposit
create_deposit_retry services later_services env later dto db {r} {after} keeps new h =
    let left : Outcome dto.idempotency_key dto.user_id db.deposits
        (ok (DepositAnswer.intent r), after) =
      subst (Outcome dto.idempotency_key dto.user_id db.deposits) h
        (create_deposit-Outcome services env dto db keeps new) in
    ground arith

-- The key of another account is refused with a conflict, and nothing is written.
pub create_deposit_foreign_key :
    (services : Services) (env : Env) (dto : CreateDeposit) (db : Db) {r : DepositIntent}
    → find_deposit_by_key dto.idempotency_key db ≡ some r
    → r.user_id ≢ dto.user_id
    → create_deposit services env dto db ≡ (err key_taken, db)
unfolding create_deposit
create_deposit_foreign_key services env dto db h other = ground arith
