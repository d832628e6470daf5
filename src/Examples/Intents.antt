-- ===== src/Examples/Intents.antt =====
-- The laws of the deposits, the withdrawals and the jobs, at concrete rows.
use smartpig_backend.Common.{
  ◌≡◌, ◌⊎◌, ◌↔◌, refl, false, none, some, ok, err, Returns, Fails, find?, ◌==◌,
}
use smartpig_backend.TransactionState.{IntentStatus}
use smartpig_backend.Schema.{Db}
use smartpig_backend.Schema.Intents.{DepositIntent, TransactionStatus, TransactionRecord}
use smartpig_backend.AssetAmount.{to_asset_units}
use smartpig_backend.VaultRegistry.{assert_depositable}
use smartpig_backend.VaultEligibility.{evaluate, assert_eligible_for_deposit, is_usdc}
use smartpig_backend.Disclosures.{assert_acknowledged}
use smartpig_backend.Conversions.{get_consumable, attach_deposit, already_consumed}
use smartpig_backend.Intents.Deposits.Funding.{conversion_funds_once}
use smartpig_backend.Intents.Rows.{
  find_deposit_by_key, find_deposit, create_deposit_row, is_duplicate, clashes,
}
use smartpig_backend.Intents.Orchestrator.{build_deposit_xdr, submit_deposit, settle_deposit}
use smartpig_backend.Intents.Guard.{assert_submittable}
use smartpig_backend.Intents.Deposits.{
  CreateDeposit, FromConversion, create_deposit_from_conversion, create_from, DepositAnswer,
  create_deposit, create_new, create_or_plan, create_in_asset, check_deposit, generate_for,
  same_asset, new_deposit, submit_signed_deposit,
}
use smartpig_backend.Intents.Deposits.Creation.{KeepsDeposits, IsSameIntent, create_deposit_retry}
use smartpig_backend.Intents.Deposits.Submitting.{
  submit_signed_deposit_refused, submit_signed_deposit-Outcome, submit_once, Submittable,
}
use smartpig_backend.Intents.Withdrawals.{CreateWithdrawal, create_withdrawal}
use smartpig_backend.Intents.Withdrawals.Requests.{
  create_withdrawal-Outcome, create_withdrawal_foreign_key, delisted_refuses_withdrawal,
}
use smartpig_backend.Intents.Jobs.{reconcile_one}
use smartpig_backend.Intents.Jobs.Reconciliation.{confirmed_row, reconcile_one-confirms}
use smartpig_backend.Intents.History.{tx_confirmed, list_view, detail_view}
use smartpig_backend.Intents.History.Agreement.{views_agree_iff}
use smartpig_backend.Examples.Data.{
  db, env, later, services, offline_services, amount, submitted_row, pending_record,
}
use smartpig_backend.Intents.Deposits.Submitting
use smartpig_backend.Intents.Withdrawals.Requests

abbrev request : CreateDeposit
request = record {
  idempotency_key = 900;
  user_id = 1;
  wallet_account_id = 10;
  vault_id = 5;
  amount = amount;
  asset_symbol = "usdc";
  auto_convert = false;
}

keeps_deposits : KeepsDeposits services
keeps_deposits _ _ = refl

abbrev created_row : DepositIntent
created_row = record (new_deposit 1000 900 1 10 5 amount "USDC") {
  id = 100;
  unsigned_xdr = some "AAAA";
}

abbrev created_db : Db
created_db = (create_deposit services env request db).1

request_answered :
    create_deposit services env request db ≡ (ok (DepositAnswer.intent created_row), created_db)
unfolding create_deposit create_new check_deposit assert_depositable assert_eligible_for_deposit
    evaluate assert_acknowledged is_usdc create_or_plan same_asset create_in_asset to_asset_units
    create_deposit_row generate_for build_deposit_xdr
request_answered = refl

-- The retry meets a service that is down and a later clock.
create_deposit_retry_example :
    ((create_deposit offline_services later request created_db).1 ≡ created_db)
    × Returns
        (create_deposit offline_services later request created_db).0
        (IsSameIntent created_row)
create_deposit_retry_example =
    create_deposit_retry services offline_services env later request db keeps_deposits refl
      request_answered

submit_signed_deposit-Outcome_example :
    Submitting.Outcome 70 db (submit_signed_deposit services env 70 "SIGNED" 1 db)
submit_signed_deposit-Outcome_example = submit_signed_deposit-Outcome services env 70 1 "SIGNED" db

submitted : Returns (submit_signed_deposit services env 70 "SIGNED" 1 db).0 (λ s. Unit)
unfolding submit_signed_deposit assert_submittable submit_deposit settle_deposit is_duplicate
    clashes
submitted = tt

submit_once_example :
    Fails
      (submit_signed_deposit offline_services later 70 "AGAIN" 1
        (submit_signed_deposit services env 70 "SIGNED" 1 db).1).0
    × ((submit_signed_deposit offline_services later 70 "AGAIN" 1
          (submit_signed_deposit services env 70 "SIGNED" 1 db).1).1
        ≡ (submit_signed_deposit services env 70 "SIGNED" 1 db).1)
submit_once_example =
    submit_once services offline_services env later 70 1 "SIGNED" "AGAIN" db submitted

abbrev withdrawal_request : CreateWithdrawal
withdrawal_request = record {
  idempotency_key = 901;
  user_id = 1;
  wallet_account_id = 10;
  vault_id = 5;
  share_amount = amount;
  requested_amount = none;
}

create_withdrawal-Outcome_example :
    Requests.Outcome 901 1 db.withdrawals (create_withdrawal services env withdrawal_request db)
create_withdrawal-Outcome_example =
    create_withdrawal-Outcome services env withdrawal_request db refl

reconcile_one-confirms_example :
    (find_deposit 71 (reconcile_one services 1000 pending_record db)
      ≡ some (confirmed_row 1000 submitted_row))
    × (find? (λ u. u.id == 80) (reconcile_one services 1000 pending_record db).transactions
        ≡ some (record pending_record {
          status = TransactionStatus.confirmed;
          confirmed_at = some 1000;
        }))
reconcile_one-confirms_example =
    reconcile_one-confirms services 1000 71 pending_record db refl refl refl refl refl refl refl
      refl refl

abbrev from_conversion : FromConversion
from_conversion = record { idempotency_key = 910; conversion_id = 60; wallet_account_id = 10 }

abbrev second_try : FromConversion
second_try = record { idempotency_key = 911; conversion_id = 60; wallet_account_id = 10 }

abbrev funded_db : Db
funded_db = (create_deposit_from_conversion services env 1 from_conversion db).1

funded : Returns (create_deposit_from_conversion services env 1 from_conversion db).0 (λ a. Unit)
unfolding create_deposit_from_conversion create_from get_consumable attach_deposit check_deposit
    assert_depositable assert_eligible_for_deposit evaluate assert_acknowledged is_usdc
    create_deposit_row generate_for build_deposit_xdr to_asset_units
funded = tt

second_key_is_new : find_deposit_by_key 911 funded_db ≡ none
unfolding create_deposit_from_conversion create_from get_consumable attach_deposit check_deposit
    assert_depositable assert_eligible_for_deposit evaluate assert_acknowledged is_usdc
    create_deposit_row generate_for build_deposit_xdr to_asset_units
second_key_is_new = refl

conversion_funds_once_example :
    create_deposit_from_conversion offline_services later 1 second_try funded_db
    ≡ (err already_consumed, funded_db)
conversion_funds_once_example =
    conversion_funds_once services offline_services env later 1 from_conversion second_try db refl
      funded refl second_key_is_new

abbrev confirmed_record : TransactionRecord
confirmed_record = record pending_record { status = TransactionStatus.confirmed }

views_agree_iff_example :
    ((list_view 1000 72 IntentStatus.failed 500000 none (some confirmed_record)).state
      ≡ (detail_view 1000 72 IntentStatus.failed 500000 none (some confirmed_record)).state)
    ↔ ((tx_confirmed (some confirmed_record) ≡ false)
        ⊎ (IntentStatus.failed ≡ IntentStatus.signed_xdr_received)
        ⊎ (IntentStatus.failed ≡ IntentStatus.submitted)
        ⊎ (IntentStatus.failed ≡ IntentStatus.confirmed))
views_agree_iff_example =
    views_agree_iff 1000 72 IntentStatus.failed 500000 none (some confirmed_record)
