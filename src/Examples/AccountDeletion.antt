-- ===== src/Examples/AccountDeletion.antt =====
-- The laws of a deleted account, on the rows of two users.
use smartpig_backend.Common.{
  ℕ, ◌≡◌, refl, true, false, none, some, List, [], ◌∷◌, any?, arith, http, ErrorKind, Exception, ok,
  err, Fails, Found, String, ltb, ◌+◌, same_text,
}
use smartpig_backend.Schema.Vaults.{ExperienceMode}
use smartpig_backend.Gifts.Rows.{GiftStatus}
use smartpig_backend.AccountDeletion.Rows.{
  DeletionStatus, DeletionRequest, Sealed, Person, Wallet, SentGift, Derived, Personal, DeletionDb,
}
use smartpig_backend.AccountDeletion.Eligibility.{
  Balances, Eligibility, check, zero_amount, in_scope, find_closing_wallet, vault_balances,
  read_vault, vault_blockers, lost_total, held_assets, asset_blockers, swept_total, gift_blockers,
  in_flight_blockers,
}
use smartpig_backend.AccountDeletion.Scrub.{scrub}
use smartpig_backend.AccountDeletion.Requests.{DeletionServices, find_request, confirm_deletion}
use smartpig_backend.AccountDeletion.Cleanup.{is_pending}
use smartpig_backend.AccountDeletion.Attempts.{left}
use smartpig_backend.AccountDeletion.Erasure.{ScrubOutcome, scrub-Outcome}
use smartpig_backend.AccountDeletion.Sparing.{IsSpared, scrub-IsSpared}
use smartpig_backend.AccountDeletion.Forgetting.{
  DeletionOperation, Forgets, run_all, run_all-Forgets,
}
use smartpig_backend.AccountDeletion.Confirming.{ConfirmOutcome, confirm_deletion-Outcome}
use smartpig_backend.AccountDeletion.Reconfirming.{reconfirm_strands}
use smartpig_backend.AccountDeletion.Draining.{run_rounds, rounds_drain}
use smartpig_backend.Examples.Data.{amount, usdc_vault, deposit_row}

abbrev refused : Exception
refused = http ErrorKind.bad_request "tx_failed"

abbrev vanished : Exception
vanished = http ErrorKind.service_unavailable "timeout"

-- Everything is empty, the network refuses, the partners do not answer.
abbrev balances : Balances
balances = record {
  get_vault_balance = λ vault address. ok zero_amount;
  get_wallet_balances = λ address. ok (record { asset = "USDC"; balance = zero_amount } ∷ []);
  usdc_asset_id = "USDC";
  exceeds_dust = λ a. ltb 1000000 a.coefficient;
  is_positive = λ a. ltb 0 a.coefficient;
  plus = λ a b. record a { coefficient = a.coefficient + b.coefficient };
  whole_units = λ a decimals. a;
}

abbrev broken : DeletionServices
broken = record {
  balances = balances;
  allowed_vault_ids = [];
  build_account_closure_xdr =
      λ address. ok (record { xdr = "CLOSE"; swept_amount = none; swept_asset_symbol = none });
  submit_fee_bump_transaction = λ signed expected. err refused;
  delete_customer = λ id. err vanished;
  delete_user = λ id. err vanished;
}

abbrev working : DeletionServices
working = record broken {
  submit_fee_bump_transaction = λ signed expected. ok "beef";
  delete_customer = λ id. ok tt;
  delete_user = λ id. ok tt;
}

abbrev person : ℕ → Person
person id = record {
  id = id;
  name = some "Ana";
  email = some "ana@mail";
  avatar_url = none;
  google_id = none;
  apple_id = none;
  username = none;
  username_set_at = none;
  is_onboarded = true;
  experience_mode = some ExperienceMode.lite;
  experience_mode_updated_at = none;
  deleted_at = none;
}

abbrev wallet : ℕ → ℕ → String → Wallet
wallet id user address = record {
  id = id;
  user_id = user;
  stellar_address = Sealed.kept address;
  archived_stellar_address = none;
  label = some "main";
  activation_unsigned_xdr = none;
  activation_error_message = none;
  is_active = true;
  is_activated = true;
  created_at = 100;
}

abbrev unfunded_gift : SentGift
unfunded_gift = record {
  id = 60;
  sender_user_id = 1;
  code = Sealed.kept 600;
  amount = amount;
  status = GiftStatus.created;
  balance_id = none;
  error_message = none;
  expires_at = 900;
}

abbrev derived : Derived
derived = record {
  vault_unlocks = 1 ∷ 2 ∷ [];
  reward_unlocks = [];
  xp_entries = 1 ∷ 1 ∷ 2 ∷ [];
  xp_accounts = 2 ∷ 1 ∷ [];
  question_progress = [];
  module_progress = [];
  refresh_tokens = 1 ∷ [];
  push_devices = [];
  notifications = 2 ∷ [];
  notification_preferences = [];
}

abbrev personal : Personal
personal = record {
  users = person 1 ∷ person 2 ∷ [];
  wallets = wallet 10 1 "GA" ∷ wallet 11 2 "GB" ∷ [];
  receivers =
      record {
        id = 20;
        user_id = 1;
        blindpay_receiver_id = "re_1";
        tax_id = some "000";
        name = some "Ana";
        tos_id = none;
        kyc_warnings = none;
        rejection_reason = none;
      }
      ∷ [];
  kyc_attempts = [];
  blindpay_accounts = record { receiver_id = 20; pix_key = some "ana@mail" } ∷ [];
  blockchain_wallets = record { id = 30; receiver_id = 20; address = Sealed.kept "GA" } ∷ [];
  deposits = record deposit_row { user_id = 2 } ∷ [];
  withdrawals = [];
  transactions = [];
  onramps = [];
  offramps = [];
  etherfuse_customers = [];
  etherfuse_accounts = [];
  etherfuse_orders = [];
  gifts = unfunded_gift ∷ [];
  audit_logs = [];
  snapshots = [];
  derived = derived;
}

-- A request whose external deletions are pending.
abbrev scrubbed : DeletionRequest
scrubbed = record {
  id = 90;
  idempotency_key = 900;
  user_id = 1;
  privy_user_id = some "did:1";
  status = DeletionStatus.local_scrubbed;
  closure_unsigned_xdr = some "CLOSE";
  closure_tx_hash = some "beef";
  swept_amount = none;
  swept_asset_symbol = none;
  accepted_at = some 500;
  blindpay_deleted_at = none;
  privy_deleted_at = none;
  cleanup_attempts = 1;
  error_message = none;
  created_at = 100;
  updated_at = 500;
}

abbrev db : DeletionDb
db = record {
  requests = scrubbed ∷ [];
  personal = personal;
  vaults = usdc_vault ∷ [];
  next_id = 200;
}

abbrev clear : Eligibility
clear = record {
  eligible = true;
  blockers = [];
  swept_to_treasury = zero_amount;
  permanently_lost = zero_amount;
}

-- The deposit on its way is that of the other user.
checked : check balances [] 1 db ≡ ok clear
unfolding check in_scope find_closing_wallet vault_balances read_vault vault_blockers lost_total
    held_assets asset_blockers swept_total gift_blockers in_flight_blockers same_text
checked = refl

scrub-Outcome_example : ScrubOutcome 1 db (scrub 700 1 db)
scrub-Outcome_example = scrub-Outcome 700 1 db

scrub-IsSpared_example : IsSpared 1 personal (scrub 700 1 db).1.personal
scrub-IsSpared_example = scrub-IsSpared 700 1 db

-- Two rounds are enough for the two attempts that are left.
abbrev rounds : List (DeletionServices × ℕ)
rounds = (broken, 800) ∷ (broken, 900) ∷ []

two_left : left 3 scrubbed ≡ 2
unfolding left
two_left = refl

rounds_drain_example : any? (is_pending 3) (run_rounds 3 rounds db).requests ≡ false
rounds_drain_example = rounds_drain 3 rounds db (refl, tt) (omega (arith, two_left))

abbrev operations : List DeletionOperation
operations =
    DeletionOperation.request working 600 1 "did:1" 901
    ∷ DeletionOperation.confirm working 700 1 "did:1" 200 (some "SIGNED")
    ∷ DeletionOperation.retry working 5 800
    ∷ []

unfinished : Forgets db
unfinished = ((λ h. absurd cc), tt)

run_all-Forgets_example : Forgets (run_all operations db)
run_all-Forgets_example = run_all-Forgets operations db unfinished

confirm_deletion-Outcome_example :
    ConfirmOutcome working 700 90 1 db
      (confirm_deletion working 700 1 "did:1" 90 (some "SIGNED") db)
confirm_deletion-Outcome_example =
    confirm_deletion-Outcome working 700 1 "did:1" 90 (some "SIGNED") db

reconfirm_strands_example :
    Fails (confirm_deletion broken 700 1 "did:1" 90 (some "SIGNED") db).0
    × Found
        (find_request 90 (confirm_deletion broken 700 1 "did:1" 90 (some "SIGNED") db).1)
        (λ q. (q.status ≡ DeletionStatus.failed) × (is_pending 5 q ≡ false))
reconfirm_strands_example =
    reconfirm_strands broken 700 1 "did:1" "SIGNED" 90 5 db scrubbed clear refused refl refl refl
      refl refl checked refl refl
