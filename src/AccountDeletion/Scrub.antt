-- ===== src/AccountDeletion/Scrub.antt =====
-- The erasure (src/account-deletion/scrub.service.ts). Each step is a function on the tables; the whole
-- is one transaction.
use smartpig_backend.Common.{
  ℕ, Bool, false, not, Option, none, some, List, String, ◌==◌, find?, filter, update_where, Action,
  gets, modify, or_throw, ◌>>=◌,
}
use smartpig_backend.Schema.Intents.{DepositIntent, WithdrawalIntent}
use smartpig_backend.Gifts.Rows.{GiftStatus}
use smartpig_backend.Intents.Rows.{record_not_found}
use smartpig_backend.AccountDeletion.Rows.{
  Sealed, Person, Wallet, SentGift, Receiver, KycAttempt, BlindPayBankAccount, BlockchainWallet,
  Onramp, Offramp, EtherfuseCustomer, EtherfuseBankAccount, EtherfuseOrder, AuditLog, Derived,
  Personal, DeletionDb,
}

-- The columns that the bulk updates of the scrub clear.
abbrev pub clear_attempt : KycAttempt → KycAttempt
clear_attempt a = record a { rejection_reason = none; warnings = none }

abbrev pub clear_account : BlindPayBankAccount → BlindPayBankAccount
clear_account a = record a { pix_key = none }

abbrev pub seal_address : BlockchainWallet → BlockchainWallet
seal_address w = record w { address = Sealed.deleted w.id }

abbrev pub clear_deposit : ℕ → DepositIntent → DepositIntent
clear_deposit now d = record d { unsigned_xdr = none; signed_xdr = none; updated_at = now }

abbrev pub clear_withdrawal : ℕ → WithdrawalIntent → WithdrawalIntent
clear_withdrawal now w = record w { unsigned_xdr = none; signed_xdr = none; updated_at = now }

abbrev pub clear_onramp : Onramp → Onramp
clear_onramp r = record r { pix_code = none; error_message = none }

abbrev pub clear_bank_account : EtherfuseBankAccount → EtherfuseBankAccount
clear_bank_account a = record a { clabe = none; pix_key = none; pix_key_type = none }

abbrev pub clear_order : EtherfuseOrder → EtherfuseOrder
clear_order o = record o { unsigned_burn_xdr = none; signed_burn_xdr = none }

abbrev pub clear_log : AuditLog → AuditLog
clear_log l = record l { ip_address = none; user_agent = none; payload = none }

abbrev pub clear_offramp : Offramp → Offramp
clear_offramp r = record r {
  unsigned_delegation_xdr = none;
  signed_delegation_hash = none;
  error_message = none;
}

abbrev pub scrub_wallet : Wallet → Wallet
scrub_wallet w = record w {
  stellar_address = Sealed.deleted w.id;
  archived_stellar_address = some w.stellar_address;
  label = none;
  activation_unsigned_xdr = none;
  activation_error_message = none;
  is_active = false;
}

abbrev pub owns_wallet : ℕ → Wallet → Bool
owns_wallet user w = w.user_id == user

unfoldable pub scrub_wallets : ℕ → Personal → Personal
scrub_wallets user db = record db {
  wallets = update_where (owns_wallet user) scrub_wallet db.wallets;
}

-- `DELETED_NAME`
abbrev pub deleted_name : String
deleted_name = "Conta excluída"

abbrev pub scrub_receiver : Receiver → Receiver
scrub_receiver r = record r {
  tax_id = none;
  name = some deleted_name;
  tos_id = none;
  kyc_warnings = none;
  rejection_reason = none;
}

unfoldable pub find_receiver : ℕ → Personal → Option Receiver
find_receiver user db = find? (λ r. r.user_id == user) db.receivers

-- The receiver of the user, and what belongs to it.
unfoldable pub scrub_of_receiver : ℕ → Personal → Personal
scrub_of_receiver receiver db = record db {
  receivers = update_where (λ r. r.id == receiver) scrub_receiver db.receivers;
  kyc_attempts = update_where (λ a. a.receiver_id == receiver) clear_attempt db.kyc_attempts;
  blindpay_accounts =
      update_where (λ a. a.receiver_id == receiver) clear_account db.blindpay_accounts;
  blockchain_wallets =
      update_where (λ w. w.receiver_id == receiver) seal_address db.blockchain_wallets;
}

abbrev pub scrub_found_receiver : Option Receiver → Personal → Personal
scrub_found_receiver none db = db
scrub_found_receiver (some r) db = scrub_of_receiver r.id db

unfoldable pub scrub_blindpay : ℕ → Personal → Personal
scrub_blindpay user db = scrub_found_receiver (find_receiver user db) db

unfoldable pub scrub_intents : ℕ → ℕ → Personal → Personal
scrub_intents now user db = record db {
  deposits = update_where (λ d. d.user_id == user) (clear_deposit now) db.deposits;
  withdrawals = update_where (λ w. w.user_id == user) (clear_withdrawal now) db.withdrawals;
}

unfoldable pub scrub_ramps : ℕ → Personal → Personal
scrub_ramps user db = record db {
  onramps = update_where (λ r. r.user_id == user) clear_onramp db.onramps;
  offramps = update_where (λ r. r.user_id == user) clear_offramp db.offramps;
}

unfoldable pub find_customer : ℕ → Personal → Option EtherfuseCustomer
find_customer user db = find? (λ c. c.user_id == user) db.etherfuse_customers

unfoldable pub scrub_of_customer : ℕ → Personal → Personal
scrub_of_customer customer db = record db {
  etherfuse_accounts =
      update_where (λ a. a.customer_id == customer) clear_bank_account db.etherfuse_accounts;
  etherfuse_orders = update_where (λ o. o.customer_id == customer) clear_order db.etherfuse_orders;
}

abbrev pub scrub_found_customer : Option EtherfuseCustomer → Personal → Personal
scrub_found_customer none db = db
scrub_found_customer (some c) db = scrub_of_customer c.id db

unfoldable pub scrub_etherfuse : ℕ → Personal → Personal
scrub_etherfuse user db = scrub_found_customer (find_customer user db) db

abbrev pub closed_status : GiftStatus → GiftStatus
closed_status GiftStatus.created = GiftStatus.expired
closed_status other = other

-- The link dies, and an unfunded gift with it.
abbrev pub scrub_gift : SentGift → SentGift
scrub_gift g = record g {
  code = Sealed.deleted g.id;
  error_message = none;
  status = closed_status g.status;
}

abbrev pub sent_by : ℕ → SentGift → Bool
sent_by user g = g.sender_user_id == user

unfoldable pub scrub_gifts : ℕ → Personal → Personal
scrub_gifts user db = record db { gifts = update_where (sent_by user) scrub_gift db.gifts }

abbrev pub logged_by : ℕ → AuditLog → Bool
logged_by user l = elim l.user_id [ none ↦ false | some id ↦ id == user ]

unfoldable pub scrub_audit_logs : ℕ → Personal → Personal
scrub_audit_logs user db = record db {
  audit_logs = update_where (logged_by user) clear_log db.audit_logs;
}

-- `deleteMany({ where: { userId } })`, of the owners of the rows
abbrev pub delete_owned : ℕ → List ℕ → List ℕ
delete_owned user owners = filter (λ owner. not (owner == user)) owners

abbrev pub delete_each : ℕ → Derived → Derived
delete_each user d = record {
  vault_unlocks = delete_owned user d.vault_unlocks;
  reward_unlocks = delete_owned user d.reward_unlocks;
  xp_entries = delete_owned user d.xp_entries;
  xp_accounts = delete_owned user d.xp_accounts;
  question_progress = delete_owned user d.question_progress;
  module_progress = delete_owned user d.module_progress;
  refresh_tokens = delete_owned user d.refresh_tokens;
  push_devices = delete_owned user d.push_devices;
  notifications = delete_owned user d.notifications;
  notification_preferences = delete_owned user d.notification_preferences;
}

unfoldable pub delete_derived : ℕ → Personal → Personal
delete_derived user db = record db {
  derived = delete_each user db.derived;
  snapshots = filter (λ s. not (s.user_id == user)) db.snapshots;
}

abbrev pub bury : ℕ → Person → Person
bury now u = record u {
  name = none;
  email = none;
  avatar_url = none;
  google_id = none;
  apple_id = none;
  username = none;
  username_set_at = none;
  is_onboarded = false;
  experience_mode = none;
  experience_mode_updated_at = none;
  deleted_at = some now;
}

abbrev pub is_person : ℕ → Person → Bool
is_person user u = u.id == user

unfoldable pub tombstone : ℕ → ℕ → Personal → Personal
tombstone now user db = record db { users = update_where (is_person user) (bury now) db.users }

-- The steps in their order.
unfoldable pub scrub_all : ℕ → ℕ → Personal → Personal
scrub_all now user db = tombstone now user (
    delete_derived user (
      scrub_audit_logs user (
        scrub_gifts user (
          scrub_etherfuse user (
            scrub_ramps user
              (scrub_intents now user (scrub_blindpay user (scrub_wallets user db))))))))

-- `scrub`: the update of a user that is not there throws, and the transaction leaves nothing behind.
unfoldable pub scrub : ℕ → ℕ → Action DeletionDb (Unit {0})
scrub now user = do
  person ← or_throw (← gets (λ db. find? (is_person user) db.personal.users)) record_not_found
  modify (λ db. record db { personal = scrub_all now user db.personal })
