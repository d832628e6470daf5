-- ===== src/AccountDeletion/Rows.antt =====
-- The tables of an account deletion (prisma/schema.prisma), with the columns that it reads or writes.
use smartpig_backend.Common.{ℕ, Bool, List, Option, String}
use smartpig_backend.Schema.Vaults.{ExperienceMode, Vault}
use smartpig_backend.Schema.Intents.{Decimal, DepositIntent, WithdrawalIntent, TransactionRecord}
use smartpig_backend.Gifts.Rows.{GiftStatus}

pub data DeletionStatus : Type 0 where
  requested pending_signature chain_closed local_scrubbed completed failed : DeletionStatus

pub record DeletionRequest : Type 0 where
  pub id : ℕ
  pub idempotency_key : ℕ
  pub user_id : ℕ
  -- The identity provider's id of the user.
  pub privy_user_id : Option String
  pub status : DeletionStatus
  pub closure_unsigned_xdr : Option String
  pub closure_tx_hash : Option String
  pub swept_amount : Option Decimal
  pub swept_asset_symbol : Option String
  -- `acceptedAt` of the acknowledgements: the three flags beside it are true, by the DTO.
  pub accepted_at : Option ℕ
  pub blindpay_deleted_at : Option ℕ
  pub privy_deleted_at : Option ℕ
  pub cleanup_attempts : ℕ
  pub error_message : Option String
  pub created_at : ℕ
  pub updated_at : ℕ

-- A unique column that the scrub overwrites: what it held, or `deleted:` and the identifier of the row.
pub data Sealed (A : Type 0) : Type 0 where
  kept : A → Sealed A
  deleted : ℕ → Sealed A

pub record Person : Type 0 where
  pub id : ℕ
  pub name : Option String
  pub email : Option String
  pub avatar_url : Option String
  pub google_id : Option String
  pub apple_id : Option String
  pub username : Option String
  pub username_set_at : Option ℕ
  pub is_onboarded : Bool
  pub experience_mode : Option ExperienceMode
  pub experience_mode_updated_at : Option ℕ
  pub deleted_at : Option ℕ

pub record Wallet : Type 0 where
  pub id : ℕ
  pub user_id : ℕ
  pub stellar_address : Sealed String
  pub archived_stellar_address : Option (Sealed String)
  pub label : Option String
  pub activation_unsigned_xdr : Option String
  pub activation_error_message : Option String
  pub is_active : Bool
  pub is_activated : Bool
  pub created_at : ℕ

pub record SentGift : Type 0 where
  pub id : ℕ
  pub sender_user_id : ℕ
  pub code : Sealed ℕ
  pub amount : Decimal
  pub status : GiftStatus
  pub balance_id : Option ℕ
  pub error_message : Option String
  pub expires_at : ℕ

pub record Receiver : Type 0 where
  pub id : ℕ
  pub user_id : ℕ
  pub blindpay_receiver_id : String
  pub tax_id : Option String
  pub name : Option String
  pub tos_id : Option String
  pub kyc_warnings : Option String
  pub rejection_reason : Option String

pub record KycAttempt : Type 0 where
  pub receiver_id : ℕ
  pub rejection_reason : Option String
  pub warnings : Option String

pub record BlindPayBankAccount : Type 0 where
  pub receiver_id : ℕ
  pub pix_key : Option String

pub record BlockchainWallet : Type 0 where
  pub id : ℕ
  pub receiver_id : ℕ
  pub address : Sealed String

pub data RampStatus : Type 0 where
  pending awaiting_payment processing delegation_needed completed failed refunded : RampStatus

pub record Onramp : Type 0 where
  pub user_id : ℕ
  pub status : RampStatus
  pub pix_code : Option String
  pub error_message : Option String

pub record Offramp : Type 0 where
  pub user_id : ℕ
  pub status : RampStatus
  pub unsigned_delegation_xdr : Option String
  pub signed_delegation_hash : Option String
  pub error_message : Option String

pub record EtherfuseCustomer : Type 0 where
  pub id : ℕ
  pub user_id : ℕ

pub record EtherfuseBankAccount : Type 0 where
  pub customer_id : ℕ
  pub clabe : Option String
  pub pix_key : Option String
  pub pix_key_type : Option String

pub data OrderStatus : Type 0 where
  created pending_signature processing completed failed refunded : OrderStatus

pub record EtherfuseOrder : Type 0 where
  pub customer_id : ℕ
  pub status : OrderStatus
  pub unsigned_burn_xdr : Option String
  pub signed_burn_xdr : Option String

pub record AuditLog : Type 0 where
  pub user_id : Option ℕ
  pub ip_address : Option String
  pub user_agent : Option String
  pub payload : Option String

pub record Snapshot : Type 0 where
  pub user_id : ℕ
  pub vault_id : ℕ

-- The tables whose rows are only deleted: of each row, the user that owns it.
pub record Derived : Type 0 where
  pub vault_unlocks : List ℕ
  pub reward_unlocks : List ℕ
  pub xp_entries : List ℕ
  pub xp_accounts : List ℕ
  pub question_progress : List ℕ
  pub module_progress : List ℕ
  pub refresh_tokens : List ℕ
  pub push_devices : List ℕ
  pub notifications : List ℕ
  pub notification_preferences : List ℕ

pub record Personal : Type 0 where
  pub users : List Person
  pub wallets : List Wallet
  pub receivers : List Receiver
  pub kyc_attempts : List KycAttempt
  pub blindpay_accounts : List BlindPayBankAccount
  pub blockchain_wallets : List BlockchainWallet
  pub deposits : List DepositIntent
  pub withdrawals : List WithdrawalIntent
  pub transactions : List TransactionRecord
  pub onramps : List Onramp
  pub offramps : List Offramp
  pub etherfuse_customers : List EtherfuseCustomer
  pub etherfuse_accounts : List EtherfuseBankAccount
  pub etherfuse_orders : List EtherfuseOrder
  pub gifts : List SentGift
  pub audit_logs : List AuditLog
  pub snapshots : List Snapshot
  pub derived : Derived

pub record DeletionDb : Type 0 where
  pub requests : List DeletionRequest
  pub personal : Personal
  pub vaults : List Vault
  pub next_id : ℕ
