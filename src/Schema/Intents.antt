-- ===== src/Schema/Intents.antt =====
-- prisma/schema.prisma: deposit and withdrawal intents, transaction records and conversions.
use smartpig_backend.Common.{ℕ, ℤ, Bool, List, Option, String}
use smartpig_backend.TransactionState.{IntentStatus, FailureCode}

-- A value of the decimal columns and of the decimal texts: `coefficient / 10 ^ scale`, negated if
-- `negative`.
pub record Decimal : Type 0 where
  pub negative : Bool
  pub coefficient : ℕ
  pub scale : ℕ

pub record DepositIntent : Type 0 where
  pub id : ℕ
  pub idempotency_key : ℕ
  pub user_id : ℕ
  pub wallet_account_id : ℕ
  pub vault_id : ℕ
  pub amount : Decimal
  pub asset_symbol : String
  pub status : IntentStatus
  pub unsigned_xdr : Option String
  pub signed_xdr : Option String
  pub error_message : Option String
  pub failure_code : Option FailureCode
  pub expires_at : ℕ
  pub created_at : ℕ
  pub updated_at : ℕ

pub record WithdrawalIntent : Type 0 where
  pub id : ℕ
  pub idempotency_key : ℕ
  pub user_id : ℕ
  pub wallet_account_id : ℕ
  pub vault_id : ℕ
  pub share_amount : Decimal
  pub requested_amount : Option Decimal
  pub status : IntentStatus
  pub unsigned_xdr : Option String
  pub signed_xdr : Option String
  pub error_message : Option String
  pub failure_code : Option FailureCode
  pub expires_at : ℕ
  pub created_at : ℕ
  pub updated_at : ℕ

pub data TransactionStatus : Type 0 where
  pending confirmed failed : TransactionStatus

pub data IntentType : Type 0 where
  deposit withdrawal : IntentType

pub record TransactionRecord : Type 0 where
  pub id : ℕ
  pub user_id : ℕ
  pub intent_type : IntentType
  pub deposit_intent_id : Option ℕ
  pub withdrawal_intent_id : Option ℕ
  pub tx_hash : Option String
  pub status : TransactionStatus
  pub confirmed_at : Option ℕ

pub data ConversionStatus : Type 0 where
  created xdr_generated signed_xdr_received submitted confirmed failed expired : ConversionStatus

-- `plannedDeposit`, a JSON column; a key may be missing from it.
pub record PlannedDeposit : Type 0 where
  pub vault_id : Option ℕ
  pub asset_symbol : String

-- The key of a conversion: one that a client chose, or `conv:` and the key of a deposit.
pub data ConversionKey : Type 0 where
  own derived : ℕ → ConversionKey

-- The assets and the path of the route, which only the log and the chain read, are left out.
pub record AssetConversion : Type 0 where
  pub id : ℕ
  pub idempotency_key : ConversionKey
  pub user_id : ℕ
  pub wallet_account_id : ℕ
  pub deposit_intent_id : Option ℕ
  pub planned_deposit : Option PlannedDeposit
  pub source_symbol : String
  pub target_symbol : String
  pub send_amount : Decimal
  pub quoted_dest_amount : Decimal
  pub dest_min : Decimal
  pub slippage_bps : ℤ
  pub received_amount : Option Decimal
  pub status : ConversionStatus
  pub unsigned_xdr : Option String
  pub signed_xdr : Option String
  pub tx_hash : Option String
  pub failure_code : Option FailureCode
  pub error_message : Option String
  pub expires_at : ℕ
  pub created_at : ℕ

pub data TrustlineStatus : Type 0 where
  pending_signature active failed : TrustlineStatus

-- `assetId` is `CODE:ISSUER`, or the symbol of the native asset.
pub record WalletTrustline : Type 0 where
  pub id : ℕ
  pub wallet_account_id : ℕ
  pub asset_id : List ℕ
  pub asset_symbol : String
  pub status : TrustlineStatus
  pub unsigned_xdr : Option String
  pub expires_at : Option ℕ
  pub tx_hash : Option String
  pub error_message : Option String
