-- ===== src/Services.antt =====
-- What the intent services call outside the modelled files: the DeFindex client, the Stellar client,
-- decimal.js, and the conversion that a deposit may plan first. They are parameters.
use smartpig_backend.Common.{ℕ, List, Option, String, Bool, Result, Action}
use smartpig_backend.AssetAmount.{DecimalLib}
use smartpig_backend.Schema.{Db}
use smartpig_backend.Schema.Intents.{Decimal, PlannedDeposit, ConversionKey}

pub record DepositXdrRequest : Type 0 where
  pub vault_address : String
  pub caller_address : String
  pub amounts : List ℕ

pub record WithdrawXdrRequest : Type 0 where
  pub vault_address : String
  pub caller_address : String
  pub share_amount : ℕ

pub record SubmitResult : Type 0 where
  pub success : Bool
  pub tx_hash : String

pub record ConversionRequest : Type 0 where
  pub idempotency_key : ConversionKey
  pub user_id : ℕ
  pub wallet_account_id : ℕ
  pub to_symbol : String
  pub amount : Decimal
  pub planned_deposit : PlannedDeposit

-- The row that `createConversion` answers with.
pub record ConversionQuote : Type 0 where
  pub id : ℕ
  pub unsigned_xdr : Option String
  pub send_amount : Decimal
  pub quoted_dest_amount : Decimal
  pub dest_min : Decimal
  pub source_symbol : String
  pub target_symbol : String

pub record Services : Type 0 where
  pub decimals : DecimalLib
  pub generate_deposit_xdr : DepositXdrRequest → Result (Option String)
  pub generate_withdraw_xdr : WithdrawXdrRequest → Result (Option String)
  pub submit_signed_transaction : String → Result SubmitResult
  -- `buildSponsoredFeeBumpXdr(signedXdr, expectedUnsignedXdr)`
  pub build_sponsored_fee_bump_xdr : String → String → Result String
  -- `ConversionsService.createConversion`
  pub create_conversion : ConversionRequest → Action Db ConversionQuote
