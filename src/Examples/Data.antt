-- ===== src/Examples/Data.antt =====
-- Concrete tables, services and requests, and a decimal library that satisfies what the amounts
-- rely on.
use native.Mathlib.Nat.{div-add-mod'}
use smartpig_backend.Common.{
  ℕ, ◌*◌, ◌^◌, ◌/◌, ◌%◌, ◌-◌, ◌≡◌, refl, true, false, ◌||◌, none, some, [], ◌∷◌, ◌==◌, leb,
  if◌then◌else◌, pos, http, ErrorKind, Exception, ok, err, pure, arith, ==_iff,
}
use smartpig_backend.TransactionState.{IntentStatus}
use smartpig_backend.Environment.{Env}
use smartpig_backend.Schema.{Db}
use smartpig_backend.Schema.Vaults.{ExperienceMode, User, Vault, Policy, Disclosure}
use smartpig_backend.Schema.Intents.{
  Decimal, DepositIntent, WithdrawalIntent, TransactionRecord, TransactionStatus, IntentType,
  AssetConversion, ConversionStatus, ConversionKey,
}
use smartpig_backend.AssetAmount.{DecimalLib}
use smartpig_backend.AssetAmount.Exactness.{IsExact}
use smartpig_backend.Services.{Services, ConversionQuote}

-- Decimals by division of the coefficient.
abbrev pub plain_decimals : DecimalLib
plain_decimals = record {
  lte_zero = λ d. d.negative || d.coefficient == 0;
  mul_pow10 = λ d k. record d { coefficient = d.coefficient * 10 ^ k };
  is_integer = λ d. d.coefficient % 10 ^ d.scale == 0;
  to_number = λ d. d.coefficient / 10 ^ d.scale;
  round_down = λ d k.
      if leb d.scale k
      then d
      else record d { coefficient = d.coefficient / 10 ^ (d.scale - k); scale = k };
}

exact_division : (c p : ℕ) → (c % p == 0) ≡ true → c ≡ c / p * p
exact_division c p h = omega (arith, div-add-mod' c p, (==_iff (c % p) 0).0 h)

pub plain_decimals-IsExact : IsExact plain_decimals
plain_decimals-IsExact = record {
  lte_zero_iff = λ d. (λ h. ground arith, λ h. ground arith);
  mul_pow10_value = λ d k h. refl;
  to_number_value = λ d h safe. exact_division d.coefficient (10 ^ d.scale) h;
}

abbrev pub amount : Decimal
amount = record { negative = false; coefficient = 150; scale = 1 }

abbrev pub timeout : Exception
timeout = http ErrorKind.plain "timeout of 30000ms exceeded"

abbrev pub quote : ConversionQuote
quote = record {
  id = 90;
  unsigned_xdr = some "AAAAconv";
  send_amount = amount;
  quoted_dest_amount = amount;
  dest_min = amount;
  source_symbol = "EURC";
  target_symbol = "USDC";
}

-- Every call answers, and the network accepts.
abbrev pub services : Services
services = record {
  decimals = plain_decimals;
  generate_deposit_xdr = λ request. ok (some "AAAA");
  generate_withdraw_xdr = λ request. ok (some "BBBB");
  submit_signed_transaction = λ xdr. ok (record { success = true; tx_hash = "f00d" });
  build_sponsored_fee_bump_xdr = λ signed unsigned. ok signed;
  create_conversion = λ request. pure quote;
}

abbrev pub offline_services : Services
offline_services = record services { submit_signed_transaction = λ xdr. err timeout }

abbrev pub env : Env
env = record {
  now = 1000;
  allowed_vault_ids = [];
  enforce_vault_education = true;
  enforce_vault_disclosure = true;
  conversions_disabled = false;
}

abbrev pub later : Env
later = record env { now = 2000 }

abbrev pub lite_user : User
lite_user = record { id = 2; experience_mode = some ExperienceMode.lite }

abbrev pub usdc_vault : Vault
usdc_vault = record {
  id = 5;
  defindex_vault_id = "CUSDC";
  asset_symbol = "USDC";
  asset_decimals = pos 7;
  is_active = true;
  deposits_enabled = true;
  display_order = 1;
}

abbrev pub delisted_vault : Vault
delisted_vault = record usdc_vault { id = 6; is_active = false }

abbrev pub policy : Policy
policy = record {
  id = 30;
  vault_id = 7;
  version = 1;
  minimum_level = 2;
  is_active = true;
  published_at = some 10;
  required_modules = record { module_id = 40; key = "intro" } ∷ [];
}

abbrev pub disclosure : Disclosure
disclosure = record { id = 50; vault_id = 7; version = 3; risks = "[]"; published_at = some 20 }

abbrev pub conversion : AssetConversion
conversion = record {
  id = 60;
  idempotency_key = ConversionKey.own 600;
  user_id = 1;
  wallet_account_id = 10;
  deposit_intent_id = none;
  planned_deposit = some (record { vault_id = some 5; asset_symbol = "USDC" });
  source_symbol = "EURC";
  target_symbol = "USDC";
  send_amount = amount;
  quoted_dest_amount = amount;
  dest_min = amount;
  slippage_bps = pos 50;
  received_amount = some amount;
  status = ConversionStatus.confirmed;
  unsigned_xdr = some "CCCC";
  signed_xdr = some "SIGNED";
  tx_hash = some "c0de";
  failure_code = none;
  error_message = none;
  expires_at = 5000;
  created_at = 100;
}

abbrev pub deposit_row : DepositIntent
deposit_row = record {
  id = 70;
  idempotency_key = 700;
  user_id = 1;
  wallet_account_id = 10;
  vault_id = 5;
  amount = amount;
  asset_symbol = "USDC";
  status = IntentStatus.xdr_generated;
  unsigned_xdr = some "AAAA";
  signed_xdr = none;
  error_message = none;
  failure_code = none;
  expires_at = 500000;
  created_at = 100;
  updated_at = 100;
}

abbrev pub submitted_row : DepositIntent
submitted_row = record deposit_row {
  id = 71;
  idempotency_key = 701;
  status = IntentStatus.submitted;
  signed_xdr = some "SIGNED";
}

abbrev pub failed_row : DepositIntent
failed_row = record deposit_row {
  id = 72;
  idempotency_key = 702;
  status = IntentStatus.failed;
  updated_at = 900;
}

abbrev pub expired_row : DepositIntent
expired_row = record deposit_row { id = 73; idempotency_key = 703; expires_at = 200 }

abbrev pub pending_record : TransactionRecord
pending_record = record {
  id = 80;
  user_id = 1;
  intent_type = IntentType.deposit;
  deposit_intent_id = some 71;
  withdrawal_intent_id = none;
  tx_hash = some "beef";
  status = TransactionStatus.pending;
  confirmed_at = none;
}

abbrev pub withdrawal_row : WithdrawalIntent
withdrawal_row = record {
  id = 75;
  idempotency_key = 705;
  user_id = 2;
  wallet_account_id = 11;
  vault_id = 5;
  share_amount = amount;
  requested_amount = none;
  status = IntentStatus.xdr_generated;
  unsigned_xdr = some "BBBB";
  signed_xdr = none;
  error_message = none;
  failure_code = none;
  expires_at = 500000;
  created_at = 100;
  updated_at = 100;
}

abbrev pub db : Db
db = record {
  users = record { id = 1; experience_mode = none } ∷ lite_user ∷ [];
  wallets =
      record { id = 10; user_id = 1; stellar_address = "GA"; is_active = true; is_activated = true }
      ∷ record {
        id = 11;
        user_id = 2;
        stellar_address = "GB";
        is_active = true;
        is_activated = true;
      }
      ∷ [];
  vaults = usdc_vault ∷ delisted_vault ∷ record usdc_vault { id = 7; asset_symbol = "EURC" } ∷ [];
  modules = record { id = 40; key = "intro"; is_published = true } ∷ [];
  policies = policy ∷ [];
  unlocks = [];
  accounts = record { user_id = 2; current_level = 3 } ∷ [];
  progress = record { user_id = 2; module_id = 40; completed_at = some 30 } ∷ [];
  disclosures = disclosure ∷ [];
  acknowledgments = [];
  disclosure_cache = [];
  deposits = deposit_row ∷ submitted_row ∷ failed_row ∷ expired_row ∷ [];
  withdrawals = withdrawal_row ∷ [];
  transactions = pending_record ∷ [];
  conversions = conversion ∷ [];
  trustlines = [];
  next_id = 100;
}
