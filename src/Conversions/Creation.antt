-- ===== src/Conversions/Creation.antt =====
-- Creating a conversion (src/conversions/conversions.service.ts: quote, createConversion, fail).
use smartpig_backend.Common.{
  ℕ, ◌+◌, Bool, false, ◌&&◌, Option, none, some, List, ◌∷◌, String, ◌==◌, if◌then◌else◌, find?,
  find_least, update_where, is_present, get_or_else, codes, same_text, http, ErrorKind, Exception,
  Result, ok, err, Action, pure, throw, gets, modify, lift, or_throw, throw_if, ◌>>=◌, ◌>>◌,
}
use smartpig_backend.TransactionState.{FailureCode}
use smartpig_backend.FailureClassifier.{classify_failure}
use smartpig_backend.Environment.{Env}
use smartpig_backend.Schema.{Db}
use smartpig_backend.Schema.Vaults.{Vault, WalletAccount}
use smartpig_backend.Schema.Intents.{
  Decimal, AssetConversion, ConversionStatus, ConversionKey, PlannedDeposit,
}
use smartpig_backend.Services.{ConversionQuote, ConversionRequest}
use smartpig_backend.AssetRegistry.{AssetDefinition, get_asset, get_funding_asset}
use smartpig_backend.StellarChain.{StellarChain}
use smartpig_backend.Quotes
use smartpig_backend.Quotes.{AssetQuote, to_path_assets}
use smartpig_backend.Trustlines.{ensure_trustline}
use smartpig_backend.VaultEligibility.{assert_eligible_for_deposit}
use smartpig_backend.Intents.Rows.{find_active_wallet, wallet_not_found, record_not_found}
use smartpig_backend.Conversions.{find_conversion, planned_vault}

-- `CONVERSION_TTL_MS`
abbrev pub conversion_ttl_ms : ℕ
conversion_ttl_ms = 480000

abbrev pub conversion_disabled : Exception
conversion_disabled = http ErrorKind.service_unavailable "CONVERSION_DISABLED"

abbrev pub no_conversion_needed : Exception
no_conversion_needed = http ErrorKind.bad_request "Asset needs no conversion"

abbrev pub no_eligibility_vault : Exception
no_eligibility_vault = http ErrorKind.not_found "Active vault not found for conversion eligibility"

abbrev pub trustline_required : Exception
trustline_required = http ErrorKind.conflict "TRUSTLINE_REQUIRED"

unfoldable pub same_key : ConversionKey → ConversionKey → Bool
same_key (ConversionKey.own a) (ConversionKey.own b) = a == b
same_key (ConversionKey.derived a) (ConversionKey.derived b) = a == b
same_key _ _ = false

abbrev pub find_conversion_by_key : ConversionKey → Db → Option AssetConversion
find_conversion_by_key key db = find? (λ c. same_key c.idempotency_key key) db.conversions

abbrev pub same_symbol : String → String → Bool
same_symbol a b = same_text (codes a) (codes b)

-- The request of the controller, and of a deposit that plans a conversion first.
pub record CreateConversion : Type 0 where
  pub idempotency_key : ConversionKey
  pub user_id : ℕ
  pub wallet_account_id : ℕ
  pub from_symbol : Option String
  pub to_symbol : String
  pub amount : Decimal
  pub planned_deposit : Option PlannedDeposit

-- `params.fromSymbol ? getAsset(params.fromSymbol) : getFundingAsset()`
unfoldable pub source_asset : List AssetDefinition → Option String → Result AssetDefinition
source_asset assets symbol =
    if is_present symbol then get_asset assets (get_or_else symbol "") else get_funding_asset assets

-- The vault whose education gate governs the target asset.
unfoldable pub eligibility_vault : Option PlannedDeposit → String → Db → Option Vault
eligibility_vault planned symbol db = elim (planned_vault planned) [
  | some id ↦ find? (λ v. v.id == id && same_symbol v.asset_symbol symbol && v.is_active) db.vaults
  | none ↦
      find_least (λ v. same_symbol v.asset_symbol symbol && v.is_active) (λ v. v.display_order)
        db.vaults
]

unfoldable pub set_conversion : ℕ → (AssetConversion → AssetConversion) → Db → Db
set_conversion id f db = record db { conversions = update_where (λ c. c.id == id) f db.conversions }

-- `assetConversion.update({ where: { id } })`, of columns that are not unique; the update that writes the
-- hash is `confirm_conversion`.
unfoldable pub update_conversion : ℕ → (AssetConversion → AssetConversion) → Action Db (Unit {0})
update_conversion id f = do
  old ← or_throw (← gets (find_conversion id)) record_not_found
  modify (set_conversion id f)

abbrev pub failed_conversion : Exception → FailureCode → AssetConversion → AssetConversion
failed_conversion e fallback c = record c {
  status = ConversionStatus.failed;
  failure_code = some (classify_failure e fallback);
  error_message = some e.message;
}

-- `fail`
unfoldable pub fail_conversion : ℕ → Exception → FailureCode → Action Db (Unit {0})
fail_conversion id e fallback = update_conversion id (failed_conversion e fallback)

-- `assetConversion.create`
unfoldable pub create_conversion_row : AssetConversion → Action Db ℕ
create_conversion_row c db = (
  ok db.next_id,
  record db {
    conversions = record c { id = db.next_id } ∷ db.conversions;
    next_id = db.next_id + 1;
  },
)

abbrev pub new_conversion :
    ℕ → CreateConversion → ℕ → AssetDefinition → AssetDefinition → AssetQuote → AssetConversion
new_conversion now dto wallet source target q = record {
  id = 0;
  idempotency_key = dto.idempotency_key;
  user_id = dto.user_id;
  wallet_account_id = wallet;
  deposit_intent_id = none;
  planned_deposit = dto.planned_deposit;
  source_symbol = source.symbol;
  target_symbol = target.symbol;
  send_amount = q.send_amount;
  quoted_dest_amount = q.dest_amount;
  dest_min = q.dest_min;
  slippage_bps = q.slippage_bps;
  received_amount = none;
  status = ConversionStatus.created;
  unsigned_xdr = none;
  signed_xdr = none;
  tx_hash = none;
  failure_code = none;
  error_message = none;
  expires_at = now + conversion_ttl_ms;
  created_at = now;
}

-- `intentSelect()`, which leaves the XDR out.
abbrev pub intent_select : AssetConversion → ConversionQuote
intent_select c = record {
  id = c.id;
  unsigned_xdr = none;
  send_amount = c.send_amount;
  quoted_dest_amount = c.quoted_dest_amount;
  dest_min = c.dest_min;
  source_symbol = c.source_symbol;
  target_symbol = c.target_symbol;
}

-- The education gate, which USDC is exempt from.
unfoldable pub check_eligibility : Env → CreateConversion → AssetDefinition → Action Db (Unit {0})
check_eligibility env dto target = if same_symbol target.symbol "USDC" then pure tt else (do
  vault ←
      or_throw (← gets (eligibility_vault dto.planned_deposit target.symbol)) no_eligibility_vault
  result ← assert_eligible_for_deposit env dto.user_id vault.id target.symbol
  pure tt)

module _ (chain : StellarChain) (env : Env) where
  open chain use {registry, build_path_payment_xdr}
  open env use {now}

  -- The quote of the controller: nothing is written.
  unfoldable pub quote_conversion : Option String → String → Decimal → Result AssetQuote
  quote_conversion from to amount =
      if env.conversions_disabled
      then err conversion_disabled
      else elim (source_asset registry from) [
        | err e ↦ err e
        | ok source ↦ elim (get_asset registry to) [
          | err e ↦ err e
          | ok target ↦
              if same_symbol source.symbol target.symbol
              then err no_conversion_needed
              else Quotes.quote chain now source target amount
        ]
      ]

  -- The call of `buildPathPaymentXdr`, with the hops of the route as assets of the SDK.
  unfoldable pub path_payment_xdr :
      WalletAccount → AssetDefinition → AssetDefinition → AssetQuote → Result String
  path_payment_xdr wallet source target q = elim (to_path_assets q.path) [
    | err e ↦ err e
    | ok path ↦ build_path_payment_xdr (record {
      user_address = wallet.stellar_address;
      send_asset = source;
      send_amount = q.send_amount;
      dest_asset = target;
      dest_min = q.dest_min;
      path = path;
    })
  ]

  -- After the row was created: its XDR, or its failure.
  unfoldable pub finish_conversion : ℕ → AssetConversion → Result String → Action Db ConversionQuote
  finish_conversion id c (err e) = do
    fail_conversion id e FailureCode.xdr_generation_failed
    throw e
  finish_conversion id c (ok xdr) = do
    update_conversion id
        (λ r. record r { unsigned_xdr = some xdr; status = ConversionStatus.xdr_generated })
    pure (record (intent_select (record c { id = id })) { unsigned_xdr = some xdr })

  unfoldable pub record_conversion :
      CreateConversion
      → WalletAccount
      → AssetDefinition
      → AssetDefinition
      → AssetQuote
      → Action Db ConversionQuote
  record_conversion dto wallet source target q = do
    id ← create_conversion_row (new_conversion now dto wallet.id source target q)
    finish_conversion id (new_conversion now dto wallet.id source target q)
        (path_payment_xdr wallet source target q)

  -- The checks before a row is written: eligibility, then the trustline.
  unfoldable pub check_conversion :
      CreateConversion → WalletAccount → AssetDefinition → Action Db (Unit {0})
  check_conversion dto wallet target = do
    check_eligibility env dto target
    line ← ensure_trustline chain now dto.user_id wallet.id target.symbol
    throw_if line.required trustline_required

  unfoldable pub convert :
      CreateConversion
      → WalletAccount
      → AssetDefinition
      → AssetDefinition
      → Action Db ConversionQuote
  convert dto wallet source target = do
    throw_if (same_symbol source.symbol target.symbol) no_conversion_needed
    check_conversion dto wallet target
    q ← lift (Quotes.quote chain now source target dto.amount)
    record_conversion dto wallet source target q

  -- The part of `createConversion` after the idempotency check.
  unfoldable pub create_new_conversion : CreateConversion → Action Db ConversionQuote
  create_new_conversion dto = do
    wallet ←
        or_throw (← gets (find_active_wallet dto.wallet_account_id dto.user_id)) wallet_not_found
    source ← lift (source_asset registry dto.from_symbol)
    target ← lift (get_asset registry dto.to_symbol)
    convert dto wallet source target

  unfoldable pub create_conversion : CreateConversion → Action Db ConversionQuote
  create_conversion dto = do
    throw_if env.conversions_disabled conversion_disabled
    existing ← gets (find_conversion_by_key dto.idempotency_key)
    elim existing [ some c ↦ pure (intent_select c) | none ↦ create_new_conversion dto ]

-- The call that a deposit makes.
abbrev pub of_request : ConversionRequest → CreateConversion
of_request r = record {
  idempotency_key = r.idempotency_key;
  user_id = r.user_id;
  wallet_account_id = r.wallet_account_id;
  from_symbol = none;
  to_symbol = r.to_symbol;
  amount = r.amount;
  planned_deposit = some r.planned_deposit;
}
