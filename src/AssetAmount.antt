-- ===== src/AssetAmount.antt =====
-- Amounts in whole asset units to contract units (src/defindex/asset-amount.ts). decimal.js is the
-- parameter `DecimalLib`.
pub mod Exactness
pub mod RoundTrip
use smartpig_backend.Common.{
  ℕ, ◌*◌, ◌^◌, ◌<◌, ◌≤◌, ◌≡◌, ◌↔◌, ℤ, pos, negsuc, Bool, true, false, not, leb, http, ErrorKind,
  Exception, Result, ok, err, if◌then◌else◌,
}
use smartpig_backend.Schema.Intents.{Decimal}

-- The operations of decimal.js that the services call on amounts.
pub record DecimalLib : Type 0 where
  -- `d.lte(0)`
  pub lte_zero : Decimal → Bool
  -- `d.mul(new Decimal(10).pow(k))`
  pub mul_pow10 : Decimal → ℕ → Decimal
  -- `d.isInteger()`
  pub is_integer : Decimal → Bool
  -- `d.toNumber()` of a decimal that is positive and an integer
  pub to_number : Decimal → ℕ
  -- `d.toDecimalPlaces(k, Decimal.ROUND_DOWN)`
  pub round_down : Decimal → ℕ → Decimal

abbrev pub defindex_share_decimals : ℕ
defindex_share_decimals = 7

-- `Number.MAX_SAFE_INTEGER`
abbrev pub max_safe_integer : ℕ
max_safe_integer = 9007199254740991

abbrev pub bad_decimals : Exception
bad_decimals = http ErrorKind.bad_request "Asset decimals configuration is invalid"

abbrev pub not_positive : Exception
not_positive = http ErrorKind.bad_request "Deposit amount must be greater than zero"

abbrev pub too_precise : Exception
too_precise = http ErrorKind.bad_request "Deposit amount supports fewer decimal places"

abbrev pub too_large : Exception
too_large = http ErrorKind.bad_request "Deposit amount is too large"

unfoldable pub to_asset_units : DecimalLib → Decimal → ℤ → Result ℕ
to_asset_units lib amount (negsuc n) = err bad_decimals
to_asset_units lib amount (pos decimals) =
    if lib.lte_zero amount
    then err not_positive
    else if not (lib.is_integer (lib.mul_pow10 amount decimals))
    then err too_precise
    else if leb (lib.to_number (lib.mul_pow10 amount decimals)) max_safe_integer
    then ok (lib.to_number (lib.mul_pow10 amount decimals))
    else err too_large

-- The operations that print an amount: `d.div(new Decimal(10).pow(k))`, and `d.toFixed(k)`, whose text is
-- read back as a decimal.
pub record PrintLib : Type 0 where
  pub div_pow10 : Decimal → ℕ → Decimal
  pub to_fixed : Decimal → ℕ → Decimal

abbrev pub not_whole_units : Exception
not_whole_units = http ErrorKind.bad_request "Raw amount is not an integer number of units"

-- `fromAssetUnits`, of `new Decimal(String(units))`.
unfoldable pub from_asset_units : DecimalLib → PrintLib → Decimal → ℤ → Result Decimal
from_asset_units lib print raw (negsuc n) = err bad_decimals
from_asset_units lib print raw (pos decimals) =
    if lib.is_integer raw
    then ok (print.to_fixed (print.div_pow10 raw decimals) decimals)
    else err not_whole_units
