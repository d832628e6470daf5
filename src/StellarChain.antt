-- ===== src/StellarChain.antt =====
-- What the trustlines and the conversions call on the Stellar network and on decimal.js. The client
-- (src/wallets/stellar.service.ts) builds and submits transactions by the Stellar SDK and Horizon; its
-- answers are parameters.
use smartpig_backend.Common.{ℕ, Bool, List, Option, String, Result, ok, ℤ}
use smartpig_backend.Schema.Intents.{Decimal}
use smartpig_backend.AssetRegistry.{AssetDefinition, AssetKind}

-- `HorizonPathHop`
pub record HorizonPathHop : Type 0 where
  pub asset_type : String
  pub asset_code : Option String
  pub asset_issuer : Option String

-- An `Asset` of the SDK.
pub data PathAsset : Type 0 where
  native : PathAsset
  credit : String → String → PathAsset

-- A record of Horizon's strict-send path finder.
pub record StrictSendRecord : Type 0 where
  pub destination_amount : Decimal
  pub path : List HorizonPathHop

pub record StrictSendQuery : Type 0 where
  pub source_amount : Decimal
  pub destination_assets : List ℕ
  pub source_asset : AssetDefinition

pub record PathPayment : Type 0 where
  pub user_address : String
  pub send_asset : AssetDefinition
  pub send_amount : Decimal
  pub dest_asset : AssetDefinition
  pub dest_min : Decimal
  pub path : List PathAsset

-- The operations of decimal.js that a quote calls.
pub record QuoteDecimals : Type 0 where
  -- `a.gt(b)`
  pub greater : Decimal → Decimal → Bool
  -- `a.mul(new Decimal(k).div(10_000))`
  pub mul_bps : Decimal → ℤ → Decimal
  -- `a.toDecimalPlaces(7, Decimal.ROUND_DOWN)`
  pub round_down : Decimal → ℕ → Decimal
  -- `a.toFixed(k)`, read back as a decimal
  pub to_fixed : Decimal → ℕ → Decimal

pub record StellarChain : Type 0 where
  pub registry : List AssetDefinition
  pub decimals : QuoteDecimals
  pub strict_send : StrictSendQuery → Result (List StrictSendRecord)
  pub has_trustline : String → AssetDefinition → Result Bool
  pub build_sponsored_trustline_xdr : String → AssetDefinition → Result String
  pub build_path_payment_xdr : PathPayment → Result String
  -- `submitFeeBumpTransaction(signedXdr, expectedUnsignedXdr)`: the hash
  pub submit_fee_bump_transaction : String → String → Result String
  -- `null` where the effects could not be read.
  pub read_path_payment_received : String → String → PathAsset → Option Decimal
  -- `new Asset(code, issuer)` of the SDK, which throws on a code or an issuer that is not valid.
  pub new_asset : String → Option String → Result PathAsset

-- `toStellarAsset`: a registry definition as an asset of the SDK.
abbrev pub to_stellar_asset : StellarChain → AssetDefinition → Result PathAsset
to_stellar_asset chain a = elim a.kind [
  | AssetKind.native ↦ ok PathAsset.native
  | _ ↦ chain.new_asset a.code a.issuer
]
