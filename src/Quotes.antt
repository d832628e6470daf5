-- ===== src/Quotes.antt =====
-- Pricing a conversion (src/conversions/quote.service.ts, src/conversions/path-mapper.ts).
pub mod Best
use smartpig_backend.Common.{
  ℕ, ◌+◌, ◌-◌, ℤ, pos, negsuc, Bool, true, false, ◌||◌, not, Option, none, some, List, [], ◌∷◌,
  ◌++◌, String, codes, same_text, is_present, get_or_else, leb, if◌then◌else◌, http, ErrorKind,
  Exception, Result, ok, err,
}
use smartpig_backend.Schema.Intents.{Decimal}
use smartpig_backend.AssetRegistry.{AssetDefinition, horizon_path_asset_param}
use smartpig_backend.StellarChain.{
  HorizonPathHop, PathAsset, StrictSendRecord, StrictSendQuery, QuoteDecimals, StellarChain,
}

abbrev pub quote_ttl_ms : ℕ
quote_ttl_ms = 60000

abbrev pub stellar_decimals : ℕ
stellar_decimals = 7

pub record AssetQuote : Type 0 where
  pub send_amount : Decimal
  pub dest_amount : Decimal
  pub dest_min : Decimal
  pub slippage_bps : ℤ
  pub path : List HorizonPathHop
  pub path_description : List (List ℕ)
  pub expires_at : ℕ

abbrev pub no_route : Exception
no_route = http ErrorKind.service_unavailable "NO_CONVERSION_ROUTE"

abbrev pub quote_unavailable : Exception
quote_unavailable = http ErrorKind.service_unavailable "QUOTE_UNAVAILABLE"

abbrev pub bad_hop : Exception
bad_hop = http ErrorKind.plain "Path hop is neither native nor a complete credit asset"

unfoldable pub to_path_asset : HorizonPathHop → Result PathAsset
unfolding same_text
to_path_asset hop =
    if same_text (codes hop.asset_type) (codes "native")
    then ok PathAsset.native
    else if not (is_present hop.asset_code) || not (is_present hop.asset_issuer)
    then err bad_hop
    else ok (PathAsset.credit (get_or_else hop.asset_code "") (get_or_else hop.asset_issuer ""))

abbrev pub add_asset : Result PathAsset → Result (List PathAsset) → Result (List PathAsset)
add_asset (err e) rest = err e
add_asset (ok a) (err e) = err e
add_asset (ok a) (ok rest) = ok (a ∷ rest)

-- `toPathAssets`, of an array.
unfoldable pub to_path_assets : List HorizonPathHop → Result (List PathAsset)
to_path_assets [] = ok []
to_path_assets (hop ∷ path) = add_asset (to_path_asset hop) (to_path_assets path)

abbrev pub describe_asset : PathAsset → List ℕ
describe_asset PathAsset.native = codes "XLM"
describe_asset (PathAsset.credit code issuer) = codes code ++ (b':' ∷ codes issuer)

abbrev pub describe_assets : List PathAsset → List (List ℕ)
describe_assets [] = []
describe_assets (a ∷ rest) = describe_asset a ∷ describe_assets rest

unfoldable pub describe_path : List HorizonPathHop → Result (List (List ℕ))
describe_path path = elim (to_path_assets path) [
  | err e ↦ err e
  | ok assets ↦ ok (describe_assets assets)
]

-- `10_000 - slippageBps`
abbrev pub kept_bps : ℤ → ℤ
kept_bps (pos s) = if leb s 10000 then pos (10000 - s) else negsuc (s - 10001)
kept_bps (negsuc n) = pos (10001 + n)

-- The step of `reduce`: a later record wins only if it is greater.
abbrev pub better : QuoteDecimals → StrictSendRecord → StrictSendRecord → StrictSendRecord
better d a b = if d.greater b.destination_amount a.destination_amount then b else a

unfoldable pub best_of : QuoteDecimals → StrictSendRecord → List StrictSendRecord → StrictSendRecord
best_of d a [] = a
best_of d a (b ∷ rest) = best_of d (better d a b) rest

module _ (chain : StellarChain) (now : ℕ) where
  open chain use {decimals, strict_send}

  unfoldable pub find_paths :
      AssetDefinition → AssetDefinition → Decimal → Result (List StrictSendRecord)
  find_paths source target amount =
      elim (strict_send (record {
        source_amount = decimals.to_fixed amount stellar_decimals;
        destination_assets = horizon_path_asset_param target;
        source_asset = source;
      })) [ ok records ↦ ok records | err e ↦ err quote_unavailable ]

  -- The part of `quote` after the best record was chosen.
  unfoldable pub quote_of : Decimal → ℤ → StrictSendRecord → Result AssetQuote
  quote_of amount slippage best = elim (describe_path best.path) [
    | err e ↦ err e
    | ok description ↦ ok (record {
      send_amount = decimals.to_fixed amount stellar_decimals;
      dest_amount = decimals.to_fixed best.destination_amount stellar_decimals;
      dest_min =
          decimals.to_fixed
            (decimals.round_down (decimals.mul_bps best.destination_amount (kept_bps slippage))
              stellar_decimals)
            stellar_decimals;
      slippage_bps = slippage;
      path = best.path;
      path_description = description;
      expires_at = now + quote_ttl_ms;
    })
  ]

  -- `quote`, with the slippage of the target asset: no caller gives one.
  unfoldable pub quote : AssetDefinition → AssetDefinition → Decimal → Result AssetQuote
  quote source target amount = elim (find_paths source target amount) [
    | err e ↦ err e
    | ok [] ↦ err no_route
    | ok (◌∷◌ first rest) ↦ quote_of amount target.max_slippage_bps (best_of decimals first rest)
  ]
