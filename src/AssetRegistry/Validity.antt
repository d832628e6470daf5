-- ===== src/AssetRegistry/Validity.antt =====
-- What a registry that was read guarantees (src/config/asset-registry.ts).
use smartpig_backend.Common.{
  ◌≡◌, ◌⊎◌, refl, ℤ, pos, negsuc, true, not, Option, none, List, [], ◌∷◌, ◌++◌, String, find?,
  count_where, is_present, ok, Returns, Found, All, arith,
}
use smartpig_backend.AssetRegistry.{
  kind_errors, symbol_errors, error_if, is_blank, is_strkey_or_missing, is_negative, AssetKind,
  AssetDefinition, RegistryError, is_funding, asset_errors, all_errors, validate_asset_registry,
  read_asset_registry, get_funding_asset,
}

append_nil : {A : Type 0} (xs ys : List A) → xs ++ ys ≡ [] → (xs ≡ []) × (ys ≡ [])
append_nil [] ys h = (refl, h)
append_nil (x ∷ xs) ys h = cc

abbrev IsNatural : ℤ → Type 0
IsNatural (pos n) = Unit
IsNatural (negsuc n) = ⊥

kind_errors-nil :
    (k : AssetKind) (issuer : Option String)
    → kind_errors k issuer ≡ []
    → ((k ≡ AssetKind.native) × (issuer ≡ none))
      ⊎ ((k ≡ AssetKind.classic) × (is_present issuer ≡ true))
unfolding kind_errors
kind_errors-nil k issuer h = ground arith

-- The issuer fits the kind, and the two numbers are not negative.
abbrev pub IsSound : AssetDefinition → Type 0
IsSound a =
    (((a.kind ≡ AssetKind.native) × (a.issuer ≡ none))
      ⊎ ((a.kind ≡ AssetKind.classic) × (is_present a.issuer ≡ true)))
    × IsNatural a.decimals
    × IsNatural a.max_slippage_bps

asset_errors-IsSound :
    (a : AssetDefinition) (seen : List String) → asset_errors a seen ≡ [] → IsSound a
unfolding asset_errors
asset_errors-IsSound a seen h =
    let (symbol, rest1) = append_nil (symbol_errors a seen) _ h in
    let (code, rest2) =
      append_nil (error_if (is_blank a.code) RegistryError.code_required) _ rest1 in
    let (kind, rest3) = append_nil (kind_errors a.kind a.issuer) _ rest2 in
    let (contract, rest4) =
      append_nil
        (error_if (not (is_strkey_or_missing b'C' a.contract_id)) RegistryError.bad_contract) _
        rest3 in
    let (decimals, slippage) =
      append_nil (error_if (is_negative a.decimals) RegistryError.bad_decimals) _ rest4 in
    (kind_errors-nil a.kind a.issuer kind, ground (arith, decimals), ground (arith, slippage))

all_errors-All :
    (assets : List AssetDefinition) (seen : List String)
    → all_errors assets seen ≡ []
    → All IsSound assets
unfolding all_errors
all_errors-All [] seen h = tt
all_errors-All (a ∷ rest) seen h =
    let parts = append_nil (asset_errors a seen) (all_errors rest (a.symbol ∷ seen)) h in
    (asset_errors-IsSound a seen parts.0, all_errors-All rest (a.symbol ∷ seen) parts.1)

find?-count_where :
    (assets : List AssetDefinition)
    → count_where is_funding assets ≡ 1
    → Found (find? is_funding assets) (λ a. a.is_funding_asset ≡ true)
find?-count_where [] h = ground arith
find?-count_where (a ∷ rest) h = ground (arith, find?-count_where rest)

-- A registry that was read without an error has exactly one funding asset, so the search for it never
-- throws, and each of its assets has an issuer exactly if it is not native, and numbers that are not
-- negative.
pub read_asset_registry-IsSound :
    (assets : List AssetDefinition) {registry : List AssetDefinition}
    → read_asset_registry assets ≡ ok registry
    → (registry ≡ assets)
      × All IsSound registry
      × (count_where is_funding registry ≡ 1)
      × Returns (get_funding_asset registry) (λ a. a.is_funding_asset ≡ true)
unfolding read_asset_registry validate_asset_registry get_funding_asset
read_asset_registry-IsSound [] h = ground arith
read_asset_registry-IsSound (a ∷ rest) {registry} h =
    let assets = a ∷ rest in
    let clean : validate_asset_registry assets ≡ [] = ground arith in
    let parts = append_nil (all_errors assets []) _ clean in
    let one : count_where is_funding assets ≡ 1 = ground (arith, parts) in
    let same : registry ≡ assets = ground arith in
    rw same
      (refl, all_errors-All assets [] parts.0, one, ground (arith, find?-count_where assets one))
