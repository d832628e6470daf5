-- ===== src/AssetRegistry.antt =====
-- The assets that a deployment knows (src/config/asset-registry.ts): validation, identifiers and the
-- search by symbol. The built-in lists and the parsing of the JSON override are left out: a registry
-- is a list of definitions.
pub mod Validity
use smartpig_backend.Common.{
  ℕ, ◌+◌, ℤ, pos, negsuc, Bool, true, false, ◌&&◌, ◌||◌, not, Option, none, some, List, [], ◌∷◌,
  ◌++◌, map, String, ◌==◌, leb, if◌then◌else◌, find?, filter, any?, all?, length, codes, upper,
  same_text, to_upper_case, get_or_else, is_present, trim, count_where, http, ErrorKind, Exception,
  Result, ok, err,
}

pub data AssetKind : Type 0 where
  native classic other : AssetKind

-- The presentation of an asset and its price feed are left out.
pub record AssetDefinition : Type 0 where
  pub symbol : String
  pub code : String
  pub issuer : Option String
  pub contract_id : Option String
  pub decimals : ℤ
  pub kind : AssetKind
  pub max_slippage_bps : ℤ
  pub is_funding_asset : Bool

-- The errors of `validateAssetRegistry`, without the texts and the positions.
pub data RegistryError : Type 0 where
  empty symbol_required symbol_duplicated code_required native_issuer issuer_required :
      RegistryError
  bad_issuer bad_kind bad_contract bad_decimals bad_slippage not_one_funding : RegistryError

-- `[A-Z2-7]`
abbrev is_base32 : ℕ → Bool
is_base32 c = (leb b'A' c && leb c b'Z') || (leb b'2' c && leb c b'7')

-- `/^G[A-Z2-7]{55}$/` and `/^C[A-Z2-7]{55}$/`
unfoldable pub is_strkey : ℕ → List ℕ → Bool
is_strkey first [] = false
is_strkey first (c ∷ text) = c == first && length text == 55 && all? is_base32 text

-- `error_if` for `if (test) errors.push(error)`.
abbrev pub error_if : Bool → RegistryError → List RegistryError
error_if test e = if test then e ∷ [] else []

-- `!s?.trim()`
unfoldable pub is_blank : String → Bool
unfolding trim
is_blank s = elim (trim (codes s)) [ [] ↦ true | ◌∷◌ c text ↦ false ]

-- Membership in `seenSymbols`.
unfoldable pub is_seen : String → List String → Bool
unfolding same_text
is_seen symbol seen = any? (λ s. same_text (codes s) (codes symbol)) seen

unfoldable pub symbol_errors : AssetDefinition → List String → List RegistryError
unfolding is_blank is_seen
symbol_errors a seen =
    if is_blank a.symbol
    then RegistryError.symbol_required ∷ []
    else error_if (is_seen a.symbol seen) RegistryError.symbol_duplicated

abbrev pub is_strkey_or_missing : ℕ → Option String → Bool
is_strkey_or_missing first none = true
is_strkey_or_missing first (some s) = is_strkey first (codes s)

unfoldable pub kind_errors : AssetKind → Option String → List RegistryError
unfolding is_strkey
kind_errors AssetKind.native none = []
kind_errors AssetKind.native (some issuer) = RegistryError.native_issuer ∷ []
kind_errors AssetKind.classic issuer =
    if not (is_present issuer)
    then RegistryError.issuer_required ∷ []
    else error_if (not (is_strkey_or_missing b'G' issuer)) RegistryError.bad_issuer
kind_errors AssetKind.other issuer = RegistryError.bad_kind ∷ []

abbrev pub is_negative : ℤ → Bool
is_negative (pos n) = false
is_negative (negsuc n) = true

unfoldable pub asset_errors : AssetDefinition → List String → List RegistryError
asset_errors a seen =
    symbol_errors a seen
    ++ (error_if (is_blank a.code) RegistryError.code_required
        ++ (kind_errors a.kind a.issuer
            ++ (error_if (not (is_strkey_or_missing b'C' a.contract_id)) RegistryError.bad_contract
                ++ (error_if (is_negative a.decimals) RegistryError.bad_decimals
                    ++ error_if (is_negative a.max_slippage_bps) RegistryError.bad_slippage))))

-- The loop, with the symbols seen so far.
unfoldable pub all_errors : List AssetDefinition → List String → List RegistryError
all_errors [] seen = []
all_errors (a ∷ rest) seen = asset_errors a seen ++ all_errors rest (a.symbol ∷ seen)

abbrev pub is_funding : AssetDefinition → Bool
is_funding a = a.is_funding_asset

unfoldable pub validate_asset_registry : List AssetDefinition → List RegistryError
validate_asset_registry [] = RegistryError.empty ∷ []
validate_asset_registry (a ∷ rest) =
    all_errors (a ∷ rest) []
    ++ error_if (not (count_where is_funding (a ∷ rest) == 1)) RegistryError.not_one_funding

abbrev pub invalid_registry : Exception
invalid_registry = http ErrorKind.plain "Asset registry is invalid"

-- `readAssetRegistry`, of the list that it chose.
unfoldable pub read_asset_registry : List AssetDefinition → Result (List AssetDefinition)
read_asset_registry assets = elim (validate_asset_registry assets) [
  | [] ↦ ok assets
  | ◌∷◌ e es ↦ err invalid_registry
]

-- `${code}:${issuer}`; a missing issuer prints as `null`.
abbrev pub code_and_issuer : AssetDefinition → List ℕ
code_and_issuer a = codes a.code ++ (b':' ∷ codes (get_or_else a.issuer "null"))

unfoldable pub asset_id_of : AssetDefinition → List ℕ
asset_id_of a = elim a.kind [ AssetKind.native ↦ codes a.code | _ ↦ code_and_issuer a ]

unfoldable pub horizon_path_asset_param : AssetDefinition → List ℕ
horizon_path_asset_param a = elim a.kind [
  | AssetKind.native ↦ codes "native"
  | _ ↦ code_and_issuer a
]

-- The symbol that is searched: trimmed, in upper case, `XLM` for DeFindex's `native`.
unfoldable pub normalized_symbol : String → List ℕ
unfolding trim same_text
normalized_symbol symbol =
    let wanted = map upper (trim (codes symbol)) in
    if same_text wanted (codes "NATIVE") then codes "XLM" else wanted

unfoldable pub find_asset_by_symbol : List AssetDefinition → Option String → Option AssetDefinition
find_asset_by_symbol assets none = none
find_asset_by_symbol assets (some String.[]) = none
find_asset_by_symbol assets (some (String.◌∷◌ c s)) =
    find? (λ a. same_text (to_upper_case a.symbol) (normalized_symbol (String.◌∷◌ c s))) assets

abbrev pub unsupported_asset : Exception
unsupported_asset = http ErrorKind.bad_request "Asset is not supported on this network"

-- `StellarService.getAsset` and `getFundingAsset` (src/wallets/stellar.service.ts)
unfoldable pub get_asset : List AssetDefinition → String → Result AssetDefinition
get_asset assets symbol = elim (find_asset_by_symbol assets (some symbol)) [
  | none ↦ err unsupported_asset
  | some a ↦ ok a
]

unfoldable pub get_funding_asset : List AssetDefinition → Result AssetDefinition
get_funding_asset assets = elim (find? is_funding assets) [
  | none ↦ err (http ErrorKind.plain "No funding asset in the registry")
  | some a ↦ ok a
]

unfoldable pub require_contract_id : AssetDefinition → Result String
require_contract_id a =
    if is_present a.contract_id
    then ok (get_or_else a.contract_id "")
    else err
        (http ErrorKind.plain "Asset has no verified Stellar Asset Contract id on this network")
