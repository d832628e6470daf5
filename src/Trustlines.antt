-- ===== src/Trustlines.antt =====
-- Trustlines that a wallet opens on demand (src/wallets/trustlines.service.ts). Horizon is the
-- authority; the rows are a cache and an audit trail.
pub mod Reuse
pub mod Submission
use smartpig_backend.Common.{
  ℕ, ◌+◌, Bool, true, false, ◌&&◌, not, Option, none, some, List, [], ◌∷◌, String, ◌==◌, ltb,
  if◌then◌else◌, find?, filter, update_where, is_present, is_some, get_or_else, same_text, http,
  ErrorKind, Exception, Result, ok, err, Action, pure, throw, gets, modify, lift, or_throw,
  throw_if, ◌>>=◌, ◌>>◌,
}
use smartpig_backend.Schema.{Db}
use smartpig_backend.Schema.Vaults.{WalletAccount}
use smartpig_backend.Schema.Intents.{WalletTrustline, TrustlineStatus}
use smartpig_backend.AssetRegistry.{AssetKind, AssetDefinition, get_asset, asset_id_of}
use smartpig_backend.StellarChain.{StellarChain}
use smartpig_backend.Intents.Rows.{find_active_wallet, wallet_not_found}

-- `TRUSTLINE_XDR_TTL_MS`, a minute less than the time bound of a transaction.
abbrev pub trustline_xdr_ttl_ms : ℕ
trustline_xdr_ttl_ms = 540000

abbrev pub wallet_not_activated : Exception
wallet_not_activated = http ErrorKind.conflict "WALLET_NOT_ACTIVATED"

abbrev pub no_trustline_issued : Exception
no_trustline_issued = http ErrorKind.bad_request "No trustline transaction was issued"

pub record TrustlineAnswer : Type 0 where
  pub required : Bool
  pub asset_id : List ℕ
  pub unsigned_xdr : Option String
  pub expires_at : Option ℕ

-- The row of a wallet and an asset.
unfoldable pub is_line : ℕ → List ℕ → WalletTrustline → Bool
unfolding same_text
is_line wallet asset t = t.wallet_account_id == wallet && same_text t.asset_id asset

abbrev pub find_line : ℕ → List ℕ → Db → Option WalletTrustline
find_line wallet asset db = find? (is_line wallet asset) db.trustlines

-- `walletTrustline.upsert`
unfoldable pub upsert_line :
    ℕ → List ℕ → WalletTrustline → (WalletTrustline → WalletTrustline) → Db → Db
upsert_line wallet asset new change db = elim (find_line wallet asset db) [
  | none ↦ record db {
    trustlines = record new { id = db.next_id } ∷ db.trustlines;
    next_id = db.next_id + 1;
  }
  | some old ↦ record db { trustlines = update_where (is_line wallet asset) change db.trustlines }
]

-- An `INSERT` leaves the columns that it does not name at their defaults.
abbrev pub new_line : ℕ → List ℕ → String → WalletTrustline
new_line wallet asset symbol = record {
  id = 0;
  wallet_account_id = wallet;
  asset_id = asset;
  asset_symbol = symbol;
  status = TrustlineStatus.pending_signature;
  unsigned_xdr = none;
  expires_at = none;
  tx_hash = none;
  error_message = none;
}

-- The issued XDR is cleared: it is spent.
abbrev pub activate : Option String → WalletTrustline → WalletTrustline
activate hash t = record t {
  status = TrustlineStatus.active;
  unsigned_xdr = none;
  expires_at = none;
  error_message = none;
  tx_hash = if is_present hash then hash else t.tx_hash;
}

unfoldable pub mark_active : ℕ → List ℕ → String → Option String → Db → Db
mark_active wallet asset symbol hash =
    upsert_line wallet asset
      (record (new_line wallet asset symbol) { status = TrustlineStatus.active; tx_hash = hash })
      (activate hash)

-- The row of a transaction that was issued, over what the row had.
abbrev pub reissue : String → ℕ → WalletTrustline → WalletTrustline
reissue xdr expires t = record t {
  status = TrustlineStatus.pending_signature;
  unsigned_xdr = some xdr;
  expires_at = some expires;
  error_message = none;
}

unfoldable pub record_issue : ℕ → List ℕ → String → String → ℕ → Db → Db
record_issue wallet asset symbol xdr expires =
    upsert_line wallet asset
      (record (new_line wallet asset symbol) { unsigned_xdr = some xdr; expires_at = some expires })
      (reissue xdr expires)

abbrev pub is_pending_signature : TrustlineStatus → Bool
is_pending_signature TrustlineStatus.pending_signature = true
is_pending_signature _ = false

abbrev pub is_line_active : TrustlineStatus → Bool
is_line_active TrustlineStatus.active = true
is_line_active _ = false

abbrev pub is_after : ℕ → Option ℕ → Bool
is_after now none = false
is_after now (some at) = ltb now at

-- The issued XDR of the row that is still within its time.
unfoldable pub is_reusable : ℕ → WalletTrustline → Bool
is_reusable now t =
    is_pending_signature t.status && is_present t.unsigned_xdr && is_after now t.expires_at

abbrev pub not_required : List ℕ → TrustlineAnswer
not_required asset = record {
  required = false;
  asset_id = asset;
  unsigned_xdr = none;
  expires_at = none;
}

abbrev pub issued : List ℕ → Option String → Option ℕ → TrustlineAnswer
issued asset xdr expires = record {
  required = true;
  asset_id = asset;
  unsigned_xdr = xdr;
  expires_at = expires;
}

abbrev pub is_native : AssetKind → Bool
is_native AssetKind.native = true
is_native _ = false

module _ (chain : StellarChain) (now : ℕ) where
  open chain use {
    registry, has_trustline, build_sponsored_trustline_xdr, submit_fee_bump_transaction,
  }

  unfoldable pub issue : WalletAccount → AssetDefinition → Action Db TrustlineAnswer
  issue wallet asset = do
    xdr ← lift (build_sponsored_trustline_xdr wallet.stellar_address asset)
    modify
        (record_issue wallet.id (asset_id_of asset) asset.symbol xdr (now + trustline_xdr_ttl_ms))
    pure (issued (asset_id_of asset) (some xdr) (some (now + trustline_xdr_ttl_ms)))

  -- Without a line on the chain: the issued XDR again, or a new one.
  unfoldable pub reuse_or_issue :
      WalletAccount → AssetDefinition → Option WalletTrustline → Action Db TrustlineAnswer
  reuse_or_issue wallet asset none = issue wallet asset
  reuse_or_issue wallet asset (some t) =
      if is_reusable now t
      then pure (issued (asset_id_of asset) t.unsigned_xdr t.expires_at)
      else issue wallet asset

  unfoldable pub ensure_classic : WalletAccount → AssetDefinition → Bool → Action Db TrustlineAnswer
  ensure_classic wallet asset true = do
    modify (mark_active wallet.id (asset_id_of asset) asset.symbol none)
    pure (not_required (asset_id_of asset))
  ensure_classic wallet asset false = do
    existing ← gets (find_line wallet.id (asset_id_of asset))
    reuse_or_issue wallet asset existing

  unfoldable pub ensure_on_chain : WalletAccount → AssetDefinition → Action Db TrustlineAnswer
  ensure_on_chain wallet asset = do
    throw_if (not wallet.is_activated) wallet_not_activated
    open_line ← lift (has_trustline wallet.stellar_address asset)
    ensure_classic wallet asset open_line

  unfoldable pub ensure_trustline : ℕ → ℕ → String → Action Db TrustlineAnswer
  ensure_trustline user wallet_id symbol = do
    asset ← lift (get_asset registry symbol)
    wallet ← or_throw (← gets (find_active_wallet wallet_id user)) wallet_not_found
    if is_native asset.kind
        then pure (not_required (asset_id_of asset))
        else ensure_on_chain wallet asset

pub record TrustlineSubmission : Type 0 where
  pub asset_id : List ℕ
  pub tx_hash : String
  pub status : TrustlineStatus

module _ (chain : StellarChain) where
  open chain use {registry, has_trustline, submit_fee_bump_transaction}

  -- The `catch`: Horizon may reject because the line exists, which is success.
  unfoldable pub after_rejection :
      WalletAccount
      → AssetDefinition
      → WalletTrustline
      → Exception
      → Bool
      → Action Db TrustlineSubmission
  after_rejection wallet asset row e true = do
    modify (mark_active wallet.id (asset_id_of asset) asset.symbol none)
    pure (record {
      asset_id = asset_id_of asset;
      tx_hash = get_or_else row.tx_hash "";
      status = TrustlineStatus.active;
    })
  after_rejection wallet asset row e false = do
    modify (λ db. record db {
      trustlines =
          update_where (λ t. t.id == row.id)
            (λ t. record t { status = TrustlineStatus.failed; error_message = some e.message })
            db.trustlines;
    })
    throw e

  unfoldable pub settle_line :
      WalletAccount
      → AssetDefinition
      → WalletTrustline
      → Result String
      → Action Db TrustlineSubmission
  settle_line wallet asset row (ok hash) = do
    modify (mark_active wallet.id (asset_id_of asset) asset.symbol (some hash))
    pure (record { asset_id = asset_id_of asset; tx_hash = hash; status = TrustlineStatus.active })
  settle_line wallet asset row (err e) = do
    open_line ← lift (has_trustline wallet.stellar_address asset)
    after_rejection wallet asset row e open_line

  -- A repeated submission is answered with the hash that is stored.
  unfoldable pub submit_line :
      WalletAccount → AssetDefinition → String → WalletTrustline → Action Db TrustlineSubmission
  submit_line wallet asset signed row =
      if is_line_active row.status && is_present row.tx_hash
      then pure (record {
        asset_id = asset_id_of asset;
        tx_hash = get_or_else row.tx_hash "";
        status = row.status;
      })
      else settle_line wallet asset row
          (submit_fee_bump_transaction signed (get_or_else row.unsigned_xdr ""))

  unfoldable pub submit_trustline : ℕ → ℕ → String → String → Action Db TrustlineSubmission
  submit_trustline user wallet_id symbol signed = do
    asset ← lift (get_asset registry symbol)
    wallet ← or_throw (← gets (find_active_wallet wallet_id user)) wallet_not_found
    row ← or_throw (← gets (find_line wallet.id (asset_id_of asset))) no_trustline_issued
    throw_if (not (is_present row.unsigned_xdr)) no_trustline_issued
    submit_line wallet asset signed row

-- `listTrustlines`
unfoldable pub list_trustlines : ℕ → ℕ → Action Db (List WalletTrustline)
list_trustlines user wallet_id = do
  wallet ← or_throw (← gets (find_active_wallet wallet_id user)) wallet_not_found
  gets (λ db. filter (λ t. t.wallet_account_id == wallet.id) db.trustlines)
