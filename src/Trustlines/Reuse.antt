-- ===== src/Trustlines/Reuse.antt =====
-- What the trustlines promise across requests (src/wallets/trustlines.service.ts): a retry gets the
-- transaction that was issued, and a transaction that landed is not offered again.
use smartpig_backend.Common.{
  ℕ, ◌≡◌, refl, ◌∷◌, [], true, Option, none, some, List, String, is_present, same_text, ok, err,
  Result, All, All-update_where, find?-update_same, arith, ==_iff, Found,
}
use smartpig_backend.Schema.{Db}
use smartpig_backend.Schema.Vaults.{WalletAccount}
use smartpig_backend.Schema.Intents.{WalletTrustline, TrustlineStatus}
use smartpig_backend.AssetRegistry.{AssetDefinition, asset_id_of}
use smartpig_backend.StellarChain.{StellarChain}
use smartpig_backend.Trustlines.{
  TrustlineAnswer, is_line, find_line, upsert_line, new_line, mark_active, activate, is_after,
  is_reusable, issue, reuse_or_issue, ensure_classic, ensure_on_chain, ensure_trustline, issued,
  record_issue, reissue,
}

same_text_refl : (text : List ℕ) → same_text text text ≡ true
unfolding same_text
same_text_refl [] = refl
same_text_refl (c ∷ text) = ground (arith, ==_iff c c, same_text_refl text)

is_line_refl : (t : WalletTrustline) → is_line t.wallet_account_id t.asset_id t ≡ true
unfolding is_line
is_line_refl t =
    ground (arith, ==_iff t.wallet_account_id t.wallet_account_id, same_text_refl t.asset_id)

-- An upsert that keeps the key columns leaves the row under its key: the new one, or the old one
-- changed.
find_line-upsert_line :
    (wallet : ℕ) (asset : List ℕ) (new : WalletTrustline)
    (change : WalletTrustline → WalletTrustline) (db : Db)
    → ((id : ℕ) → is_line wallet asset (record new { id = id }) ≡ true)
    → ((t : WalletTrustline) → is_line wallet asset (change t) ≡ is_line wallet asset t)
    → find_line wallet asset (upsert_line wallet asset new change db)
      ≡ elim (find_line wallet asset db) [
        | none ↦ some (record new { id = db.next_id })
        | some t ↦ some (change t)
      ]
unfolding upsert_line
find_line-upsert_line wallet asset new change db own keep =
    ground
      (arith, own db.next_id, find?-update_same (is_line wallet asset) change db.trustlines keep)

-- What the issue of a transaction leaves under the wallet and the asset.
abbrev pub IsIssued : ℕ → List ℕ → Option String → Option ℕ → Db → Type 0
IsIssued wallet asset xdr expires db = Found (find_line wallet asset db) (λ t.
    (t.status ≡ TrustlineStatus.pending_signature)
    × (t.unsigned_xdr ≡ xdr)
    × (t.expires_at ≡ expires))

record_issue-IsIssued :
    (wallet : ℕ) (asset : List ℕ) (symbol xdr : String) (expires : ℕ) (db : Db)
    → IsIssued wallet asset
        (some xdr)
        (some expires)
        (record_issue wallet asset symbol xdr expires db)
unfolding record_issue is_line
record_issue-IsIssued wallet asset symbol xdr expires db = ground (
  arith,
  find_line-upsert_line wallet asset
      (record (new_line wallet asset symbol) { unsigned_xdr = some xdr; expires_at = some expires })
      (reissue xdr expires) db
      (λ id. is_line_refl (record (new_line wallet asset symbol) { id = id })) (λ t. refl),
)

pub mark_active-spent :
    (wallet : ℕ) (asset : List ℕ) (symbol : String) (hash : Option String) (db : Db)
    → Found
        (find_line wallet asset (mark_active wallet asset symbol hash db))
        (λ t. (t.status ≡ TrustlineStatus.active) × (t.unsigned_xdr ≡ none))
unfolding mark_active is_line
mark_active-spent wallet asset symbol hash db = ground (
  arith,
  find_line-upsert_line wallet asset
      (record (new_line wallet asset symbol) { status = TrustlineStatus.active; tx_hash = hash })
      (activate hash) db (λ id. is_line_refl (record (new_line wallet asset symbol) { id = id }))
      (λ t. refl),
)

pub upsert_line-wallets :
    (wallet : ℕ) (asset : List ℕ) (new : WalletTrustline)
    (change : WalletTrustline → WalletTrustline) (db : Db)
    → (upsert_line wallet asset new change db).wallets ≡ db.wallets
unfolding upsert_line
upsert_line-wallets wallet asset new change db = ground arith

record_issue-wallets :
    (wallet : ℕ) (asset : List ℕ) (symbol xdr : String) (expires : ℕ) (db : Db)
    → (record_issue wallet asset symbol xdr expires db).wallets ≡ db.wallets
unfolding record_issue
record_issue-wallets wallet asset symbol xdr expires db = upsert_line-wallets wallet asset _ _ db

-- The answer of a call that found no line on the chain, and the tables that it left.
abbrev pub Promised : ℕ → List ℕ → Db → Result TrustlineAnswer × Db → Type 0
Promised wallet asset db (ok a, after) =
    (a ≡ issued asset a.unsigned_xdr a.expires_at)
    × IsIssued wallet asset a.unsigned_xdr a.expires_at after
    × (after.wallets ≡ db.wallets)
Promised wallet asset db (err e, after) = Unit

issue-Promised :
    (chain : StellarChain) (now : ℕ) (wallet : WalletAccount) (asset : AssetDefinition) (db : Db)
    → Promised wallet.id (asset_id_of asset) db (issue chain now wallet asset db)
unfolding issue
issue-Promised chain now wallet asset db =
    grind (
      arith,
      record_issue-IsIssued wallet.id (asset_id_of asset) asset.symbol,
      record_issue-wallets,
    )

reuse_or_issue-Promised :
    (chain : StellarChain) (now : ℕ) (wallet : WalletAccount) (asset : AssetDefinition) (db : Db)
    → Promised wallet.id
        (asset_id_of asset)
        db
        (reuse_or_issue chain now wallet asset (find_line wallet.id (asset_id_of asset) db) db)
unfolding reuse_or_issue is_reusable
reuse_or_issue-Promised chain now wallet asset db =
    ground (arith, issue-Promised chain now wallet asset db)

-- While the transaction is within its time, the same one is handed out again.
IsIssued-reuse :
    (chain : StellarChain) (later : ℕ) (wallet : WalletAccount) (asset : AssetDefinition) (db : Db)
    (xdr : Option String) (expires : Option ℕ)
    → IsIssued wallet.id (asset_id_of asset) xdr expires db
    → is_present xdr ≡ true
    → is_after later expires ≡ true
    → reuse_or_issue chain later wallet asset (find_line wallet.id (asset_id_of asset) db) db
      ≡ (ok (issued (asset_id_of asset) xdr expires), db)
unfolding reuse_or_issue is_reusable
IsIssued-reuse chain later wallet asset db xdr expires h present after = ground arith

ensure_on_chain_retry :
    (chain : StellarChain) (now later : ℕ) (wallet : WalletAccount) (asset : AssetDefinition)
    (db : Db) {a : TrustlineAnswer} {after : Db}
    → ensure_on_chain chain now wallet asset db ≡ (ok a, after)
    → a.required ≡ true
    → is_present a.unsigned_xdr ≡ true
    → is_after later a.expires_at ≡ true
    → (ensure_on_chain chain later wallet asset after ≡ (ok a, after))
      × (after.wallets ≡ db.wallets)
unfolding ensure_on_chain ensure_classic
ensure_on_chain_retry chain now later wallet asset db {a} {after} h required present time = grind (
  arith,
  reuse_or_issue-Promised chain now wallet asset db,
  IsIssued-reuse chain later wallet asset after a.unsigned_xdr a.expires_at,
)

-- While the issued transaction is within its time and the chain still has no line, a retry of a request
-- that was answered with a transaction gets the same answer, and writes nothing.
ensure_trustline_retry :
    (chain : StellarChain) (now later user wallet_id : ℕ) (symbol : String) (db : Db)
    {a : TrustlineAnswer} {after : Db}
    → ensure_trustline chain now user wallet_id symbol db ≡ (ok a, after)
    → a.required ≡ true
    → is_present a.unsigned_xdr ≡ true
    → is_after later a.expires_at ≡ true
    → ensure_trustline chain later user wallet_id symbol after ≡ (ok a, after)
unfolding ensure_trustline
ensure_trustline_retry chain now later user wallet_id symbol db {a} {after} h required present
      time =
    grind (
      arith,
      λ (wallet : WalletAccount) (asset : AssetDefinition).
          ensure_on_chain_retry chain now later wallet asset db {a = a} {after = after},
    )

-- No active line keeps a transaction.
abbrev pub IsSpent : WalletTrustline → Type 0
IsSpent t = t.status ≡ TrustlineStatus.active → t.unsigned_xdr ≡ none

abbrev pub AllSpent : Db → Type 0
AllSpent db = All IsSpent db.trustlines

upsert_line-AllSpent :
    (wallet : ℕ) (asset : List ℕ) (new : WalletTrustline)
    (change : WalletTrustline → WalletTrustline) (db : Db)
    → ((id : ℕ) → IsSpent (record new { id = id }))
    → ((t : WalletTrustline) → IsSpent (change t))
    → AllSpent db
    → AllSpent (upsert_line wallet asset new change db)
unfolding upsert_line
upsert_line-AllSpent wallet asset new change db fresh changed h = ground (
  arith,
  fresh db.next_id,
  All-update_where IsSpent (is_line wallet asset) change db.trustlines (λ t old hit. changed t) h,
)

pub mark_active-AllSpent :
    (wallet : ℕ) (asset : List ℕ) (symbol : String) (hash : Option String) (db : Db)
    → AllSpent db
    → AllSpent (mark_active wallet asset symbol hash db)
unfolding mark_active
mark_active-AllSpent wallet asset symbol hash db =
    upsert_line-AllSpent wallet asset _ _ db (λ id s. refl) (λ t s. refl)

record_issue-AllSpent :
    (wallet : ℕ) (asset : List ℕ) (symbol xdr : String) (expires : ℕ) (db : Db)
    → AllSpent db
    → AllSpent (record_issue wallet asset symbol xdr expires db)
unfolding record_issue
record_issue-AllSpent wallet asset symbol xdr expires db =
    upsert_line-AllSpent wallet asset _ _ db (λ id s. cc) (λ t s. cc)

-- Opening a line leaves no active line with a transaction, whatever it answers.
pub ensure_trustline-AllSpent :
    (chain : StellarChain) (now user wallet_id : ℕ) (symbol : String) (db : Db)
    → AllSpent db
    → AllSpent (ensure_trustline chain now user wallet_id symbol db).1
unfolding ensure_trustline ensure_on_chain ensure_classic reuse_or_issue issue
ensure_trustline-AllSpent chain now user wallet_id symbol db h =
    grind (arith, mark_active-AllSpent, record_issue-AllSpent)
