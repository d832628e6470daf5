-- ===== src/Trustlines/Submission.antt =====
-- What the submission of a trustline promises (src/wallets/trustlines.service.ts).
use smartpig_backend.Common.{
  ℕ, ◌≡◌, Bool, true, false, Option, none, some, List, String, is_present, ok, err,
  All-update_where, All-find?, arith, Found, ◌==◌, Exception,
}
use smartpig_backend.Schema.{Db}
use smartpig_backend.Schema.Vaults.{WalletAccount}
use smartpig_backend.Schema.Intents.{WalletTrustline}
use smartpig_backend.AssetRegistry.{AssetDefinition, asset_id_of}
use smartpig_backend.StellarChain.{StellarChain}
use smartpig_backend.Trustlines.{
  TrustlineSubmission, is_line, find_line, mark_active, after_rejection, settle_line, submit_line,
  submit_trustline, no_trustline_issued,
}
use smartpig_backend.Trustlines.Reuse.{
  IsSpent, AllSpent, mark_active-AllSpent, mark_active-spent, upsert_line-wallets,
}

after_rejection-AllSpent :
    (chain : StellarChain) (wallet : WalletAccount) (asset : AssetDefinition)
    (row : WalletTrustline) (e : Exception) (open_line : Bool) (db : Db)
    → AllSpent db
    → AllSpent (after_rejection chain wallet asset row e open_line db).1
unfolding after_rejection
after_rejection-AllSpent chain wallet asset row e true db h =
    mark_active-AllSpent wallet.id (asset_id_of asset) asset.symbol none db h
after_rejection-AllSpent chain wallet asset row e false db h =
    All-update_where IsSpent (λ t. t.id == row.id) _ db.trustlines (λ t old hit. cc) h

-- A submission leaves no active line with a transaction, whatever it answers.
submit_trustline-AllSpent :
    (chain : StellarChain) (user wallet_id : ℕ) (symbol signed : String) (db : Db)
    → AllSpent db
    → AllSpent (submit_trustline chain user wallet_id symbol signed db).1
unfolding submit_trustline submit_line settle_line
submit_trustline-AllSpent chain user wallet_id symbol signed db h =
    grind (arith, mark_active-AllSpent, after_rejection-AllSpent)

-- The line of the wallet and the asset has no transaction.
abbrev pub HasSpentLine : ℕ → List ℕ → Db → Type 0
HasSpentLine wallet asset db = Found (find_line wallet asset db) (λ t. t.unsigned_xdr ≡ none)

mark_active-HasSpentLine :
    (wallet : ℕ) (asset : List ℕ) (symbol : String) (hash : Option String) (db : Db)
    → HasSpentLine wallet asset (mark_active wallet asset symbol hash db)
      × ((mark_active wallet asset symbol hash db).wallets ≡ db.wallets)
unfolding mark_active
mark_active-HasSpentLine wallet asset symbol hash db = (
  ground (arith, mark_active-spent wallet asset symbol hash db),
  upsert_line-wallets wallet asset _ _ db,
)

submit_line-HasSpentLine :
    (chain : StellarChain) (wallet : WalletAccount) (asset : AssetDefinition) (signed : String)
    (row : WalletTrustline) (db : Db) {s : TrustlineSubmission} {after : Db}
    → IsSpent row
    → is_present row.unsigned_xdr ≡ true
    → submit_line chain wallet asset signed row db ≡ (ok s, after)
    → HasSpentLine wallet.id (asset_id_of asset) after × (after.wallets ≡ db.wallets)
unfolding submit_line settle_line after_rejection
submit_line-HasSpentLine chain wallet asset signed row db {s} {after} spent present h =
    grind (arith, mark_active-HasSpentLine wallet.id (asset_id_of asset) asset.symbol)

submit_found-HasSpentLine :
    (chain : StellarChain) (wallet : WalletAccount) (asset : AssetDefinition) (signed : String)
    (row : WalletTrustline) (db : Db) {s : TrustlineSubmission}
    → AllSpent db
    → find_line wallet.id (asset_id_of asset) db ≡ some row
    → is_present row.unsigned_xdr ≡ true
    → (submit_line chain wallet asset signed row db).0 ≡ ok s
    → HasSpentLine wallet.id (asset_id_of asset) (submit_line chain wallet asset signed row db).1
      × ((submit_line chain wallet asset signed row db).1.wallets ≡ db.wallets)
submit_found-HasSpentLine chain wallet asset signed row db {s = s} spent found present h =
    submit_line-HasSpentLine chain wallet asset signed row db {s = s}
      {after = (submit_line chain wallet asset signed row db).1}
      (All-find? IsSpent (is_line wallet.id (asset_id_of asset)) db.trustlines spent found).0
      present (ground arith)

-- A submission that was answered is not repeated: where no active line has a transaction, another one by
-- the user for the same wallet and asset on the tables that it left, before a new transaction is issued,
-- is refused as if none had been issued, and writes nothing, whatever is signed and whatever the network
-- answers by then, with the same registry of assets.
pub submit_trustline_once :
    (chain later_chain : StellarChain) (user wallet_id : ℕ) (symbol signed again : String) (db : Db)
    {s : TrustlineSubmission} {after : Db}
    → AllSpent db
    → later_chain.registry ≡ chain.registry
    → submit_trustline chain user wallet_id symbol signed db ≡ (ok s, after)
    → submit_trustline later_chain user wallet_id symbol again after
      ≡ (err no_trustline_issued, after)
unfolding submit_trustline
submit_trustline_once chain later_chain user wallet_id symbol signed again db {s} {after} spent same
      h =
    grind (
      arith,
      λ (wallet : WalletAccount) (asset : AssetDefinition) (row : WalletTrustline).
          submit_found-HasSpentLine chain wallet asset signed row db {s = s} spent,
    )
