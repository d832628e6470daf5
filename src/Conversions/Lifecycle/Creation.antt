-- ===== src/Conversions/Lifecycle/Creation.antt =====
-- Creating a conversion moves the conversions along their machine
-- (src/conversions/conversions.service.ts).
use smartpig_backend.Common.{ℕ, ◌≡◌, refl, some, String, ok, err, Result, arith, ==_iff}
use smartpig_backend.TransactionState.{FailureCode}
use smartpig_backend.Environment.{Env}
use smartpig_backend.Schema.{Db}
use smartpig_backend.Schema.Vaults.{WalletAccount}
use smartpig_backend.Schema.Intents.{AssetConversion, ConversionStatus}
use smartpig_backend.AssetRegistry.{AssetDefinition}
use smartpig_backend.StellarChain.{StellarChain}
use smartpig_backend.Quotes.{AssetQuote}
use smartpig_backend.Conversions.{find_conversion}
use smartpig_backend.Conversions.Creation.{
  CreateConversion, fail_conversion, failed_conversion, create_conversion_row, new_conversion,
  create_conversion, create_new_conversion, convert, record_conversion, finish_conversion,
  check_conversion, path_payment_xdr,
}
use smartpig_backend.Conversions.Creating.{check_conversion-SameMoney}
use smartpig_backend.Conversions.Lifecycle.{Preserves, Preserves-trans}
use smartpig_backend.Conversions.Lifecycle.Rows.{
  Preserves-same, Preserves-refl, update_conversion-Preserves, open_fails, created_issues,
  create_conversion_row-Preserves,
}

-- The row is in state CREATED.
abbrev IsCreated : ℕ → Db → Type 0
IsCreated id db =
    (c : AssetConversion) → find_conversion id db ≡ some c → c.status ≡ ConversionStatus.created

finish_conversion-Preserves :
    (chain : StellarChain) (env : Env) (id : ℕ) (c : AssetConversion) (xdr : Result String)
    (db : Db)
    → IsCreated id db
    → Preserves db (finish_conversion chain env id c xdr db).1
unfolding finish_conversion fail_conversion
finish_conversion-Preserves chain env id c (err e) db created = ground (
  arith,
  update_conversion-Preserves id (failed_conversion e FailureCode.xdr_generation_failed) db
      (λ r. refl)
      (λ r found. open_fails e FailureCode.xdr_generation_failed r (rw (created r found) tt)),
)
finish_conversion-Preserves chain env id c (ok xdr) db created = ground (
  arith,
  update_conversion-Preserves id
      (λ r. record r { unsigned_xdr = some xdr; status = ConversionStatus.xdr_generated }) db
      (λ r. refl) (λ r found. created_issues xdr r (created r found)),
)

create_conversion_row-IsCreated :
    (c : AssetConversion) (db : Db)
    → c.status ≡ ConversionStatus.created
    → IsCreated db.next_id (create_conversion_row c db).1
unfolding create_conversion_row
create_conversion_row-IsCreated c db created r found = ground (arith, ==_iff db.next_id db.next_id)

record_conversion-Preserves :
    (chain : StellarChain) (env : Env) (dto : CreateConversion) (wallet : WalletAccount)
    (source target : AssetDefinition) (q : AssetQuote) (db : Db)
    → Preserves db (record_conversion chain env dto wallet source target q db).1
unfolding record_conversion create_conversion_row
record_conversion-Preserves chain env dto wallet source target q db =
    let row = new_conversion env.now dto wallet.id source target q in
    Preserves-trans db (create_conversion_row row db).1 _ (create_conversion_row-Preserves row db) (
      finish_conversion-Preserves chain env db.next_id row
        (path_payment_xdr chain env wallet source target q) (create_conversion_row row db).1
        (create_conversion_row-IsCreated row db refl))

check_conversion-Preserves :
    (chain : StellarChain) (env : Env) (dto : CreateConversion) (wallet : WalletAccount)
    (target : AssetDefinition) (db : Db)
    → Preserves db (check_conversion chain env dto wallet target db).1
check_conversion-Preserves chain env dto wallet target db =
    let same = check_conversion-SameMoney chain env dto wallet target db in
    Preserves-same db _ same.3 same.4

convert-Preserves :
    (chain : StellarChain) (env : Env) (dto : CreateConversion) (wallet : WalletAccount)
    (source target : AssetDefinition) (db : Db)
    → Preserves db (convert chain env dto wallet source target db).1
unfolding convert
convert-Preserves chain env dto wallet source target db =
    let checked : Preserves db (check_conversion chain env dto wallet target db).1 =
      check_conversion-Preserves chain env dto wallet target db in
    grind (
      arith,
      Preserves-refl db,
      checked,
      λ (q : AssetQuote).
          Preserves-trans db (check_conversion chain env dto wallet target db).1
            (record_conversion chain env dto wallet source target q
              (check_conversion chain env dto wallet target db).1).1
            checked
            (record_conversion-Preserves chain env dto wallet source target q
              (check_conversion chain env dto wallet target db).1),
    )

pub create_conversion-Preserves :
    (chain : StellarChain) (env : Env) (dto : CreateConversion) (db : Db)
    → Preserves db (create_conversion chain env dto db).1
unfolding create_conversion create_new_conversion
create_conversion-Preserves chain env dto db = grind (
  arith,
  Preserves-refl db,
  λ (wallet : WalletAccount) (source target : AssetDefinition).
      convert-Preserves chain env dto wallet source target db,
)
