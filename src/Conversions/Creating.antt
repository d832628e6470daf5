-- ===== src/Conversions/Creating.antt =====
-- What `createConversion` promises (src/conversions/conversions.service.ts): what it leaves behind on
-- every branch, what it does not touch, and what a retry gets.
use smartpig_backend.Common.{
  ℕ, ◌+◌, ◌≡◌, ◌≤◌, ◌⊎◌, refl, subst, true, false, Option, none, List, String, Result, ok, err,
  Returns, Found, is_some, arith, ==_iff,
}
use smartpig_backend.Environment.{Env}
use smartpig_backend.Schema.{Db}
use smartpig_backend.Schema.Vaults.{WalletAccount}
use smartpig_backend.Schema.Intents.{ConversionStatus, ConversionKey, WalletTrustline}
use smartpig_backend.Services.{ConversionQuote}
use smartpig_backend.AssetRegistry.{AssetDefinition}
use smartpig_backend.StellarChain.{StellarChain}
use smartpig_backend.Quotes.{AssetQuote}
use smartpig_backend.Trustlines.{
  upsert_line, mark_active, record_issue, issue, reuse_or_issue, ensure_classic, ensure_on_chain,
  ensure_trustline,
}
use smartpig_backend.Intents.Deposits.Creation.{eligible-SameIntents}
use smartpig_backend.Conversions.Creation.{
  CreateConversion, same_key, find_conversion_by_key, set_conversion, update_conversion,
  fail_conversion, create_conversion_row, check_eligibility, check_conversion, convert,
  create_new_conversion, create_conversion, record_conversion, finish_conversion, conversion_ttl_ms,
}

-- The tables of intents, transactions and conversions are the same; identifiers may have been drawn.
abbrev pub SameMoney : Db → Db → Type 0
SameMoney a b =
    (a.deposits ≡ b.deposits)
    × (a.withdrawals ≡ b.withdrawals)
    × (a.transactions ≡ b.transactions)
    × (a.conversions ≡ b.conversions)
    × (b.next_id ≤ a.next_id)

upsert_line-SameMoney :
    (wallet : ℕ) (asset : List ℕ) (new : WalletTrustline)
    (change : WalletTrustline → WalletTrustline) (db : Db)
    → SameMoney (upsert_line wallet asset new change db) db
unfolding upsert_line
upsert_line-SameMoney wallet asset new change db = ground arith

mark_active-SameMoney :
    (wallet : ℕ) (asset : List ℕ) (symbol : String) (hash : Option String) (db : Db)
    → SameMoney (mark_active wallet asset symbol hash db) db
unfolding mark_active
mark_active-SameMoney wallet asset symbol hash db = upsert_line-SameMoney wallet asset _ _ db

record_issue-SameMoney :
    (wallet : ℕ) (asset : List ℕ) (symbol xdr : String) (expires : ℕ) (db : Db)
    → SameMoney (record_issue wallet asset symbol xdr expires db) db
unfolding record_issue
record_issue-SameMoney wallet asset symbol xdr expires db =
    upsert_line-SameMoney wallet asset _ _ db

ensure_trustline-SameMoney :
    (chain : StellarChain) (now user wallet : ℕ) (symbol : String) (db : Db)
    → SameMoney (ensure_trustline chain now user wallet symbol db).1 db
unfolding ensure_trustline ensure_on_chain ensure_classic reuse_or_issue issue
ensure_trustline-SameMoney chain now user wallet symbol db =
    grind (arith, mark_active-SameMoney, record_issue-SameMoney)

check_eligibility-SameMoney :
    (env : Env) (dto : CreateConversion) (target : AssetDefinition) (db : Db)
    → SameMoney (check_eligibility env dto target db).1 db
unfolding check_eligibility
check_eligibility-SameMoney env dto target db = grind (arith, eligible-SameIntents env dto.user_id)

-- The checks before a conversion write no intent and no conversion, whatever they answer.
pub check_conversion-SameMoney :
    (chain : StellarChain) (env : Env) (dto : CreateConversion) (wallet : WalletAccount)
    (target : AssetDefinition) (db : Db)
    → SameMoney (check_conversion chain env dto wallet target db).1 db
unfolding check_conversion
check_conversion-SameMoney chain env dto wallet target db = grind (
  arith,
  check_eligibility-SameMoney env dto target,
  ensure_trustline-SameMoney chain env.now dto.user_id wallet.id,
)

-- What a request with a new key leaves behind, by its answer.
abbrev pub Outcome : ℕ → CreateConversion → Db → Result ConversionQuote × Db → Type 0
Outcome now dto before (ok q, after) =
    Found (find_conversion_by_key dto.idempotency_key after) (λ c.
      (c.status ≡ ConversionStatus.xdr_generated)
      × (c.id ≡ q.id)
      × (c.unsigned_xdr ≡ q.unsigned_xdr)
      × (is_some q.unsigned_xdr ≡ true)
      × (c.user_id ≡ dto.user_id)
      × (c.planned_deposit ≡ dto.planned_deposit)
      × (c.expires_at ≡ now + conversion_ttl_ms))
Outcome now dto before (err e, after) =
    (after.conversions ≡ before.conversions)
    ⊎ Found (find_conversion_by_key dto.idempotency_key after)
        (λ c. (c.status ≡ ConversionStatus.failed) × (is_some c.failure_code ≡ true))

same_key_refl : (key : ConversionKey) → same_key key key ≡ true
unfolding same_key
same_key_refl (ConversionKey.own k) = (==_iff k k).1 refl
same_key_refl (ConversionKey.derived k) = (==_iff k k).1 refl

record_conversion-Outcome :
    (chain : StellarChain) (env : Env) (dto : CreateConversion) (wallet : WalletAccount)
    (source target : AssetDefinition) (q : AssetQuote) (before db : Db)
    → Outcome env.now dto before (record_conversion chain env dto wallet source target q db)
unfolding record_conversion finish_conversion create_conversion_row update_conversion
    fail_conversion set_conversion
record_conversion-Outcome chain env dto wallet source target q before db =
    ground (arith, same_key_refl dto.idempotency_key, ==_iff db.next_id db.next_id)

-- The checks can throw only before a row is written.
create_new_conversion-Outcome :
    (chain : StellarChain) (env : Env) (dto : CreateConversion) (db : Db)
    → Outcome env.now dto db (create_new_conversion chain env dto db)
unfolding create_new_conversion convert
create_new_conversion-Outcome chain env dto db = grind (
  arith,
  check_conversion-SameMoney chain env dto,
  λ (wallet : WalletAccount) (source target : AssetDefinition) (q : AssetQuote).
      record_conversion-Outcome chain env dto wallet source target q db,
)

-- A request with a new key, from any state: if it answers, the conversion under the key is
-- XDR_GENERATED, has the identifier and the XDR of the answer, the user and the planned deposit of the
-- request, and eight minutes to be signed; if it throws, either no conversion changed or the one under
-- the key is FAILED with a failure code. So no request leaves a conversion in CREATED.
pub create_conversion-Outcome :
    (chain : StellarChain) (env : Env) (dto : CreateConversion) (db : Db)
    → find_conversion_by_key dto.idempotency_key db ≡ none
    → Outcome env.now dto db (create_conversion chain env dto db)
unfolding create_conversion
create_conversion-Outcome chain env dto db new =
    ground (arith, create_new_conversion-Outcome chain env dto db)

-- A retry of a request that was answered gets the same conversion and writes nothing, whatever the chain
-- and the clock are by then, while conversions are enabled; but its answer has no XDR to sign, although
-- the conversion has one.
pub create_conversion_retry :
    (chain later_chain : StellarChain) (env later : Env) (dto : CreateConversion) (db : Db)
    {q : ConversionQuote} {after : Db}
    → find_conversion_by_key dto.idempotency_key db ≡ none
    → later.conversions_disabled ≡ false
    → create_conversion chain env dto db ≡ (ok q, after)
    → ((create_conversion later_chain later dto after).1 ≡ after)
      × Returns
          (create_conversion later_chain later dto after).0
          (λ r. (r.id ≡ q.id) × (r.unsigned_xdr ≡ none) × (is_some q.unsigned_xdr ≡ true))
unfolding create_conversion
create_conversion_retry chain later_chain env later dto db {q} {after} new on h =
    let left : Outcome env.now dto db (ok q, after) =
      subst (Outcome env.now dto db) h (create_conversion-Outcome chain env dto db new) in
    ground arith

-- The tables of intents and transactions are the same.
abbrev pub SameIntentTables : Db → Db → Type 0
SameIntentTables a b =
    (a.deposits ≡ b.deposits) × (a.withdrawals ≡ b.withdrawals) × (a.transactions ≡ b.transactions)

record_conversion-SameIntentTables :
    (chain : StellarChain) (env : Env) (dto : CreateConversion) (wallet : WalletAccount)
    (source target : AssetDefinition) (q : AssetQuote) (db : Db)
    → SameIntentTables (record_conversion chain env dto wallet source target q db).1 db
unfolding record_conversion finish_conversion create_conversion_row update_conversion
    fail_conversion set_conversion
record_conversion-SameIntentTables chain env dto wallet source target q db = ground arith

-- Creating a conversion changes no deposit, no withdrawal and no transaction record.
pub create_conversion-SameIntentTables :
    (chain : StellarChain) (env : Env) (dto : CreateConversion) (db : Db)
    → SameIntentTables (create_conversion chain env dto db).1 db
unfolding create_conversion create_new_conversion convert
create_conversion-SameIntentTables chain env dto db = grind (
  arith,
  check_conversion-SameMoney chain env dto,
  record_conversion-SameIntentTables chain env dto,
)
