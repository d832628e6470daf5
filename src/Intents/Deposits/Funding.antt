-- ===== src/Intents/Deposits/Funding.antt =====
-- A conversion funds one deposit (src/deposits/deposits.service.ts: createDepositFromConversion,
-- src/conversions/conversions.service.ts).
use smartpig_backend.Common.{
  ℕ, ◌≡◌, ◌⊎◌, subst, sym, Fails, true, none, some, is_some, err, Returns, Found, arith, ==_iff,
}
use smartpig_backend.Environment.{Env}
use smartpig_backend.Schema.{Db}
use smartpig_backend.Schema.Intents.{DepositIntent, AssetConversion, ConversionStatus}
use smartpig_backend.Services.{Services}
use smartpig_backend.Conversions.{find_conversion, get_consumable, attach_deposit, already_consumed}
use smartpig_backend.Conversions.Consumption.{find_conversion-attach}
use smartpig_backend.Intents.Rows.{find_deposit_by_key, create_deposit_row}
use smartpig_backend.Intents.Orchestrator.{build_deposit_xdr}
use smartpig_backend.Intents.Deposits.{
  FromConversion, create_from, create_deposit_from_conversion, generate_for,
}
use smartpig_backend.Intents.Deposits.Creation.{check_deposit-SameIntents}

-- The user's conversion is linked to a deposit.
abbrev pub IsConsumed : ℕ → ℕ → Db → Type 0
IsConsumed user id db = Found (find_conversion id db) (λ c.
    (c.user_id ≡ user)
    × (c.status ≡ ConversionStatus.confirmed)
    × (is_some c.deposit_intent_id ≡ true))

get_consumable-IsConsumed :
    (user id : ℕ) (db : Db)
    → IsConsumed user id db
    → get_consumable id user db ≡ (err already_consumed, db)
unfolding get_consumable
get_consumable-IsConsumed user id db h = ground (arith, ==_iff user user)

-- What a conversion that may be consumed is in the tables, which stay as they are.
get_consumable-found :
    (user id : ℕ) (db : Db)
    → Returns (get_consumable id user db).0 (λ k.
      Found
        (find_conversion id db)
        (λ c. (c.user_id ≡ user) × (c.status ≡ ConversionStatus.confirmed)))
      ⊎ Fails (get_consumable id user db).0
unfolding get_consumable
get_consumable-found user id db = ground (arith)

pub get_consumable-same : (user id : ℕ) (db : Db) → (get_consumable id user db).1 ≡ db
unfolding get_consumable
get_consumable-same user id db = ground arith

pub generate_for-conversions :
    (services : Services) (env : Env) (row : DepositIntent) (db : Db)
    → (generate_for services env row db).1.conversions ≡ db.conversions
unfolding generate_for build_deposit_xdr
generate_for-conversions services env row db = ground arith

pub create_deposit_row-conversions :
    (row : DepositIntent) (db : Db) → (create_deposit_row row db).1.conversions ≡ db.conversions
unfolding create_deposit_row
create_deposit_row-conversions row db = ground arith

attach_deposit-IsConsumed :
    (user id deposit : ℕ) (db : Db) {c : AssetConversion}
    → find_conversion id db ≡ some c
    → c.user_id ≡ user
    → c.status ≡ ConversionStatus.confirmed
    → IsConsumed user id (attach_deposit id deposit db).1
unfolding attach_deposit
attach_deposit-IsConsumed user id deposit db h owner status =
    ground (arith, find_conversion-attach id deposit db.conversions)

create_from-IsConsumed :
    (services : Services) (env : Env) (user : ℕ) (dto : FromConversion) (db : Db)
    → Returns (create_from services env user dto db).0 (λ a. Unit)
    → IsConsumed user dto.conversion_id (create_from services env user dto db).1
unfolding create_from
create_from-IsConsumed services env user dto db h = grind (
  arith,
  get_consumable-found user dto.conversion_id db,
  get_consumable-same user dto.conversion_id db,
  check_deposit-SameIntents,
  create_deposit_row-conversions,
  generate_for-conversions,
  attach_deposit-IsConsumed,
)

from_conversion-fresh :
    (services : Services) (env : Env) (user : ℕ) (dto : FromConversion) (db : Db)
    → find_deposit_by_key dto.idempotency_key db ≡ none
    → create_deposit_from_conversion services env user dto db ≡ create_from services env user dto db
unfolding create_deposit_from_conversion
from_conversion-fresh services env user dto db new = ground arith

from_conversion-refused :
    (services : Services) (env : Env) (user : ℕ) (dto : FromConversion) (db : Db)
    → find_deposit_by_key dto.idempotency_key db ≡ none
    → IsConsumed user dto.conversion_id db
    → create_deposit_from_conversion services env user dto db ≡ (err already_consumed, db)
unfolding create_deposit_from_conversion create_from
from_conversion-refused services env user dto db new h =
    ground (arith, get_consumable-IsConsumed user dto.conversion_id db h)

-- A conversion funds one deposit: after a request that was answered under a new key, every later
-- request of the same user for the same conversion under another new key is refused as already
-- consumed and writes nothing, whatever the services, the configuration and the clock are by then.
pub conversion_funds_once :
    (services later_services : Services) (env later : Env) (user : ℕ) (dto again : FromConversion)
    (db : Db)
    → find_deposit_by_key dto.idempotency_key db ≡ none
    → Returns (create_deposit_from_conversion services env user dto db).0 (λ a. Unit)
    → again.conversion_id ≡ dto.conversion_id
    → find_deposit_by_key again.idempotency_key
        (create_deposit_from_conversion services env user dto db).1
      ≡ none
    → let after = (create_deposit_from_conversion services env user dto db).1 in
      create_deposit_from_conversion later_services later user again after
      ≡ (err already_consumed, after)
conversion_funds_once services later_services env later user dto again db new h same fresh =
    let entered = from_conversion-fresh services env user dto db new in
    let returned : Returns (create_from services env user dto db).0 (λ a. Unit) =
      subst (λ out. Returns out.0 (λ a. Unit)) entered h in
    let consumed : IsConsumed user dto.conversion_id
        (create_deposit_from_conversion services env user dto db).1 =
      subst (λ out. IsConsumed user dto.conversion_id out.1) (sym entered)
        (create_from-IsConsumed services env user dto db returned) in
    from_conversion-refused later_services later user again _ fresh (
      subst (λ id. IsConsumed user id (create_deposit_from_conversion services env user dto db).1)
        (sym same) consumed)
