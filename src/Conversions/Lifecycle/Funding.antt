-- ===== src/Conversions/Lifecycle/Funding.antt =====
-- A deposit from a conversion moves the conversions along their machine
-- (src/deposits/deposits.service.ts).
use smartpig_backend.Common.{ℕ, ◌≤◌, refl, some, arith, ◌>>◌, ◌>>=◌}
use smartpig_backend.Environment.{Env}
use smartpig_backend.Schema.{Db}
use smartpig_backend.Schema.Intents.{DepositIntent}
use smartpig_backend.Conversions.{attach_deposit}
use smartpig_backend.Services.{Services}
use smartpig_backend.Intents.Deposits.{
  FromConversion, create_deposit_from_conversion, create_from, check_deposit, generate_for,
  fail_deposit,
}
use smartpig_backend.Intents.Rows.{create_deposit_row}
use smartpig_backend.Intents.Orchestrator.{build_deposit_xdr}
use smartpig_backend.Intents.Deposits.Funding.{
  get_consumable-same, generate_for-conversions, create_deposit_row-conversions,
}
use smartpig_backend.Intents.Deposits.Creation.{check_deposit-SameIntents}
use smartpig_backend.Conversions.Creation.{set_conversion, update_conversion}
use smartpig_backend.Conversions.Lifecycle.{Reach, Preserves, Preserves-trans}
use smartpig_backend.Conversions.Lifecycle.Rows.{
  Preserves-same, Preserves-refl, update_conversion-Preserves,
}

attach_deposit-Preserves :
    (conversion deposit : ℕ) (db : Db) → Preserves db (attach_deposit conversion deposit db).1
unfolding attach_deposit update_conversion set_conversion
attach_deposit-Preserves conversion deposit db =
    update_conversion-Preserves conversion (λ c. record c { deposit_intent_id = some deposit }) db
      (λ c. refl)
      (λ c found. (
        (refl, refl, refl, refl, refl, refl, refl, refl, refl, refl, refl, refl, refl),
        Reach.here,
        (λ confirmed. (refl, refl)),
        λ linked. refl,
      ))

generate_for-next_id :
    (services : Services) (env : Env) (row : DepositIntent) (db : Db)
    → db.next_id ≤ (generate_for services env row db).1.next_id
unfolding generate_for build_deposit_xdr fail_deposit
generate_for-next_id services env row db = ground arith

create_deposit_row-next_id :
    (row : DepositIntent) (db : Db) → db.next_id ≤ (create_deposit_row row db).1.next_id
unfolding create_deposit_row
create_deposit_row-next_id row db = ground arith

generate_for-Preserves :
    (services : Services) (env : Env) (row : DepositIntent) (db : Db)
    → Preserves db (generate_for services env row db).1
generate_for-Preserves services env row db =
    Preserves-same db _ (generate_for-conversions services env row db)
      (generate_for-next_id services env row db)

attach_and_generate-Preserves :
    (services : Services) (env : Env) (conversion : ℕ) (row : DepositIntent) (db : Db)
    → Preserves db ((attach_deposit conversion row.id >> generate_for services env row) db).1
attach_and_generate-Preserves services env conversion row db =
    let attached : Preserves db (attach_deposit conversion row.id db).1 =
      attach_deposit-Preserves conversion row.id db in
    ground (
      arith,
      attached,
      Preserves-trans db (attach_deposit conversion row.id db).1 _ attached
          (generate_for-Preserves services env row (attach_deposit conversion row.id db).1),
    )

create_deposit_row-Preserves :
    (row : DepositIntent) (db : Db) → Preserves db (create_deposit_row row db).1
create_deposit_row-Preserves row db =
    Preserves-same db _ (create_deposit_row-conversions row db) (create_deposit_row-next_id row db)

-- The writes of a deposit from a conversion: its row, the link, and the XDR.
deposit_writes-Preserves :
    (services : Services) (env : Env) (conversion : ℕ) (row : DepositIntent) (db : Db)
    → Preserves db
        ((create_deposit_row row >>= λ made.
            attach_deposit conversion made.id >> generate_for services env made)
          db).1
deposit_writes-Preserves services env conversion row db =
    let created : Preserves db (create_deposit_row row db).1 =
      create_deposit_row-Preserves row db in
    grind (
      arith,
      created,
      λ (made : DepositIntent).
          Preserves-trans db (create_deposit_row row db).1
            ((attach_deposit conversion made.id >> generate_for services env made)
              (create_deposit_row row db).1).1
            created
            (attach_and_generate-Preserves services env conversion made
              (create_deposit_row row db).1),
    )

check_deposit-Preserves :
    (services : Services) (env : Env) (user vault : ℕ) (db : Db)
    → Preserves db (check_deposit services env user vault db).1
check_deposit-Preserves services env user vault db =
    let same = check_deposit-SameIntents services env user vault db in
    Preserves-same db _ same.3 (omega (arith, same.4))

-- The writes after the checks.
checked_writes-Preserves :
    (services : Services) (env : Env) (user vault conversion : ℕ) (row : DepositIntent) (db : Db)
    → Preserves db
        ((create_deposit_row row >>= λ made.
            attach_deposit conversion made.id >> generate_for services env made)
          (check_deposit services env user vault db).1).1
checked_writes-Preserves services env user vault conversion row db =
    Preserves-trans db (check_deposit services env user vault db).1 _
      (check_deposit-Preserves services env user vault db)
      (deposit_writes-Preserves services env conversion row
        (check_deposit services env user vault db).1)

create_from-Preserves :
    (services : Services) (env : Env) (user : ℕ) (dto : FromConversion) (db : Db)
    → Preserves db (create_from services env user dto db).1
unfolding create_from
create_from-Preserves services env user dto db = grind (
  arith,
  Preserves-refl db,
  get_consumable-same user dto.conversion_id db,
  λ (vault : ℕ). check_deposit-Preserves services env user vault db,
  λ (vault : ℕ) (row : DepositIntent).
      checked_writes-Preserves services env user vault dto.conversion_id row db,
)

pub fund-Preserves :
    (services : Services) (env : Env) (user : ℕ) (dto : FromConversion) (db : Db)
    → Preserves db (create_deposit_from_conversion services env user dto db).1
unfolding create_deposit_from_conversion
fund-Preserves services env user dto db =
    ground (arith, Preserves-refl db, create_from-Preserves services env user dto db)
