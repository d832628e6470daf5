-- ===== src/Conversions.antt =====
-- The conversion that funds a deposit (src/conversions/conversions.service.ts): which conversion may
-- be consumed, its link to the deposit, and the ones still owed a deposit.
pub mod Consumption
pub mod Creation
pub mod Creating
pub mod Submission
pub mod Submitting
pub mod Recovery
pub mod Lifecycle
pub mod Finality
use smartpig_backend.Common.{
  ℕ, Bool, true, false, ◌&&◌, not, Option, none, some, List, String, ◌==◌, find?, filter,
  update_where, is_some, http, ErrorKind, Exception, Action, pure, throw, gets, modify, or_throw,
  throw_if, ◌>>=◌, ◌>>◌,
}
use smartpig_backend.Schema.{Db}
use smartpig_backend.Schema.Intents.{Decimal, AssetConversion, ConversionStatus, PlannedDeposit}

abbrev pub conversion_not_found : Exception
conversion_not_found = http ErrorKind.not_found "Conversion not found"

abbrev pub not_confirmed : Exception
not_confirmed = http ErrorKind.conflict "CONVERSION_NOT_CONFIRMED"

abbrev pub already_consumed : Exception
already_consumed = http ErrorKind.conflict "CONVERSION_ALREADY_CONSUMED"

abbrev pub no_planned_deposit : Exception
no_planned_deposit = http ErrorKind.bad_request "Conversion has no planned deposit to complete"

abbrev pub amount_unknown : Exception
amount_unknown = http ErrorKind.conflict "CONVERSION_AMOUNT_UNKNOWN"

abbrev pub find_conversion : ℕ → Db → Option AssetConversion
find_conversion id db = find? (λ c. c.id == id) db.conversions

abbrev pub is_confirmed : ConversionStatus → Bool
is_confirmed ConversionStatus.confirmed = true
is_confirmed _ = false

-- `planned?.vaultId`
abbrev pub planned_vault : Option PlannedDeposit → Option ℕ
planned_vault none = none
planned_vault (some p) = p.vault_id

pub record Consumable : Type 0 where
  pub id : ℕ
  pub vault_id : ℕ
  pub target_symbol : String
  pub received_amount : Decimal

unfoldable pub get_consumable : ℕ → ℕ → Action Db Consumable
get_consumable id user = do
  c ← or_throw (← gets (find_conversion id)) conversion_not_found
  throw_if (not (c.user_id == user)) conversion_not_found
  throw_if (not (is_confirmed c.status)) not_confirmed
  throw_if (is_some c.deposit_intent_id) already_consumed
  vault ← or_throw (planned_vault c.planned_deposit) no_planned_deposit
  received ← or_throw c.received_amount amount_unknown
  pure (record {
    id = c.id;
    vault_id = vault;
    target_symbol = c.target_symbol;
    received_amount = received;
  })

unfoldable pub attach_deposit : ℕ → ℕ → Action Db (Unit {0})
attach_deposit conversion deposit = do
  old ← or_throw (← gets (find_conversion conversion)) (http ErrorKind.plain "No record found")
  modify (λ db. record db {
    conversions =
        update_where (λ c. c.id == conversion) (λ c. record c { deposit_intent_id = some deposit })
          db.conversions;
  })

-- `listPending`, unordered: confirmed, not consumed, and with a planned deposit.
abbrev pub is_owed : ℕ → AssetConversion → Bool
is_owed user c =
    c.user_id == user
    && is_confirmed c.status
    && not (is_some c.deposit_intent_id)
    && is_some c.planned_deposit

unfoldable pub list_pending : ℕ → Db → List AssetConversion
list_pending user db = filter (is_owed user) db.conversions
