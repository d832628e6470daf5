-- ===== src/Conversions/Consumption.antt =====
-- A conversion funds one deposit.
use smartpig_backend.Common.{
  ℕ, ◌≡◌, ◌↔◌, none, some, List, [], ◌∷◌, find?, update_where, ok, err, Returns, arith, ◌==◌, refl,
}
use smartpig_backend.Schema.{Db}
use smartpig_backend.Schema.Intents.{AssetConversion, ConversionStatus}
use smartpig_backend.Conversions.{
  Consumable, find_conversion, get_consumable, attach_deposit, already_consumed, planned_vault,
}

pub find_conversion-attach :
    (id deposit : ℕ) (rows : List AssetConversion)
    → find?
        (λ c. c.id == id)
        (update_where (λ c. c.id == id) (λ c. record c { deposit_intent_id = some deposit }) rows)
      ≡ elim (find? (λ c. c.id == id) rows) [
        | none ↦ none
        | some c ↦ some (record c { deposit_intent_id = some deposit })
      ]
find_conversion-attach id deposit [] = refl
find_conversion-attach id deposit (c ∷ rows) =
    ground (arith, find_conversion-attach id deposit rows)

-- A conversion is consumable exactly when it is the caller's, confirmed, not yet deposited, planned
-- for a vault, and its received amount is known. The answer then has that vault and that amount.
pub get_consumable_iff :
    (id user : ℕ) (db : Db) (k : Consumable) {c : AssetConversion}
    → find_conversion id db ≡ some c
    → ((get_consumable id user db).0 ≡ ok k) ↔ (
        (c.user_id ≡ user)
        × (c.status ≡ ConversionStatus.confirmed)
        × (c.deposit_intent_id ≡ none)
        × (planned_vault c.planned_deposit ≡ some k.vault_id)
        × (c.received_amount ≡ some k.received_amount)
        × (k.id ≡ c.id)
        × (k.target_symbol ≡ c.target_symbol))
unfolding get_consumable
get_consumable_iff id user db k {c} h = (λ e. ground arith, λ e. ground arith)

-- Once a deposit is attached to a conversion that was consumable, it is refused as already consumed.
pub attach-get_consumable :
    (id user deposit : ℕ) (db : Db)
    → Returns (get_consumable id user db).0 (λ k. Unit)
    → (get_consumable id user (attach_deposit id deposit db).1).0 ≡ err already_consumed
unfolding get_consumable attach_deposit
attach-get_consumable id user deposit db h =
    ground (arith, find_conversion-attach id deposit db.conversions)
