-- ===== src/Examples/Vaults.antt =====
-- The laws of the vault gates, the disclosures and the amounts, at concrete rows.
use smartpig_backend.Common.{
  ◌≡◌, ◌<◌, ◌≤◌, ◌*◌, ◌^◌, refl, true, false, some, [], ok, Returns, arith,
}
use smartpig_backend.VaultEligibility.{evaluate, is_usdc, get_eligibility}
use smartpig_backend.VaultEligibility.Qualification.{unlock_permanent}
use smartpig_backend.Disclosures.{
  acknowledge, has_acknowledged_current, assert_acknowledged, find_current, get_current_or_throw,
}
use smartpig_backend.Disclosures.Consent.{acknowledge-assert_acknowledged}
use smartpig_backend.AssetAmount.{to_asset_units, max_safe_integer}
use smartpig_backend.AssetAmount.Exactness.{to_asset_units_exact}
use smartpig_backend.Examples.Data.{
  db, env, plain_decimals, plain_decimals-IsExact, amount, lite_user,
}

eligible_at_seven : Returns (evaluate 2 7 "EURC" true db).0 (λ r. r.eligible ≡ true)
unfolding evaluate is_usdc
eligible_at_seven = refl

-- The policies are withdrawn, and the user's level and progress are lost.
unlock_permanent_example :
    Returns
      (get_eligibility 2 7 "EURC"
        (record (evaluate 2 7 "EURC" true db).1 { policies = []; accounts = []; progress = [] })).0
      (λ r. r.eligible ≡ true)
unlock_permanent_example = unlock_permanent lite_user 7 "EURC" db [] [] [] refl eligible_at_seven

acknowledge-assert_acknowledged_example :
    (assert_acknowledged env 2 7 "EURC" (acknowledge env.now 2 7 (some 3) db).1).0 ≡ ok tt
unfolding acknowledge get_current_or_throw find_current
acknowledge-assert_acknowledged_example =
    acknowledge-assert_acknowledged env 2 7 "EURC" (some 3) db tt

guard_passes :
    (assert_acknowledged env 2 7 "EURC" (acknowledge env.now 2 7 (some 3) db).1).0 ≡ ok tt
unfolding acknowledge get_current_or_throw find_current assert_acknowledged is_usdc
    has_acknowledged_current
guard_passes = refl

-- 15.0 of an asset of seven decimals is 150000000 units.
to_asset_units_exact_example :
    (150000000 * 10 ^ amount.scale ≡ amount.coefficient * 10 ^ 7)
    × (0 < 150000000)
    × (150000000 ≤ max_safe_integer)
    × (amount.negative ≡ false)
unfolding to_asset_units
to_asset_units_exact_example =
    to_asset_units_exact plain_decimals amount 7 plain_decimals-IsExact (omega arith) refl
