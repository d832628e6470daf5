-- ===== src/Examples/Policies.antt =====
-- The laws of the eligibility policies and of printed amounts, at concrete rows.
use smartpig_backend.Common.{
  ℕ, ◌+◌, ◌*◌, ◌^◌, ◌%◌, ==_iff, ap, ◌≡◌, refl, pos, true, false, [], ◌∷◌, Returns, arith,
}
use smartpig_backend.VaultEligibility.Policies.{UpsertPolicy, upsert_policy}
use smartpig_backend.VaultEligibility.Publication.{Published, Unpublished, publish_unlocks}
use smartpig_backend.VaultEligibility.Activity.{IsOrdered, upsert_policy-IsOrdered}
use smartpig_backend.AssetAmount.{PrintLib, to_asset_units, from_asset_units}
use smartpig_backend.AssetAmount.RoundTrip.{PrintsExactly, SameValue, units_round_trip}
use smartpig_backend.Examples.Data.{db, plain_decimals, plain_decimals-IsExact, amount}

-- A second version of the policy of vault 7.
abbrev second_version : UpsertPolicy
second_version = record {
  version = 2;
  minimum_level = 1;
  required_module_keys = "intro" ∷ [];
  publish = true;
}

version_is_new : Unpublished 7 2 db
version_is_new p h = ground arith

publish_unlocks_example :
    Published 1000 7 second_version db (upsert_policy 1000 7 second_version db)
publish_unlocks_example = publish_unlocks 1000 7 second_version db refl version_is_new

in_order : IsOrdered db.policies
in_order = record {
  one_active = λ vault. ground arith;
  one_version = λ vault version. ground arith;
}

upsert_policy-IsOrdered_example : IsOrdered (upsert_policy 1000 7 second_version db).1.policies
upsert_policy-IsOrdered_example = upsert_policy-IsOrdered 1000 7 second_version db in_order

abbrev plain_printing : PrintLib
plain_printing = record { div_pow10 = λ d k. record d { scale = d.scale + k }; to_fixed = λ d k. d }

same_places : (k : ℕ) → k ≡ 0 + k
same_places k = omega arith

plain_printing-PrintsExactly : PrintsExactly plain_decimals plain_printing
plain_printing-PrintsExactly = record {
  whole = λ n. (==_iff (n % 1) 0).1 (omega arith);
  fixed_value = λ n k digits. (ap (λ (j : ℕ). n * 10 ^ j) (same_places k), refl);
}

units_round_trip_example :
    Returns
      (from_asset_units plain_decimals plain_printing
        (record { negative = false; coefficient = 150000000; scale = 0 })
        (pos 7))
      (λ shown. SameValue shown amount)
unfolding to_asset_units
units_round_trip_example =
    units_round_trip plain_decimals plain_printing amount 7 {units = 150000000}
      plain_decimals-IsExact plain_printing-PrintsExactly (omega arith) refl
