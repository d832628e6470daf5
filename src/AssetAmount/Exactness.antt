-- ===== src/AssetAmount/Exactness.antt =====
-- `toAssetUnits` is exact: the contract units stand for the same amount.
use smartpig_backend.Common.{
  ℕ, zero, suc, ap, ◌*◌, ◌^◌, ◌<◌, ◌≤◌, ◌≡◌, ◌⊎◌, ◌↔◌, pos, true, false, ok, arith,
}
use native.Mathlib.Nat.{one-le-pow, mul-pos, eq_of_mul-eq-mul_right}
use smartpig_backend.Schema.Intents.{Decimal}
use smartpig_backend.AssetAmount.{DecimalLib, to_asset_units, max_safe_integer}

-- What decimal.js documents of the operations, for amounts of at most twenty significant digits,
-- its default precision: products with powers of ten are exact, and `toNumber` of an integer is
-- exact if the number is a safe integer.
pub record IsExact (lib : DecimalLib) : Type 0 where
  pub lte_zero_iff :
      (d : Decimal) → (lib.lte_zero d ≡ true) ↔ ((d.negative ≡ true) ⊎ (d.coefficient ≡ 0))
  pub mul_pow10_value :
      (d : Decimal) (k : ℕ)
      → d.coefficient < 10 ^ 20
      → (lib.mul_pow10 d k).coefficient * 10 ^ d.scale
        ≡ d.coefficient * 10 ^ k * 10 ^ (lib.mul_pow10 d k).scale
  pub to_number_value :
      (d : Decimal)
      → lib.is_integer d ≡ true
      → lib.to_number d ≤ max_safe_integer
      → d.coefficient ≡ lib.to_number d * 10 ^ d.scale

pub pow10-pos : (k : ℕ) → 0 < 10 ^ k
pow10-pos k = one-le-pow k 10 (omega arith)

-- What a call that returned has tested.
to_asset_units_tests :
    (lib : DecimalLib) (d : Decimal) (decimals : ℕ) {units : ℕ}
    → to_asset_units lib d (pos decimals) ≡ ok units
    → (lib.lte_zero d ≡ false)
      × (lib.is_integer (lib.mul_pow10 d decimals) ≡ true)
      × (lib.to_number (lib.mul_pow10 d decimals) ≡ units)
      × (units ≤ max_safe_integer)
unfolding to_asset_units
to_asset_units_tests lib d decimals h = ground arith

-- The scaled value and the units stand for one number, so the common factor cancels.
cancel_scale :
    (units c cm p q k : ℕ) → 0 < q → cm * p ≡ c * k * q → cm ≡ units * q → units * p ≡ c * k
cancel_scale units c cm p q k pos_q scaled whole =
    eq_of_mul-eq-mul_right q pos_q (units * p) (c * k)
      (omega (arith, scaled, ap (λ (t : ℕ). t * p) whole))

positive_units : (units p c k : ℕ) → units * p ≡ c * k → 0 < c → 0 < k → 0 < units
positive_units zero p c k e pc pk = absurd (omega (arith, mul-pos pc pk, e))
positive_units (suc n) p c k e pc pk = omega arith

-- The units that a positive amount is converted to are a safe integer, and stand for exactly the
-- amount: units / 10 ^ decimals is coefficient / 10 ^ scale. A negative or zero amount throws.
pub to_asset_units_exact :
    (lib : DecimalLib) (d : Decimal) (decimals : ℕ) {units : ℕ}
    → IsExact lib
    → d.coefficient < 10 ^ 20
    → to_asset_units lib d (pos decimals) ≡ ok units
    → (units * 10 ^ d.scale ≡ d.coefficient * 10 ^ decimals)
      × (0 < units)
      × (units ≤ max_safe_integer)
      × (d.negative ≡ false)
to_asset_units_exact lib d decimals {units} exact digits h =
    let (nonzero, whole, number, safe) = to_asset_units_tests lib d decimals h in
    let m = lib.mul_pow10 d decimals in
    let positive : (0 < d.coefficient) × (d.negative ≡ false) =
      ground (arith, exact.lte_zero_iff d) in
    let value : m.coefficient ≡ units * 10 ^ m.scale = ground (arith, exact.to_number_value m) in
    let same =
      cancel_scale units d.coefficient m.coefficient (10 ^ d.scale) (10 ^ m.scale) (10 ^ decimals)
        (pow10-pos m.scale) (exact.mul_pow10_value d decimals digits) value in
    (
      same,
      positive_units units (10 ^ d.scale) d.coefficient (10 ^ decimals) same positive.0
          (pow10-pos decimals),
      safe,
      positive.1,
    )
