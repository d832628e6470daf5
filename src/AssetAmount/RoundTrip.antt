-- ===== src/AssetAmount/RoundTrip.antt =====
-- An amount that was converted to units is printed from them as the same amount
-- (src/defindex/asset-amount.ts).
use native.Mathlib.Nat.{eq_of_mul-eq-mul_right}
use smartpig_backend.Common.{ℕ, ◌*◌, ◌^◌, ◌<◌, ◌≡◌, ap, true, false, pos, ok, Returns, arith}
use smartpig_backend.Schema.Intents.{Decimal}
use smartpig_backend.AssetAmount.{DecimalLib, PrintLib, to_asset_units, from_asset_units}
use smartpig_backend.AssetAmount.Exactness.{IsExact, to_asset_units_exact, pow10-pos}

-- What decimal.js documents of printing: the quotient of a number of at most twenty significant digits by
-- a power of ten is exact, and so is `toFixed` with the places of that power. An integer is one.
pub record PrintsExactly (lib : DecimalLib) (print : PrintLib) : Type 0 where
  pub whole :
      (n : ℕ) → lib.is_integer (record { negative = false; coefficient = n; scale = 0 }) ≡ true
  pub fixed_value :
      (n k : ℕ)
      → n < 10 ^ 20
      → let raw : Decimal = record { negative = false; coefficient = n; scale = 0 } in
        let shown = print.to_fixed (print.div_pow10 raw k) k in
        (shown.coefficient * 10 ^ k ≡ n * 10 ^ shown.scale) × (shown.negative ≡ false)

-- Two decimals of one value.
abbrev pub SameValue : Decimal → Decimal → Type 0
SameValue a b =
    (a.coefficient * 10 ^ b.scale ≡ b.coefficient * 10 ^ a.scale) × (a.negative ≡ b.negative)

-- `a / 10 ^ k` and `c / 10 ^ p` are both `u / 10 ^ k`.
same_quotient : (u c p k s sp : ℕ) → 0 < k → u * p ≡ c * k → s * k ≡ u * sp → s * p ≡ c * sp
same_quotient u c p k s sp pos_k scaled shown =
    eq_of_mul-eq-mul_right k pos_k (s * p) (c * sp)
      (omega (arith, ap (λ (t : ℕ). t * p) shown, ap (λ (t : ℕ). t * sp) scaled))

-- For libraries that are exact on amounts of at most twenty digits: an amount that is converted to
-- units is printed from those units, with the same number of decimals, as an amount of the same value.
pub units_round_trip :
    (lib : DecimalLib) (print : PrintLib) (d : Decimal) (decimals : ℕ) {units : ℕ}
    → IsExact lib
    → PrintsExactly lib print
    → d.coefficient < 10 ^ 20
    → to_asset_units lib d (pos decimals) ≡ ok units
    → Returns
        (from_asset_units lib print
          (record { negative = false; coefficient = units; scale = 0 })
          (pos decimals))
        (λ shown. SameValue shown d)
unfolding from_asset_units
units_round_trip lib print d decimals {units} exact prints digits h =
    let (scaled, positive, safe, sign) = to_asset_units_exact lib d decimals exact digits h in
    let (shown, shown_sign) = prints.fixed_value units decimals (omega (arith, safe)) in
    let raw : Decimal = record { negative = false; coefficient = units; scale = 0 } in
    let text = print.to_fixed (print.div_pow10 raw decimals) decimals in
    let same =
      same_quotient units d.coefficient (10 ^ d.scale) (10 ^ decimals) text.coefficient
        (10 ^ text.scale) (pow10-pos decimals) scaled shown in
    ground (arith, prints.whole units, same, sign, shown_sign)
