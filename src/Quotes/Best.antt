-- ===== src/Quotes/Best.antt =====
-- A quote is the best route, and refuses a path that could not be submitted
-- (src/conversions/quote.service.ts).
use smartpig_backend.Common.{
  ℕ, ◌+◌, ◌≡◌, refl, true, false, Option, none, some, List, [], ◌∷◌, All, Any, ok, Returns, Found,
  arith, Bool-cases, inl, inr,
}
use smartpig_backend.Schema.Intents.{Decimal}
use smartpig_backend.AssetRegistry.{AssetDefinition}
use smartpig_backend.StellarChain.{StrictSendRecord, QuoteDecimals, StellarChain}
use smartpig_backend.Quotes.{
  AssetQuote, better, best_of, find_paths, quote, quote_of, stellar_decimals, kept_bps,
  quote_ttl_ms, to_path_assets, describe_path,
}

-- `gt` of decimal.js is the order of the values.
pub record IsOrder (d : QuoteDecimals) : Type 0 where
  pub asymmetric : (a b : Decimal) → d.greater a b ≡ true → d.greater b a ≡ false
  pub transitive :
      (a b c : Decimal) → d.greater a b ≡ false → d.greater b c ≡ false → d.greater a c ≡ false

-- No record pays more than this amount.
abbrev pub IsBest : QuoteDecimals → Decimal → List StrictSendRecord → Type 0
IsBest d best records = All (λ r. d.greater r.destination_amount best ≡ false) records

module _ (d : QuoteDecimals) (order : IsOrder d) where
  better_first :
      (a b : StrictSendRecord)
      → (d.greater a.destination_amount (better d a b).destination_amount ≡ false)
        × (d.greater b.destination_amount (better d a b).destination_amount ≡ false)
  better_first a b = ground (
    arith,
    order.asymmetric b.destination_amount a.destination_amount,
    order.asymmetric a.destination_amount a.destination_amount,
    order.asymmetric b.destination_amount b.destination_amount,
  )

  best_of_first :
      (a : StrictSendRecord) (rest : List StrictSendRecord)
      → d.greater a.destination_amount (best_of d a rest).destination_amount ≡ false
  unfolding best_of
  best_of_first a [] = ground (arith, order.asymmetric a.destination_amount a.destination_amount)
  best_of_first a (b ∷ rest) =
      order.transitive a.destination_amount (better d a b).destination_amount _ (better_first a b).0
        (best_of_first (better d a b) rest)

  best_of-IsBest :
      (a : StrictSendRecord) (rest : List StrictSendRecord)
      → IsBest d (best_of d a rest).destination_amount rest
  unfolding best_of
  best_of-IsBest a [] = tt
  best_of-IsBest a (b ∷ rest) = (
    order.transitive b.destination_amount (better d a b).destination_amount _ (better_first a b).1
        (best_of_first (better d a b) rest),
    best_of-IsBest (better d a b) rest,
  )

best_of-Any :
    (d : QuoteDecimals) (a : StrictSendRecord) (rest : List StrictSendRecord)
    → Any (λ r. r ≡ best_of d a rest) (a ∷ rest)
unfolding best_of
best_of-Any d a [] = inl refl
best_of-Any d a (b ∷ rest) =
    elim (Bool-cases (d.greater b.destination_amount a.destination_amount)) [
      | inl wins ↦ ground (arith, wins, best_of-Any d (better d a b) rest)
      | inr loses ↦ ground (arith, loses, best_of-Any d (better d a b) rest)
    ]

-- The record that a quote takes.
abbrev pub chosen : QuoteDecimals → List StrictSendRecord → Option StrictSendRecord
chosen d [] = none
chosen d (a ∷ rest) = some (best_of d a rest)

-- If the comparison of decimal.js is an order, a quote that is returned is for one of the records of
-- the path finder, and no other pays more; it shows the amount of that record and sends the amount that
-- was asked for, its minimum is the amount of the record less the slippage of the target asset, rounded
-- down, it is valid for a minute, and every hop of its path can be submitted.
pub quote-IsBest :
    (chain : StellarChain) (now : ℕ) (source target : AssetDefinition) (amount : Decimal)
    {q : AssetQuote}
    → IsOrder chain.decimals
    → quote chain now source target amount ≡ ok q
    → Returns (find_paths chain now source target amount) (λ records.
      Found (chosen chain.decimals records) (λ best.
        Any (λ r. r ≡ best) records
        × IsBest chain.decimals best.destination_amount records
        × (q.dest_amount ≡ chain.decimals.to_fixed best.destination_amount stellar_decimals)
        × (q.dest_min
            ≡ chain.decimals.to_fixed
                (chain.decimals.round_down
                  (chain.decimals.mul_bps best.destination_amount
                    (kept_bps target.max_slippage_bps))
                  stellar_decimals)
                stellar_decimals)
        × (q.path ≡ best.path)))
      × (q.send_amount ≡ chain.decimals.to_fixed amount stellar_decimals)
      × (q.expires_at ≡ now + quote_ttl_ms)
      × (q.slippage_bps ≡ target.max_slippage_bps)
      × Returns (to_path_assets q.path) (λ assets. Unit)
unfolding quote quote_of describe_path
quote-IsBest chain now source target amount {q} order h =
    grind
      (arith, best_of-Any, best_of_first chain.decimals order, best_of-IsBest chain.decimals order)
