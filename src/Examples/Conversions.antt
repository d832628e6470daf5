-- ===== src/Examples/Conversions.antt =====
-- The laws of the asset registry, the quotes, the trustlines and the conversions, at concrete rows.
use smartpig_backend.Common.{
  ◌≡◌, refl, pos, true, false, none, some, [], ◌∷◌, ok, err, ltb, Any, All, Returns, Fails, Found,
  is_some, arith, get_or_else, http, ErrorKind, ◌+◌, count_where, to_upper_case, List,
}
use smartpig_backend.Schema.{Db}
use smartpig_backend.Schema.Intents.{
  Decimal, ConversionKey, ConversionStatus, AssetConversion, TrustlineStatus,
}
use smartpig_backend.Services.{ConversionQuote}
use smartpig_backend.AssetRegistry.{
  AssetDefinition, AssetKind, read_asset_registry, get_funding_asset, is_funding,
  validate_asset_registry, all_errors, asset_errors, symbol_errors, kind_errors, is_strkey,
  get_asset, find_asset_by_symbol, normalized_symbol, asset_id_of,
}
use smartpig_backend.AssetRegistry.Validity.{IsSound, read_asset_registry-IsSound}
use smartpig_backend.StellarChain.{StellarChain, QuoteDecimals, PathAsset}
use smartpig_backend.Quotes.{
  AssetQuote, quote, find_paths, quote_of, best_of, describe_path, to_path_assets, stellar_decimals,
  kept_bps, quote_ttl_ms,
}
use smartpig_backend.Quotes.Best.{IsOrder, IsBest, chosen, quote-IsBest}
use smartpig_backend.Intents.Rows.{same_hash}
use smartpig_backend.Trustlines.{
  TrustlineAnswer, TrustlineSubmission, ensure_trustline, ensure_on_chain, ensure_classic,
  reuse_or_issue, issue, record_issue, upsert_line, is_line, mark_active, issued, submit_trustline,
  submit_line, settle_line, no_trustline_issued,
}
use smartpig_backend.Trustlines.Reuse.{ensure_trustline-AllSpent}
use smartpig_backend.Trustlines.Submission.{submit_trustline_once}
use smartpig_backend.VaultEligibility.{evaluate, assert_eligible_for_deposit}
use smartpig_backend.Conversions.Creation.{
  CreateConversion, same_key, create_conversion, create_new_conversion, convert, check_conversion,
  check_eligibility, eligibility_vault, source_asset, record_conversion, create_conversion_row,
  finish_conversion, path_payment_xdr, update_conversion, set_conversion,
}
use smartpig_backend.Conversions.Creating
use smartpig_backend.Conversions.Creating.{create_conversion-Outcome}
use smartpig_backend.Conversions.Submission.{
  ConversionReceipt, submit_conversion, find_owned_conversion, assert_convertible, assert_status,
  assert_in_time, send_conversion, confirm_conversion, settle_conversion,
}
use smartpig_backend.Conversions.Submitting.{
  SubmissionOutcome, submit_conversion-Outcome, submit_conversion_once,
}
use smartpig_backend.Conversions.Lifecycle.{Operation, Preserves, run}
use smartpig_backend.Conversions.Finality.{run-Preserves}
use smartpig_backend.Intents.Deposits.{
  CreateDeposit, DepositAnswer, plan_conversion_first, create_deposit,
}
use smartpig_backend.Intents.Deposits.Creation
use smartpig_backend.Intents.Deposits.Planning.{
  wired, wired-create_deposit-Outcome, IsStrandedPlan, plan_retry_has_no_xdr,
}
use smartpig_backend.Examples.Data
use smartpig_backend.Examples.Data.{db, env, later, services, amount}

abbrev usdc : AssetDefinition
usdc = record {
  symbol = "USDC";
  code = "USDC";
  issuer = some "GAAAAAAAAAAAAAAAAAAAAAAAAAAAAAAAAAAAAAAAAAAAAAAAAAAAAAAA";
  contract_id = none;
  decimals = pos 7;
  kind = AssetKind.classic;
  max_slippage_bps = pos 50;
  is_funding_asset = true;
}

abbrev eurc : AssetDefinition
eurc = record usdc { symbol = "EURC"; code = "EURC"; is_funding_asset = false }

registry_read : read_asset_registry (usdc ∷ eurc ∷ []) ≡ ok (usdc ∷ eurc ∷ [])
unfolding read_asset_registry validate_asset_registry all_errors asset_errors symbol_errors
    kind_errors is_strkey
registry_read = refl

read_asset_registry-IsSound_example :
    (usdc ∷ eurc ∷ [] ≡ usdc ∷ eurc ∷ [])
    × All IsSound (usdc ∷ eurc ∷ [])
    × (count_where is_funding (usdc ∷ eurc ∷ []) ≡ 1)
    × Returns (get_funding_asset (usdc ∷ eurc ∷ [])) (λ a. a.is_funding_asset ≡ true)
read_asset_registry-IsSound_example = read_asset_registry-IsSound (usdc ∷ eurc ∷ []) registry_read

-- Amounts of one scale, compared by their coefficients.
abbrev quote_decimals : QuoteDecimals
quote_decimals = record {
  greater = λ a b. ltb b.coefficient a.coefficient;
  mul_bps = λ d k. d;
  round_down = λ d k. d;
  to_fixed = λ d k. d;
}

quote_decimals-IsOrder : IsOrder quote_decimals
quote_decimals-IsOrder = record {
  asymmetric = λ a b h. ground arith;
  transitive = λ a b c h k. ground arith;
}

abbrev worth : Decimal
worth = record { negative = false; coefficient = 140; scale = 1 }

-- Every wallet has its lines, and the network accepts.
abbrev chain : StellarChain
chain = record {
  registry = usdc ∷ eurc ∷ [];
  decimals = quote_decimals;
  strict_send = λ q. ok (record { destination_amount = worth; path = [] } ∷ []);
  has_trustline = λ address asset. ok true;
  build_sponsored_trustline_xdr = λ address asset. ok "LINE";
  build_path_payment_xdr = λ payment. ok "PATH";
  submit_fee_bump_transaction = λ signed unsigned. ok "f00d";
  read_path_payment_received = λ hash address asset. some worth;
  new_asset = λ code issuer. ok (PathAsset.credit code (get_or_else issuer ""));
}

-- The network refuses everything.
abbrev offline_chain : StellarChain
offline_chain = record chain {
  submit_fee_bump_transaction = λ signed unsigned. err (http ErrorKind.plain "offline");
}

-- No wallet has a line yet.
abbrev new_chain : StellarChain
new_chain = record chain { has_trustline = λ address asset. ok false }

abbrev eurc_quote : AssetQuote
eurc_quote = record {
  send_amount = amount;
  dest_amount = worth;
  dest_min = worth;
  slippage_bps = pos 50;
  path = [];
  path_description = [];
  expires_at = 61000;
}

quoted : quote chain 1000 usdc eurc amount ≡ ok eurc_quote
unfolding quote find_paths quote_of best_of describe_path to_path_assets
quoted = refl

quote-IsBest_example :
    Returns (find_paths chain 1000 usdc eurc amount) (λ records.
      Found (chosen quote_decimals records) (λ best.
        Any (λ r. r ≡ best) records
        × IsBest quote_decimals best.destination_amount records
        × (worth ≡ quote_decimals.to_fixed best.destination_amount stellar_decimals)
        × (worth
            ≡ quote_decimals.to_fixed
                (quote_decimals.round_down
                  (quote_decimals.mul_bps best.destination_amount (kept_bps eurc.max_slippage_bps))
                  stellar_decimals)
                stellar_decimals)
        × ([] ≡ best.path)))
    × (eurc_quote.send_amount ≡ quote_decimals.to_fixed amount stellar_decimals)
    × (61000 ≡ 1000 + quote_ttl_ms)
    × (pos 50 ≡ eurc.max_slippage_bps)
    × Returns (to_path_assets []) (λ assets. Unit)
quote-IsBest_example = quote-IsBest chain 1000 usdc eurc amount quote_decimals-IsOrder quoted

abbrev line_answer : TrustlineAnswer
line_answer = issued (asset_id_of eurc) (some "LINE") (some 541000)

abbrev line_db : Db
line_db = (ensure_trustline new_chain 1000 1 10 "EURC" db).1

line_issued : ensure_trustline new_chain 1000 1 10 "EURC" db ≡ (ok line_answer, line_db)
unfolding ensure_trustline ensure_on_chain ensure_classic reuse_or_issue issue record_issue
    upsert_line get_asset find_asset_by_symbol normalized_symbol to_upper_case
line_issued = refl

abbrev submission : TrustlineSubmission
submission = record {
  asset_id = asset_id_of eurc;
  tx_hash = "f00d";
  status = TrustlineStatus.active;
}

abbrev active_db : Db
active_db = (submit_trustline new_chain 1 10 "EURC" "SIGNED" line_db).1

line_submitted :
    submit_trustline new_chain 1 10 "EURC" "SIGNED" line_db ≡ (ok submission, active_db)
unfolding submit_trustline submit_line settle_line mark_active is_line asset_id_of ensure_trustline
    ensure_on_chain ensure_classic reuse_or_issue issue record_issue upsert_line get_asset
    find_asset_by_symbol normalized_symbol to_upper_case
line_submitted = refl

submit_trustline_once_example :
    submit_trustline offline_chain 1 10 "EURC" "AGAIN" active_db
    ≡ (err no_trustline_issued, active_db)
submit_trustline_once_example =
    submit_trustline_once new_chain offline_chain 1 10 "EURC" "SIGNED" "AGAIN" line_db
      {s = submission} {after = active_db}
      (ensure_trustline-AllSpent new_chain 1000 1 10 "EURC" db tt) refl line_submitted

abbrev conversion_request : CreateConversion
conversion_request = record {
  idempotency_key = ConversionKey.own 800;
  user_id = 1;
  wallet_account_id = 10;
  from_symbol = none;
  to_symbol = "EURC";
  amount = amount;
  planned_deposit = some (record { vault_id = some 7; asset_symbol = "EURC" });
}

create_conversion-Outcome_example :
    Creating.Outcome 1000 conversion_request db (create_conversion chain env conversion_request db)
unfolding same_key
create_conversion-Outcome_example = create_conversion-Outcome chain env conversion_request db refl

-- The line of the wallet takes the identifier 100.
abbrev conversion_quote : ConversionQuote
conversion_quote = record {
  id = 101;
  unsigned_xdr = some "PATH";
  send_amount = amount;
  quoted_dest_amount = worth;
  dest_min = worth;
  source_symbol = "USDC";
  target_symbol = "EURC";
}

abbrev converting_db : Db
converting_db = (create_conversion chain env conversion_request db).1

conversion_created :
    create_conversion chain env conversion_request db ≡ (ok conversion_quote, converting_db)
unfolding create_conversion same_key create_new_conversion convert check_conversion
    check_eligibility eligibility_vault source_asset record_conversion create_conversion_row
    finish_conversion path_payment_xdr update_conversion set_conversion get_asset
    find_asset_by_symbol normalized_symbol get_funding_asset ensure_trustline ensure_on_chain
    ensure_classic mark_active upsert_line is_line evaluate assert_eligible_for_deposit quote
    find_paths quote_of best_of describe_path to_path_assets asset_id_of to_upper_case
conversion_created = refl

abbrev receipt : ConversionReceipt
receipt = record { id = 101; status = ConversionStatus.confirmed; tx_hash = "f00d" }

-- A conversion whose XDR waits for a signature.
abbrev waiting_conversion : AssetConversion
waiting_conversion = record Data.conversion {
  id = 61;
  idempotency_key = ConversionKey.own 601;
  target_symbol = "EURC";
  status = ConversionStatus.xdr_generated;
  received_amount = none;
  tx_hash = none;
}

abbrev waiting_db : Db
waiting_db = record db { conversions = waiting_conversion ∷ db.conversions }

submit_conversion-Outcome_example :
    SubmissionOutcome chain "SIGNED" 61 waiting_db
      (submit_conversion chain 1000 61 1 "SIGNED" waiting_db)
submit_conversion-Outcome_example = submit_conversion-Outcome chain 1000 61 1 "SIGNED" waiting_db

abbrev settled_db : Db
settled_db = (submit_conversion chain 1000 61 1 "SIGNED" waiting_db).1

conversion_submitted :
    submit_conversion chain 1000 61 1 "SIGNED" waiting_db
    ≡ (ok (record receipt { id = 61 }), settled_db)
unfolding submit_conversion find_owned_conversion assert_convertible assert_status assert_in_time
    send_conversion settle_conversion confirm_conversion same_hash update_conversion set_conversion
    get_asset find_asset_by_symbol normalized_symbol to_upper_case
conversion_submitted = refl

submit_conversion_once_example :
    Fails (submit_conversion new_chain 2000 61 2 "AGAIN" settled_db).0
    × ((submit_conversion new_chain 2000 61 2 "AGAIN" settled_db).1 ≡ settled_db)
submit_conversion_once_example =
    submit_conversion_once chain new_chain 1000 2000 61 1 2 "SIGNED" "AGAIN" waiting_db
      {r = record receipt { id = 61 }} {after = settled_db} conversion_submitted

run-Preserves_example :
    Preserves waiting_db (run chain (Operation.submit 1000 61 1 "SIGNED") waiting_db)
run-Preserves_example = run-Preserves chain (Operation.submit 1000 61 1 "SIGNED") waiting_db

-- The sweep, a second submission and a deposit from the conversion.
abbrev operations : List Operation
operations =
    Operation.tick 900000
    ∷ Operation.submit 2000 60 1 "AGAIN"
    ∷ Operation.fund services env 1
        (record { idempotency_key = 910; conversion_id = 60; wallet_account_id = 10 })
    ∷ []

abbrev planned_request : CreateDeposit
planned_request = record {
  idempotency_key = 900;
  user_id = 1;
  wallet_account_id = 10;
  vault_id = 7;
  amount = amount;
  asset_symbol = "USDC";
  auto_convert = true;
}

wired-create_deposit-Outcome_example :
    Creation.Outcome 900 1 db.deposits
      (create_deposit (wired services chain env) env planned_request db)
wired-create_deposit-Outcome_example =
    wired-create_deposit-Outcome services chain env planned_request db refl

abbrev planned_db : Db
planned_db = (plan_conversion_first (wired services chain env) env planned_request "EURC" db).1

conversion_planned :
    plan_conversion_first (wired services chain env) env planned_request "EURC" db
    ≡ (ok (DepositAnswer.plan conversion_quote 7), planned_db)
unfolding plan_conversion_first wired create_conversion same_key create_new_conversion convert
    check_conversion check_eligibility eligibility_vault source_asset record_conversion
    create_conversion_row finish_conversion path_payment_xdr update_conversion set_conversion
    get_asset find_asset_by_symbol normalized_symbol get_funding_asset ensure_trustline
    ensure_on_chain ensure_classic mark_active upsert_line is_line evaluate
    assert_eligible_for_deposit quote find_paths quote_of best_of describe_path to_path_assets
    asset_id_of to_upper_case
conversion_planned = refl

plan_retry_has_no_xdr_example :
    (is_some conversion_quote.unsigned_xdr ≡ true)
    × ((plan_conversion_first
          (wired services new_chain later)
          later
          planned_request
          "EURC"
          planned_db).1
        ≡ planned_db)
    × Returns
        (plan_conversion_first
          (wired services new_chain later)
          later
          planned_request
          "EURC"
          planned_db).0
        (IsStrandedPlan conversion_quote 7)
unfolding same_key
plan_retry_has_no_xdr_example =
    plan_retry_has_no_xdr services chain new_chain env later planned_request "EURC" db
      {q = conversion_quote} {vault = 7} {after = planned_db} refl refl conversion_planned
