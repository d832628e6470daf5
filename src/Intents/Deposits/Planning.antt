-- ===== src/Intents/Deposits/Planning.antt =====
-- Deposits over the conversion service of this development (src/deposits/deposits.service.ts:
-- planConversionFirst, src/conversions/conversions.service.ts: createConversion).
use smartpig_backend.Common.{ℕ, ◌≡◌, false, true, none, String, ok, Returns, is_some, arith}
use smartpig_backend.Environment.{Env}
use smartpig_backend.Schema.{Db}
use smartpig_backend.Schema.Intents.{ConversionKey}
use smartpig_backend.Services.{Services, ConversionQuote}
use smartpig_backend.StellarChain.{StellarChain}
use smartpig_backend.Intents.Rows.{find_deposit_by_key}
use smartpig_backend.Intents.Deposits.{
  CreateDeposit, DepositAnswer, create_deposit, plan_conversion_first,
}
use smartpig_backend.Intents.Deposits.Creation.{KeepsDeposits, create_deposit-Outcome}
use smartpig_backend.Intents.Deposits.Creation
use smartpig_backend.Conversions.Creation.{create_conversion, of_request, find_conversion_by_key}
use smartpig_backend.Conversions.Creating.{
  create_conversion-SameIntentTables, create_conversion_retry,
}

-- The services of a deployment, whose conversions are those of `ConversionsService`.
unfoldable pub wired : Services → StellarChain → Env → Services
wired services chain env = record services {
  create_conversion = λ request. create_conversion chain env (of_request request);
}

wired-KeepsDeposits :
    (services : Services) (chain : StellarChain) (env : Env)
    → KeepsDeposits (wired services chain env)
unfolding wired
wired-KeepsDeposits services chain env request db =
    (create_conversion-SameIntentTables chain env (of_request request) db).0

-- With the conversion service of the repository, a deposit request with a new key leaves the row under
-- the key XDR_GENERATED if it answers with an intent, no deposit changed if it answers with a plan, and
-- if it throws, either no deposit changed or the row FAILED with a failure code.
pub wired-create_deposit-Outcome :
    (services : Services) (chain : StellarChain) (env : Env) (dto : CreateDeposit) (db : Db)
    → find_deposit_by_key dto.idempotency_key db ≡ none
    → Creation.Outcome dto.idempotency_key dto.user_id db.deposits
        (create_deposit (wired services chain env) env dto db)
wired-create_deposit-Outcome services chain env dto db =
    create_deposit-Outcome (wired services chain env) env dto db
      (wired-KeepsDeposits services chain env)

-- A plan with the identifier, and with no XDR to sign.
abbrev pub IsStrandedPlan : ConversionQuote → ℕ → DepositAnswer → Type 0
IsStrandedPlan q vault (DepositAnswer.intent row) = ⊥
IsStrandedPlan q vault (DepositAnswer.plan again v) =
    (again.id ≡ q.id) × (again.unsigned_xdr ≡ none) × (v ≡ vault)

-- Where `planConversionFirst` answered for a deposit whose key no conversion had, the plan has an XDR; and
-- planning the same deposit again on the tables that it left, while conversions are enabled, writes
-- nothing and is answered with the same conversion, but with no XDR, so that the plan cannot be signed
-- from the second answer.
pub plan_retry_has_no_xdr :
    (services : Services) (chain later_chain : StellarChain) (env later : Env) (dto : CreateDeposit)
    (target : String) (db : Db) {q : ConversionQuote} {vault : ℕ} {after : Db}
    → find_conversion_by_key (ConversionKey.derived dto.idempotency_key) db ≡ none
    → later.conversions_disabled ≡ false
    → plan_conversion_first (wired services chain env) env dto target db
      ≡ (ok (DepositAnswer.plan q vault), after)
    → (is_some q.unsigned_xdr ≡ true)
      × ((plan_conversion_first (wired services later_chain later) later dto target after).1
          ≡ after)
      × Returns
          (plan_conversion_first (wired services later_chain later) later dto target after).0
          (IsStrandedPlan q vault)
unfolding plan_conversion_first wired
plan_retry_has_no_xdr services chain later_chain env later dto target db {q} {vault} {after} new on
      h =
    grind (
      arith,
      create_conversion_retry chain later_chain env later _ db {q = q} {after = after} new on,
    )
