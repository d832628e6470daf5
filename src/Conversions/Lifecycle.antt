-- ===== src/Conversions/Lifecycle.antt =====
-- The life of a conversion, as a machine on its status (prisma/schema.prisma: ConversionStatus), and the
-- operations that write conversions: createConversion and submitConversion
-- (src/conversions/conversions.service.ts), createDepositFromConversion
-- (src/deposits/deposits.service.ts), and the sweep (src/jobs/conversion-recovery.job.ts).
pub mod Rows
pub mod Creation
pub mod Submission
pub mod Funding
use smartpig_backend.Common.{
  ℕ, ◌≡◌, ◌≤◌, refl, subst, arith, Evolved-trans, Bool, true, false, Option, none, some, List, [],
  ◌∷◌, String, is_some, Evolved, Result,
}
use smartpig_backend.Environment.{Env}
use smartpig_backend.Schema.{Db}
use smartpig_backend.Schema.Intents.{AssetConversion, ConversionStatus}
use smartpig_backend.Services.{Services}
use smartpig_backend.StellarChain.{StellarChain}
use smartpig_backend.Intents.Deposits.{FromConversion, create_deposit_from_conversion}
use smartpig_backend.Conversions.Creation.{CreateConversion, create_conversion}
use smartpig_backend.Conversions.Submission.{submit_conversion}
use smartpig_backend.Conversions.Recovery.{sweep}

-- Neither confirmed nor failed, nor waiting for a confirmation.
abbrev pub IsOpen : ConversionStatus → Type 0
IsOpen ConversionStatus.confirmed = ⊥
IsOpen ConversionStatus.failed = ⊥
IsOpen ConversionStatus.submitted = ⊥
IsOpen _ = Unit

-- One step of the machine.
pub data Step : ConversionStatus → ConversionStatus → Type 0 where
  issue : Step ConversionStatus.created ConversionStatus.xdr_generated
  sign : {s : ConversionStatus} → IsOpen s → Step s ConversionStatus.signed_xdr_received
  confirm : Step ConversionStatus.signed_xdr_received ConversionStatus.confirmed
  fail : {s : ConversionStatus} → IsOpen s → Step s ConversionStatus.failed
  expire_created : Step ConversionStatus.created ConversionStatus.expired
  expire_issued : Step ConversionStatus.xdr_generated ConversionStatus.expired

-- Steps in a row.
pub data Reach : ConversionStatus → ConversionStatus → Type 0 where
  here : {s : ConversionStatus} → Reach s s
  next : {s t u : ConversionStatus} → Step s t → Reach t u → Reach s u

Reach-trans : {s t u : ConversionStatus} → Reach s t → Reach t u → Reach s u
Reach-trans Reach.here k = k
Reach-trans (Reach.next step h) k = Reach.next step (Reach-trans h k)

pub one : {s t : ConversionStatus} → Step s t → Reach s t
one step = Reach.next step Reach.here

-- No step leaves a confirmed conversion.
Step-confirmed : {t : ConversionStatus} → Step ConversionStatus.confirmed t → ⊥
Step-confirmed (Step.sign o) = o
Step-confirmed (Step.fail o) = o

pub Reach-confirmed :
    {s t : ConversionStatus}
    → s ≡ ConversionStatus.confirmed
    → Reach s t
    → t ≡ ConversionStatus.confirmed
Reach-confirmed h Reach.here = h
Reach-confirmed h (Reach.next {t = t} step rest) =
    absurd (Step-confirmed (subst (λ s. Step s t) h step))

-- What a conversion keeps over an operation: the columns of the request, its place in the machine, the
-- link to a deposit, and, once it is confirmed, the hash and the amount.
abbrev pub Evolves : AssetConversion → AssetConversion → Type 0
Evolves c d =
    ((d.id ≡ c.id)
      × (d.user_id ≡ c.user_id)
      × (d.planned_deposit ≡ c.planned_deposit)
      × (d.dest_min ≡ c.dest_min)
      × (d.expires_at ≡ c.expires_at)
      × (d.idempotency_key ≡ c.idempotency_key)
      × (d.wallet_account_id ≡ c.wallet_account_id)
      × (d.source_symbol ≡ c.source_symbol)
      × (d.target_symbol ≡ c.target_symbol)
      × (d.send_amount ≡ c.send_amount)
      × (d.quoted_dest_amount ≡ c.quoted_dest_amount)
      × (d.slippage_bps ≡ c.slippage_bps)
      × (d.created_at ≡ c.created_at))
    × Reach c.status d.status
    × (c.status ≡ ConversionStatus.confirmed
        → (d.tx_hash ≡ c.tx_hash) × (d.received_amount ≡ c.received_amount))
    × (is_some c.deposit_intent_id ≡ true → is_some d.deposit_intent_id ≡ true)

pub Evolves-refl : (c : AssetConversion) → Evolves c c
Evolves-refl c = (
  (refl, refl, refl, refl, refl, refl, refl, refl, refl, refl, refl, refl, refl),
  Reach.here,
  (λ h. (refl, refl)),
  λ h. h,
)

pub Evolves-trans : (a b c : AssetConversion) → Evolves a b → Evolves b c → Evolves a c
Evolves-trans a b c h k = (
  ground arith,
  Reach-trans h.1 k.1,
  (λ confirmed. ground (arith, h.2 confirmed, k.2 (Reach-confirmed confirmed h.1))),
  λ linked. k.3 (h.3 linked),
)

-- The conversions that were there before an operation have evolved.
pub record Preserves (before later : Db) : Type 0 where
  pub grows : before.next_id ≤ later.next_id
  pub kept :
      Evolved
        (λ (c : AssetConversion). c.id)
        Evolves
        before.next_id
        before.conversions
        later.conversions

pub Preserves-trans : (a b c : Db) → Preserves a b → Preserves b c → Preserves a c
Preserves-trans a b c h k = record {
  grows = omega (arith, h.grows, k.grows);
  kept =
      Evolved-trans (λ (c : AssetConversion). c.id) Evolves Evolves-trans a.next_id b.next_id
        a.conversions b.conversions c.conversions h.grows h.kept k.kept;
}

-- The operations that write conversions, each with the clock and the configuration of its request.
pub data Operation : Type 0 where
  create : Env → CreateConversion → Operation
  submit : ℕ → ℕ → ℕ → String → Operation
  fund : Services → Env → ℕ → FromConversion → Operation
  tick : ℕ → Operation

unfoldable pub run : StellarChain → Operation → Db → Db
run chain (Operation.create env dto) db = (create_conversion chain env dto db).1
run chain (Operation.submit now id user signed) db =
    (submit_conversion chain now id user signed db).1
run chain (Operation.fund services env user dto) db =
    (create_deposit_from_conversion services env user dto db).1
run chain (Operation.tick now) db = (sweep now db).1

unfoldable pub run_all : StellarChain → List Operation → Db → Db
run_all chain [] db = db
run_all chain (op ∷ ops) db = run_all chain ops (run chain op db)
