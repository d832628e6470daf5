-- ===== src/Conversions/Finality.antt =====
-- Every operation moves the conversions along their machine, and a confirmed conversion stays as it is
-- (src/conversions/conversions.service.ts, src/deposits/deposits.service.ts,
-- src/jobs/conversion-recovery.job.ts).
use smartpig_backend.Common.{
  ℕ, ◌<◌, ◌≡◌, ◌∙◌, Follows, Option, none, some, List, [], ◌∷◌, String, Found,
}
use smartpig_backend.Schema.{Db}
use smartpig_backend.Schema.Intents.{Decimal, AssetConversion, ConversionStatus}
use smartpig_backend.StellarChain.{StellarChain}
use smartpig_backend.Conversions.{find_conversion}
use smartpig_backend.Conversions.Recovery.{sweep}
use smartpig_backend.Conversions.Lifecycle.{
  Evolves, Reach-confirmed, Preserves, Preserves-trans, Operation, run, run_all,
}
use smartpig_backend.Conversions.Lifecycle.Rows.{Preserves-refl, expire_unsigned-Preserves}
use smartpig_backend.Conversions.Lifecycle.Creation.{create_conversion-Preserves}
use smartpig_backend.Conversions.Lifecycle.Submission.{submit_conversion-Preserves}
use smartpig_backend.Conversions.Lifecycle.Funding.{fund-Preserves}

sweep-Preserves : (now : ℕ) (db : Db) → Preserves db (sweep now db).1
unfolding sweep
sweep-Preserves now db = expire_unsigned-Preserves now db

-- Every operation, from any state and whatever it answers, leaves each conversion whose identifier was
-- drawn before it in the table, with the columns of its request, in a state that the machine reaches
-- from the one that it had, still linked if it was linked, and with the same hash and amount if it was
-- confirmed.
pub run-Preserves :
    (chain : StellarChain) (op : Operation) (db : Db) → Preserves db (run chain op db)
unfolding run
run-Preserves chain (Operation.create env dto) db = create_conversion-Preserves chain env dto db
run-Preserves chain (Operation.submit now id user signed) db =
    submit_conversion-Preserves chain now id user signed db
run-Preserves chain (Operation.fund services env user dto) db =
    fund-Preserves services env user dto db
run-Preserves chain (Operation.tick now) db = sweep-Preserves now db

run_all-Preserves :
    (chain : StellarChain) (ops : List Operation) (db : Db) → Preserves db (run_all chain ops db)
unfolding run_all
run_all-Preserves chain [] db = Preserves-refl db
run_all-Preserves chain (op ∷ ops) db =
    Preserves-trans db (run chain op db) _ (run-Preserves chain op db)
      (run_all-Preserves chain ops (run chain op db))

-- Confirmed, with the hash and the amount.
abbrev pub IsSettled : Option String → Option Decimal → AssetConversion → Type 0
IsSettled hash received c =
    (c.status ≡ ConversionStatus.confirmed) × (c.tx_hash ≡ hash) × (c.received_amount ≡ received)

IsSettled-Follows :
    (hash : Option String) (received : Option Decimal) (before later : Option AssetConversion)
    → Follows (λ (c : AssetConversion). c.id) Evolves before later
    → Found before (IsSettled hash received)
    → Found later (IsSettled hash received)
IsSettled-Follows hash received none later follows settled = absurd settled
IsSettled-Follows hash received (some c) none follows settled = absurd follows
IsSettled-Follows hash received (some c) (some d) follows settled =
    let same = follows.2 settled.0 in
    (Reach-confirmed settled.0 follows.1, same.0 ∙ settled.1, same.1 ∙ settled.2)

-- A conversion that is confirmed stays confirmed, with its hash and the amount that it received, over
-- every sequence of operations.
confirmed_stays-IsSettled :
    (chain : StellarChain) (ops : List Operation) (id : ℕ) (hash : Option String)
    (received : Option Decimal) (db : Db)
    → id < db.next_id
    → Found (find_conversion id db) (IsSettled hash received)
    → Found (find_conversion id (run_all chain ops db)) (IsSettled hash received)
confirmed_stays-IsSettled chain ops id hash received db below settled =
    IsSettled-Follows hash received _ _ ((run_all-Preserves chain ops db).kept id below) settled
