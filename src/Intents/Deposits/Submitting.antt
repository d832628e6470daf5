-- ===== src/Intents/Deposits/Submitting.antt =====
-- What `submitSignedXdr` promises for deposits (src/deposits/deposits.service.ts).
use smartpig_backend.Common.{
  ℕ, ◌≤◌, ◌≡◌, ◌⊎◌, inr, true, Option, none, some, String, is_some, Result, ok, err, Returns, Found,
  Fails, arith, ==_iff,
}
use smartpig_backend.TransactionState.{IntentStatus}
use smartpig_backend.Environment.{Env}
use smartpig_backend.Schema.{Db}
use smartpig_backend.Schema.Intents.{DepositIntent, TransactionStatus}
use smartpig_backend.Services.{Services}
use smartpig_backend.Intents.Guard.{assert_submittable}
use smartpig_backend.Intents.Rows.{
  find_deposit, find_owned_deposit, find_deposit-set_deposit, find_owned_deposit-set_deposit,
  insert_transaction, same_id,
}
use smartpig_backend.Intents.Orchestrator.{Submission, submit_deposit, settle_deposit}
use smartpig_backend.Intents.Jobs.{deposit_transaction}
use smartpig_backend.Intents.Deposits.{submit_signed_deposit}

-- The states from which a signed XDR is accepted, at an instant.
abbrev pub Submittable : ℕ → DepositIntent → Type 0
Submittable now r =
    ((r.status ≡ IntentStatus.xdr_generated) ⊎ (r.status ≡ IntentStatus.signed_xdr_received))
    × (now ≤ r.expires_at)

-- A signed XDR for an intent that is not the caller's, not in a state that waits for a signature, or
-- expired is refused, and nothing is written.
pub submit_signed_deposit_refused :
    (services : Services) (env : Env) (id user : ℕ) (xdr : String) (db : Db)
    → (find_owned_deposit id user db ≡ none)
      ⊎ Found (find_owned_deposit id user db) (λ r. ¬ Submittable env.now r)
    → Fails (submit_signed_deposit services env id xdr user db).0
      × ((submit_signed_deposit services env id xdr user db).1 ≡ db)
unfolding submit_signed_deposit assert_submittable
submit_signed_deposit_refused services env id user xdr db h = ground arith

-- What a submission leaves behind: on success the intent and its new transaction record agree with
-- the answer; on a throw no record was added.
abbrev pub Outcome : ℕ → Db → Result Submission × Db → Type 0
Outcome id before (ok s, after) =
    Found (find_deposit id after) (λ d. (d.status ≡ s.status) × (is_some d.signed_xdr ≡ true))
    × Found (deposit_transaction id after) (λ t.
      (t.tx_hash ≡ some s.tx_hash)
      × (((t.status ≡ TransactionStatus.confirmed) × (s.status ≡ IntentStatus.confirmed))
          ⊎ ((t.status ≡ TransactionStatus.pending) × (s.status ≡ IntentStatus.submitted))))
Outcome id before (err e, after) = after.transactions ≡ before.transactions

submit_deposit-Outcome :
    (services : Services) (now id : ℕ) (xdr : String) (db : Db)
    → Outcome id db (submit_deposit services now id xdr db)
unfolding submit_deposit settle_deposit insert_transaction same_id
submit_deposit-Outcome services now id xdr db =
    grind (arith, find_deposit-set_deposit, ==_iff id id)

-- A submission, from any state: if it answers, the intent and its transaction record agree with the
-- answer (confirmed and CONFIRMED, or pending and SUBMITTED) and the record has the hash of the
-- answer; if it throws, no transaction record was written.
pub submit_signed_deposit-Outcome :
    (services : Services) (env : Env) (id user : ℕ) (xdr : String) (db : Db)
    → Outcome id db (submit_signed_deposit services env id xdr user db)
unfolding submit_signed_deposit assert_submittable
submit_signed_deposit-Outcome services env id user xdr db =
    ground (arith, submit_deposit-Outcome services env.now id xdr db)

-- The states that a submission which answered leaves the caller's row in.
abbrev Settled : Option DepositIntent → Type 0
Settled row =
    Found row (λ d. (d.status ≡ IntentStatus.confirmed) ⊎ (d.status ≡ IntentStatus.submitted))

submit_deposit-Settled :
    (services : Services) (now id user : ℕ) (xdr : String) (db : Db) {r : DepositIntent}
    → find_owned_deposit id user db ≡ some r
    → Returns (submit_deposit services now id xdr db).0 (λ s. Unit)
    → Settled (find_owned_deposit id user (submit_deposit services now id xdr db).1)
unfolding submit_deposit settle_deposit insert_transaction
submit_deposit-Settled services now id user xdr db owned h =
    grind (arith, find_owned_deposit-set_deposit, find_deposit-set_deposit)

submit_signed_deposit-Settled :
    (services : Services) (env : Env) (id user : ℕ) (xdr : String) (db : Db)
    → Returns (submit_signed_deposit services env id xdr user db).0 (λ s. Unit)
    → Settled (find_owned_deposit id user (submit_signed_deposit services env id xdr user db).1)
unfolding submit_signed_deposit assert_submittable
submit_signed_deposit-Settled services env id user xdr db h = grind (arith, submit_deposit-Settled)

Settled-refused :
    (now : ℕ) (row : Option DepositIntent) → Settled row → Found row (λ r. ¬ Submittable now r)
Settled-refused now none h = h
Settled-refused now (some r) h = λ s. ground arith

-- A deposit is submitted once: after a submission that answered, the next one for the same intent by
-- the same user is refused and writes nothing, whatever the services and the clock are by then.
pub submit_once :
    (services later_services : Services) (env later : Env) (id user : ℕ) (xdr again : String)
    (db : Db)
    → Returns (submit_signed_deposit services env id xdr user db).0 (λ s. Unit)
    → let after = (submit_signed_deposit services env id xdr user db).1 in
      Fails (submit_signed_deposit later_services later id again user after).0
      × ((submit_signed_deposit later_services later id again user after).1 ≡ after)
submit_once services later_services env later id user xdr again db h =
    let after = (submit_signed_deposit services env id xdr user db).1 in
    submit_signed_deposit_refused later_services later id user again after (
      inr (
        Settled-refused later.now (find_owned_deposit id user after)
          (submit_signed_deposit-Settled services env id user xdr db h)))
