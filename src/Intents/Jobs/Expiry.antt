-- ===== src/Intents/Jobs/Expiry.antt =====
-- What the hourly clean-up does to the deposits (src/jobs/expired-intents.job.ts).
use smartpig_backend.Common.{
  ℕ, ◌+◌, ◌≤◌, ◌≡◌, ◌⊎◌, refl, true, ◌&&◌, not, none, some, is_some, ◌==◌, ltb, arith,
  if◌then◌else◌, find?-update_where, find?-filter,
}
use smartpig_backend.TransactionState.{IntentStatus}
use smartpig_backend.Schema.{Db}
use smartpig_backend.Schema.Intents.{DepositIntent}
use smartpig_backend.Intents.Rows.{find_deposit}
use smartpig_backend.Intents.Jobs.{
  is_expirable, expire_deposit, deposit_transaction, mark_expired, cleanup_expired_intents,
  purge_after_ms, is_purgeable,
}

-- The deposit rows after the first half of the job, seen through a search by identifier.
pub find_deposit-mark_expired :
    (now id : ℕ) (db : Db)
    → find_deposit id (mark_expired now db) ≡ elim (find_deposit id db) [
      | none ↦ none
      | some r ↦
          some (if is_expirable r.status && ltb r.expires_at now then expire_deposit now r else r)
    ]
unfolding mark_expired
find_deposit-mark_expired now id db =
    find?-update_where (λ r. r.id == id) (λ r. is_expirable r.status && ltb r.expires_at now)
      (expire_deposit now) db.deposits (λ r. refl)

-- The job neither changes nor deletes an intent whose transaction the network may have, or which is
-- confirmed.
cleanup_keeps_in_flight :
    (now id : ℕ) (db : Db) {r : DepositIntent}
    → find_deposit id db ≡ some r
    → (r.status ≡ IntentStatus.signed_xdr_received)
      ⊎ (r.status ≡ IntentStatus.submitted)
      ⊎ (r.status ≡ IntentStatus.confirmed)
    → find_deposit id (cleanup_expired_intents now db) ≡ some r
unfolding cleanup_expired_intents
cleanup_keeps_in_flight now id db {r} h live =
    let marked = mark_expired now db in
    find?-filter (λ x. x.id == id)
      (λ x. not (is_purgeable now x.status x.updated_at (deposit_transaction x.id marked)))
      marked.deposits (ground (arith, find_deposit-mark_expired now id db)) (ground arith)

-- A failed intent is deleted only if it has no transaction and was not written for thirty days:
-- otherwise the job leaves the row as it is.
pub cleanup_keeps_failed :
    (now id : ℕ) (db : Db) {r : DepositIntent}
    → find_deposit id db ≡ some r
    → r.status ≡ IntentStatus.failed
    → (now ≤ r.updated_at + purge_after_ms) ⊎ (is_some (deposit_transaction r.id db) ≡ true)
    → find_deposit id (cleanup_expired_intents now db) ≡ some r
unfolding cleanup_expired_intents
cleanup_keeps_failed now id db {r} h failed recent =
    let marked = mark_expired now db in
    find?-filter (λ x. x.id == id)
      (λ x. not (is_purgeable now x.status x.updated_at (deposit_transaction x.id marked)))
      marked.deposits (ground (arith, find_deposit-mark_expired now id db)) (ground arith)
