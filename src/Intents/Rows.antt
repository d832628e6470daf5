-- ===== src/Intents/Rows.antt =====
-- The Prisma calls on `depositIntent`, `withdrawalIntent` and `transactionRecord`. An `update` of a
-- row that is not there throws, and so does an insert that a unique index refuses.
use smartpig_backend.Common.{
  ℕ, ◌+◌, ◌≡◌, refl, arith, Bool, false, ◌&&◌, ◌||◌, Option, none, some, List, [], ◌∷◌, String,
  ◌==◌, find?, any?, update_where, is_some, http, ErrorKind, Exception, Action, pure, gets, modify,
  or_throw, throw_if, ◌>>=◌, ◌>>◌, same_text, codes,
}
use smartpig_backend.Schema.{Db}
use smartpig_backend.Schema.Vaults.{WalletAccount}
use smartpig_backend.Schema.Intents.{DepositIntent, WithdrawalIntent, TransactionRecord}

abbrev pub record_not_found : Exception
record_not_found = http ErrorKind.plain "No record found"

abbrev pub unique_violation : Exception
unique_violation = http ErrorKind.plain "Unique constraint failed"

abbrev pub wallet_not_found : Exception
wallet_not_found = http ErrorKind.not_found "Wallet not found for user"

abbrev pub find_deposit : ℕ → Db → Option DepositIntent
find_deposit id db = find? (λ r. r.id == id) db.deposits

abbrev pub find_deposit_by_key : ℕ → Db → Option DepositIntent
find_deposit_by_key key db = find? (λ r. r.idempotency_key == key) db.deposits

-- `findFirst({ where: { id, userId } })`
abbrev pub find_owned_deposit : ℕ → ℕ → Db → Option DepositIntent
find_owned_deposit id user db = find? (λ r. r.id == id && r.user_id == user) db.deposits

abbrev pub find_withdrawal : ℕ → Db → Option WithdrawalIntent
find_withdrawal id db = find? (λ r. r.id == id) db.withdrawals

abbrev pub find_withdrawal_by_key : ℕ → Db → Option WithdrawalIntent
find_withdrawal_by_key key db = find? (λ r. r.idempotency_key == key) db.withdrawals

abbrev pub find_owned_withdrawal : ℕ → ℕ → Db → Option WithdrawalIntent
find_owned_withdrawal id user db = find? (λ r. r.id == id && r.user_id == user) db.withdrawals

abbrev pub find_wallet : ℕ → Db → Option WalletAccount
find_wallet id db = find? (λ w. w.id == id) db.wallets

-- `findFirst({ where: { id, userId, isActive: true } })`
abbrev pub find_active_wallet : ℕ → ℕ → Db → Option WalletAccount
find_active_wallet id user db =
    find? (λ w. w.id == id && w.user_id == user && w.is_active) db.wallets

abbrev pub set_deposit : ℕ → (DepositIntent → DepositIntent) → Db → Db
set_deposit id f db = record db { deposits = update_where (λ r. r.id == id) f db.deposits }

abbrev pub set_withdrawal : ℕ → (WithdrawalIntent → WithdrawalIntent) → Db → Db
set_withdrawal id f db = record db { withdrawals = update_where (λ r. r.id == id) f db.withdrawals }

-- `depositIntent.update({ where: { id } })`
abbrev pub update_deposit : ℕ → (DepositIntent → DepositIntent) → Action Db (Unit {0})
update_deposit id f = do
  old ← or_throw (← gets (find_deposit id)) record_not_found
  modify (set_deposit id f)

abbrev pub update_withdrawal : ℕ → (WithdrawalIntent → WithdrawalIntent) → Action Db (Unit {0})
update_withdrawal id f = do
  old ← or_throw (← gets (find_withdrawal id)) record_not_found
  modify (set_withdrawal id f)

-- `depositIntent.create`: a fresh identifier, and the key is unique. The answer is the new row.
unfoldable pub create_deposit_row : DepositIntent → Action Db DepositIntent
create_deposit_row row = do
  same ← gets (find_deposit_by_key row.idempotency_key)
  throw_if (is_some same) unique_violation
  id ← gets (λ db. db.next_id)
  modify (λ db. record db { deposits = record row { id = id } ∷ db.deposits; next_id = id + 1 })
  pure (record row { id = id })

unfoldable pub create_withdrawal_row : WithdrawalIntent → Action Db WithdrawalIntent
create_withdrawal_row row = do
  same ← gets (find_withdrawal_by_key row.idempotency_key)
  throw_if (is_some same) unique_violation
  id ← gets (λ db. db.next_id)
  modify
      (λ db. record db { withdrawals = record row { id = id } ∷ db.withdrawals; next_id = id + 1 })
  pure (record row { id = id })

-- The unique columns of `TransactionRecord`; a null is equal to nothing.
unfoldable pub same_id : Option ℕ → Option ℕ → Bool
same_id none b = false
same_id (some a) none = false
same_id (some a) (some b) = a == b

unfoldable pub same_hash : Option String → Option String → Bool
unfolding same_text
same_hash none b = false
same_hash (some a) none = false
same_hash (some a) (some b) = same_text (codes a) (codes b)

unfoldable pub clashes : TransactionRecord → TransactionRecord → Bool
unfolding same_id same_hash
clashes t u =
    same_id t.deposit_intent_id u.deposit_intent_id
    || same_id t.withdrawal_intent_id u.withdrawal_intent_id
    || same_hash t.tx_hash u.tx_hash

unfoldable pub is_duplicate : TransactionRecord → Db → Bool
is_duplicate t db = any? (clashes t) db.transactions

-- `transactionRecord.create`, the second write of a `$transaction`.
unfoldable pub insert_transaction : TransactionRecord → Db → Db
insert_transaction t db = record db {
  transactions = record t { id = db.next_id } ∷ db.transactions;
  next_id = db.next_id + 1;
}

-- A row is found under its identifier after an update, updated.
pub find_deposit-set_deposit :
    (id : ℕ) (f : DepositIntent → DepositIntent) (rows : List DepositIntent)
    → ((r : DepositIntent) → (f r).id ≡ r.id)
    → find? (λ r. r.id == id) (update_where (λ r. r.id == id) f rows)
      ≡ elim (find? (λ r. r.id == id) rows) [ none ↦ none | some r ↦ some (f r) ]
find_deposit-set_deposit id f [] keep = refl
find_deposit-set_deposit id f (r ∷ rows) keep =
    ground (arith, keep r, find_deposit-set_deposit id f rows keep)

-- The same for the search that is scoped by the owner.
pub find_owned_deposit-set_deposit :
    (id user : ℕ) (f : DepositIntent → DepositIntent) (rows : List DepositIntent)
    → ((r : DepositIntent) → (f r).id ≡ r.id)
    → ((r : DepositIntent) → (f r).user_id ≡ r.user_id)
    → find? (λ r. r.id == id && r.user_id == user) (update_where (λ r. r.id == id) f rows)
      ≡ elim (find? (λ r. r.id == id && r.user_id == user) rows) [
        | none ↦ none
        | some r ↦ some (f r)
      ]
find_owned_deposit-set_deposit id user f [] keep owner = refl
find_owned_deposit-set_deposit id user f (r ∷ rows) keep owner =
    ground (arith, keep r, owner r, find_owned_deposit-set_deposit id user f rows keep owner)
