-- ===== src/Experience/Ledger.antt =====
-- What the XP ledger promises (src/experience/experience-ledger.service.ts).
use smartpig_backend.Common.{
  ℕ, ◌+◌, ◌≡◌, refl, subst, sym, inl, inr, true, false, Option, none, some, List, [], ◌∷◌, ◌==◌,
  if◌then◌else◌, arith, Bool-cases, Option-cases, Returns, find?, update_where, ==_iff,
  find?-update_where,
}
use smartpig_backend.Experience.{
  GrantXpInput, LedgerEntry, XpAccount, XpDb, find_xp_account, unlock_earned_rewards, level_of,
  calculate_experience_level, credit, grant,
}

-- The points of a user's entries.
abbrev pub ledger_points : ℕ → List LedgerEntry → ℕ
ledger_points user [] = 0
ledger_points user (e ∷ es) =
    let rest = ledger_points user es in if e.user_id == user then e.points + rest else rest

-- The account of a user agrees with the ledger: its total is the sum of the user's entries, and its
-- level is the level of the total; without an account there are no points.
abbrev pub IsBalanced : (ℕ → ℕ) → ℕ → XpDb → Type 0
IsBalanced curve user db = elim (find_xp_account user db) [
  | none ↦ ledger_points user db.ledger ≡ 0
  | some a ↦
      (a.total_xp ≡ ledger_points user db.ledger) × (a.current_level ≡ level_of curve a.total_xp)
]

find_account-user :
    (user : ℕ) (rows : List XpAccount) {a : XpAccount}
    → find? (λ r. r.user_id == user) rows ≡ some a
    → (a.user_id == user) ≡ true
find_account-user user [] h = ground arith
find_account-user user (r ∷ rows) {a} h = ground (arith, find_account-user user rows {a = a})

abbrev entry_of : GrantXpInput → ℕ → LedgerEntry
entry_of i points = record {
  user_id = i.user_id;
  source_type = i.source_type;
  source_ref = i.source_ref;
  points = points;
}

module _ (curve : ℕ → ℕ) where
  -- The account after a credit: the user's own has the points more, and the level of its total.
  abbrev credited : ℕ → ℕ → Option XpAccount → XpAccount
  credited u points none = record {
    user_id = u;
    total_xp = points;
    current_level = level_of curve points;
  }
  credited u points (some a) = record a {
    total_xp = a.total_xp + points;
    current_level = level_of curve (a.total_xp + points);
  }

  pub credit-own :
      (u points : ℕ) (db : XpDb)
      → find_xp_account u (credit curve u points db)
        ≡ some (credited u points (find_xp_account u db))
  unfolding credit
  credit-own u points db = elim (Option-cases (find_xp_account u db)) [
    | inl missing ↦ ground (arith, missing)
    | inr (old, found) ↦ ground (
      arith,
      found,
      find_account-user u db.accounts found,
      find?-update_where (λ (a : XpAccount). a.user_id == u) (λ (a : XpAccount). a.user_id == u)
          (λ (a : XpAccount). record a {
            total_xp = a.total_xp + points;
            current_level = level_of curve (old.total_xp + points);
          })
          db.accounts (λ a. refl),
    )
  ]

  find_account-update_other :
      (u user : ℕ) (rows : List XpAccount)
      → (user == u) ≡ false
      → (f : XpAccount → XpAccount) → ((a : XpAccount) → (f a).user_id ≡ a.user_id)
      → find? (λ a. a.user_id == user) (update_where (λ a. a.user_id == u) f rows)
        ≡ find? (λ a. a.user_id == user) rows
  find_account-update_other u user [] other f keep = refl
  find_account-update_other u user (a ∷ rows) other f keep =
      ground (arith, keep a, find_account-update_other u user rows other f keep)

  credit-other :
      (u points user : ℕ) (db : XpDb)
      → (user == u) ≡ false
      → find_xp_account user (credit curve u points db) ≡ find_xp_account user db
  unfolding credit
  credit-other u points user db other = elim (Option-cases (find_xp_account u db)) [
    | inl missing ↦ ground (arith, missing)
    | inr (old, found) ↦ ground (
      arith,
      found,
      find_account-update_other u user db.accounts other
          (λ (a : XpAccount). record a {
            total_xp = a.total_xp + points;
            current_level = level_of curve (old.total_xp + points);
          })
          (λ a. refl),
    )
  ]

  credit-ledger : (u points : ℕ) (db : XpDb) → (credit curve u points db).ledger ≡ db.ledger
  unfolding credit
  credit-ledger u points db = ground arith

  credit-IsBalanced_own :
      (e : LedgerEntry) (db : XpDb)
      → IsBalanced curve e.user_id db
      → IsBalanced curve e.user_id
          (credit curve e.user_id e.points (record db { ledger = e ∷ db.ledger }))
  credit-IsBalanced_own e db h = ground (
    arith,
    credit-own e.user_id e.points (record db { ledger = e ∷ db.ledger }),
    ==_iff e.user_id e.user_id,
    credit-ledger e.user_id e.points (record db { ledger = e ∷ db.ledger }),
  )

  credit-IsBalanced :
      (e : LedgerEntry) (user : ℕ) (db : XpDb)
      → IsBalanced curve e.user_id db
      → IsBalanced curve user db
      → IsBalanced curve user
          (credit curve e.user_id e.points (record db { ledger = e ∷ db.ledger }))
  credit-IsBalanced e user db own h = elim (Bool-cases (user == e.user_id)) [
    | inl same ↦
        subst
          (λ u.
            IsBalanced curve u
              (credit curve e.user_id e.points (record db { ledger = e ∷ db.ledger })))
          (sym ((==_iff user e.user_id).0 same)) (credit-IsBalanced_own e db own)
    | inr other ↦ ground (
      arith,
      credit-other e.user_id e.points user (record db { ledger = e ∷ db.ledger }) other,
      credit-ledger e.user_id e.points (record db { ledger = e ∷ db.ledger }),
    )
  ]

  -- Every grant, granted, repeated or refused, keeps the account of a user in agreement with the
  -- ledger, if the accounts of that user and of the receiver of the grant agreed before.
  pub grant-IsBalanced :
      (i : GrantXpInput) (user : ℕ) (db : XpDb)
      → IsBalanced curve i.user_id db
      → IsBalanced curve user db
      → IsBalanced curve user (grant curve i db).1
  unfolding grant unlock_earned_rewards calculate_experience_level
  grant-IsBalanced i user db own h =
      grind (arith, λ (points : ℕ). credit-IsBalanced (entry_of i points) user db own h)

  -- A source grants once: after a grant that answered, the same source is answered as not granted,
  -- with no points, and nothing is written.
  grant_once :
      (i again : GrantXpInput) (db : XpDb)
      → Returns (grant curve i db).0 (λ r. Unit)
      → again.user_id ≡ i.user_id
      → again.source_type ≡ i.source_type
      → again.source_ref ≡ i.source_ref
      → Returns (grant curve again db).0 (λ r. Unit)
      → let after = (grant curve i db).1 in
        Returns (grant curve again after).0 (λ r. (r.granted ≡ false) × (r.points_granted ≡ 0))
        × ((grant curve again after).1 ≡ after)
  unfolding grant unlock_earned_rewards
  grant_once i again db h user type ref valid = ground (
    arith,
    ==_iff i.user_id i.user_id,
    ==_iff i.source_type i.source_type,
    ==_iff i.source_ref i.source_ref,
  )
