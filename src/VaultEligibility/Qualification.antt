-- ===== src/VaultEligibility/Qualification.antt =====
-- What the education gate promises: who is eligible, and that an unlock is never lost.
use smartpig_backend.Common.{
  ℕ, ◌≡◌, ◌⊎◌, ◌↔◌, Bool, true, false, none, some, List, String, err, Returns, arith, is_some,
  ==_iff,
}
use smartpig_backend.Environment.{Env}
use smartpig_backend.Schema.{Db}
use smartpig_backend.Schema.Vaults.{ExperienceMode, User, Policy, Unlock, Account, ModuleProgress}
use smartpig_backend.VaultEligibility.{
  find_user, mode_of, is_usdc, find_unlock, find_policy, satisfies, upsert_unlock, evaluate,
  assert_eligible_for_deposit, get_eligibility, education_locked,
}

-- Whether the vault has a published policy that the user satisfies.
abbrev pub meets_policy : ℕ → ℕ → Db → Bool
meets_policy user vault db = elim (find_policy vault db) [
  | none ↦ false
  | some p ↦ satisfies user p db
]

-- Who may deposit: PRO users, everybody into USDC, whoever unlocked the vault before, and whoever
-- meets its published policy.
abbrev pub Qualifies : User → ℕ → String → Db → Type 0
Qualifies u vault symbol db =
    (mode_of u ≡ ExperienceMode.pro)
    ⊎ (is_usdc symbol ≡ true)
    ⊎ (is_some (find_unlock u.id vault db) ≡ true)
    ⊎ (meets_policy u.id vault db ≡ true)

-- For a user that exists the gate answers, and its answer is eligible exactly when the user
-- qualifies.
pub evaluate_iff :
    (u : User) (vault : ℕ) (symbol : String) (persist : Bool) (db : Db)
    → find_user u.id db ≡ some u
    → Returns
        (evaluate u.id vault symbol persist db).0
        (λ r. (r.eligible ≡ true) ↔ Qualifies u vault symbol db)
unfolding evaluate
evaluate_iff u vault symbol persist db h = ground arith

-- Merely viewing a vault changes no table.
pub get_eligibility-read_only :
    (user vault : ℕ) (symbol : String) (db : Db) → (get_eligibility user vault symbol db).1 ≡ db
unfolding get_eligibility evaluate
get_eligibility-read_only user vault symbol db = ground arith

-- An unlock is never lost: once the deposit check found a user eligible, the same user stays
-- eligible for that vault after any later change of the policies, the levels and the progress.
pub unlock_permanent :
    (u : User) (vault : ℕ) (symbol : String) (db : Db) (policies : List Policy)
    (accounts : List Account) (progress : List ModuleProgress)
    → find_user u.id db ≡ some u
    → Returns (evaluate u.id vault symbol true db).0 (λ r. r.eligible ≡ true)
    → let after = (evaluate u.id vault symbol true db).1 in
      Returns
        (get_eligibility u.id vault symbol
          (record after { policies = policies; accounts = accounts; progress = progress })).0
        (λ r. r.eligible ≡ true)
unfolding evaluate get_eligibility upsert_unlock
unlock_permanent u vault symbol db policies accounts progress h e =
    ground (arith, ==_iff u.id u.id, ==_iff vault vault)

-- The evidence of the first acquisition is not rewritten: an unlock row that exists is the one
-- that is found after any evaluation for the same user and vault.
pub first_unlock_kept :
    (user vault : ℕ) (symbol : String) (persist : Bool) (db : Db) {old : Unlock}
    → find_unlock user vault db ≡ some old
    → find_unlock user vault (evaluate user vault symbol persist db).1 ≡ some old
unfolding evaluate upsert_unlock
first_unlock_kept user vault symbol persist db h = ground arith

-- For a user that exists, the deposit check refuses with VAULT_EDUCATION_LOCKED exactly when
-- education is enforced and the user does not qualify.
education_gate :
    (env : Env) (u : User) (vault : ℕ) (symbol : String) (db : Db)
    → find_user u.id db ≡ some u
    → ((assert_eligible_for_deposit env u.id vault symbol db).0 ≡ err education_locked)
      ↔ ((env.enforce_vault_education ≡ true) × ¬ Qualifies u vault symbol db)
unfolding assert_eligible_for_deposit evaluate
education_gate env u vault symbol db h = (λ e. ground arith, λ e. ground arith)
