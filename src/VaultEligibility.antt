-- ===== src/VaultEligibility.antt =====
-- The education gate of deposits (src/vault-eligibility/vault-eligibility.service.ts).
pub mod Qualification
pub mod Policies
pub mod Publication
pub mod Activity
use smartpig_backend.Common.{
  ℕ, Bool, true, false, ◌&&◌, not, Option, none, some, List, [], ◌∷◌, String, map, ◌==◌, leb, ltb,
  length, if◌then◌else◌, find?, find_latest, filter, includes, any?, is_some, get_or_else, codes,
  same_text, to_upper_case, http, ErrorKind, Exception, Action, pure, gets, modify, or_throw,
  throw_if, ◌>>=◌, ◌>>◌,
}
use smartpig_backend.Environment.{Env}
use smartpig_backend.Schema.{Db}
use smartpig_backend.Schema.Vaults.{
  ExperienceMode, User, Policy, RequiredModule, Unlock, Account, ModuleProgress,
}

pub data Source : Type 0 where
  pro_bypass usdc_open persisted_unlock policy : Source

pub record VaultEligibilityResult : Type 0 where
  pub eligible : Bool
  pub mode : ExperienceMode
  pub source : Source
  pub vault_id : ℕ
  pub asset_symbol : List ℕ
  pub newly_unlocked : Option Bool
  pub current_level : Option ℕ
  pub minimum_level : Option ℕ
  pub missing_modules : Option (List String)
  pub policy_version : Option ℕ

abbrev pub user_not_found : Exception
user_not_found = http ErrorKind.not_found "User not found"

abbrev pub education_locked : Exception
education_locked = http ErrorKind.conflict "VAULT_EDUCATION_LOCKED"

abbrev pub find_user : ℕ → Db → Option User
find_user id db = find? (λ u. u.id == id) db.users

-- `user.experienceMode ?? 'PRO'`
abbrev pub mode_of : User → ExperienceMode
mode_of u = get_or_else u.experience_mode ExperienceMode.pro

unfoldable pub is_usdc : String → Bool
unfolding to_upper_case same_text
is_usdc symbol = same_text (to_upper_case symbol) (codes "USDC")

abbrev pub find_unlock : ℕ → ℕ → Db → Option Unlock
find_unlock user vault db = find? (λ r. r.user_id == user && r.vault_id == vault) db.unlocks

-- The active published policy of the vault with the highest version.
abbrev pub find_policy : ℕ → Db → Option Policy
find_policy vault db =
    find_latest (λ p. p.vault_id == vault && p.is_active && is_some p.published_at) (λ p. p.version)
      db.policies

abbrev pub find_account : ℕ → Db → Option Account
find_account user db = find? (λ a. a.user_id == user) db.accounts

abbrev pub current_level_of : ℕ → Db → ℕ
current_level_of user db = elim (find_account user db) [ none ↦ 0 | some a ↦ a.current_level ]

abbrev pub has_completed : ℕ → Db → ℕ → Bool
has_completed user db m =
    any? (λ r. r.user_id == user && r.module_id == m && is_some r.completed_at) db.progress

abbrev pub missing_of : ℕ → Policy → Db → List String
missing_of user p db =
    map (λ (r : RequiredModule). r.key)
      (filter (λ r. not (has_completed user db r.module_id)) p.required_modules)

abbrev pub is_nil {ℓ} : {A : Type ℓ} → List A → Bool
is_nil [] = true
is_nil (x ∷ xs) = false

-- `currentLevel >= policy.minimumLevel && missingModules.length === 0`
unfoldable pub satisfies : ℕ → Policy → Db → Bool
satisfies user p db =
    leb p.minimum_level (current_level_of user db) && is_nil (missing_of user p db)

-- `userVaultUnlock.upsert` with an empty update.
unfoldable pub upsert_unlock : Unlock → Db → Db
upsert_unlock r db = elim (find_unlock r.user_id r.vault_id db) [
  | none ↦ record db { unlocks = r ∷ db.unlocks }
  | some old ↦ db
]

-- The part of `evaluate` after the policy was found.
apply_policy : ℕ → ℕ → String → Bool → Policy → Action Db VaultEligibilityResult
unfolding satisfies
apply_policy user vault symbol persist_unlock p = do
  level ← gets (current_level_of user)
  missing ← gets (missing_of user p)
  eligible ← gets (satisfies user p)
  modify (
      if eligible && persist_unlock
      then upsert_unlock (record {
        user_id = user;
        vault_id = vault;
        policy_id = p.id;
        policy_version = p.version;
        level_at_unlock = level;
      })
      else λ db. db)
  pure (record {
    eligible = eligible;
    mode = ExperienceMode.lite;
    source = Source.policy;
    vault_id = vault;
    asset_symbol = to_upper_case symbol;
    newly_unlocked = some (eligible && persist_unlock);
    current_level = some level;
    minimum_level = some p.minimum_level;
    missing_modules = some missing;
    policy_version = some p.version;
  })

-- Lite fails closed: without a published policy the vault stays locked.
by_policy : ℕ → ℕ → String → Bool → Option Policy → Action Db VaultEligibilityResult
unfolding apply_policy
by_policy user vault symbol persist_unlock none = pure (record {
  eligible = false;
  mode = ExperienceMode.lite;
  source = Source.policy;
  vault_id = vault;
  asset_symbol = to_upper_case symbol;
  newly_unlocked = none;
  current_level = some 0;
  minimum_level = none;
  missing_modules = some [];
  policy_version = none;
})
by_policy user vault symbol persist_unlock (some p) =
    apply_policy user vault symbol persist_unlock p

by_unlock : ℕ → ℕ → String → Bool → Option Unlock → Action Db VaultEligibilityResult
unfolding by_policy
by_unlock user vault symbol persist_unlock (some r) = pure (record {
  eligible = true;
  mode = ExperienceMode.lite;
  source = Source.persisted_unlock;
  vault_id = vault;
  asset_symbol = to_upper_case symbol;
  newly_unlocked = none;
  current_level = some r.level_at_unlock;
  minimum_level = none;
  missing_modules = none;
  policy_version = some r.policy_version;
})
by_unlock user vault symbol persist_unlock none = do
  p ← gets (find_policy vault)
  by_policy user vault symbol persist_unlock p

open_result : ExperienceMode → Source → ℕ → List ℕ → VaultEligibilityResult
open_result m s vault symbol = record {
  eligible = true;
  mode = m;
  source = s;
  vault_id = vault;
  asset_symbol = symbol;
  newly_unlocked = none;
  current_level = none;
  minimum_level = none;
  missing_modules = none;
  policy_version = none;
}

by_mode : ℕ → ℕ → String → Bool → ExperienceMode → Action Db VaultEligibilityResult
unfolding by_unlock open_result
by_mode user vault symbol persist_unlock ExperienceMode.pro =
    pure (open_result ExperienceMode.pro Source.pro_bypass vault (to_upper_case symbol))
by_mode user vault symbol persist_unlock ExperienceMode.lite =
    if is_usdc symbol
    then pure (open_result ExperienceMode.lite Source.usdc_open vault (codes "USDC"))
    else (do r ← gets (find_unlock user vault); by_unlock user vault symbol persist_unlock r)

unfoldable pub evaluate : ℕ → ℕ → String → Bool → Action Db VaultEligibilityResult
unfolding by_mode
evaluate user vault symbol persist_unlock = do
  row ← or_throw (← gets (find_user user)) user_not_found
  by_mode user vault symbol persist_unlock (mode_of row)

unfoldable pub assert_eligible_for_deposit : Env → ℕ → ℕ → String → Action Db VaultEligibilityResult
assert_eligible_for_deposit env user vault symbol = do
  result ← evaluate user vault symbol true
  throw_if (not result.eligible && env.enforce_vault_education) education_locked
  pure result

unfoldable pub get_eligibility : ℕ → ℕ → String → Action Db VaultEligibilityResult
get_eligibility user vault symbol = evaluate user vault symbol false
