-- ===== src/Experience.antt =====
-- The level curve and the XP ledger (src/experience/experience-level.ts,
-- src/experience/experience-ledger.service.ts).
pub mod Curve
pub mod Daily
pub mod Ledger
pub mod Rewards
use smartpig_backend.Common.{
  ℕ, zero, suc, ◌+◌, ◌-◌, ℤ, pos, negsuc, Bool, true, false, ◌&&◌, Option, none, some, List, [],
  ◌∷◌, String, ◌==◌, leb, ltb, if◌then◌else◌, find?, filter, any?, update_where, http, ErrorKind,
  Exception, Action, pure, throw, gets, modify, ◌>>=◌, ◌>>◌,
}

abbrev pub max_user_level : ℕ
max_user_level = 50

pub data ExperienceTier : Type 0 where
  unranked beginner consistent dedicated veteran : ExperienceTier

pub record ExperienceLevel : Type 0 where
  pub level : ℕ
  pub tier : ExperienceTier
  pub total_xp : ℕ
  pub current_level_xp : ℕ
  pub next_level_xp : Option ℕ
  pub xp_into_level : ℕ
  pub xp_to_next_level : Option ℕ

unfoldable pub tier_for_level : ℕ → ExperienceTier
tier_for_level level =
    if ltb level 1
    then ExperienceTier.unranked
    else if leb level 10
    then ExperienceTier.beginner
    else if leb level 25
    then ExperienceTier.consistent
    else if leb level 40
    then ExperienceTier.dedicated
    else ExperienceTier.veteran

-- The source of a grant is its type and its reference, which are only compared.
pub record GrantXpInput : Type 0 where
  pub user_id : ℕ
  pub source_type : ℕ
  pub source_ref : ℕ
  pub points : ℤ

pub record LedgerEntry : Type 0 where
  pub user_id : ℕ
  pub source_type : ℕ
  pub source_ref : ℕ
  pub points : ℕ

pub record XpAccount : Type 0 where
  pub user_id : ℕ
  pub total_xp : ℕ
  pub current_level : ℕ

pub record Reward : Type 0 where
  pub id : ℕ
  pub minimum_level : ℕ
  pub is_active : Bool

pub record RewardUnlock : Type 0 where
  pub user_id : ℕ
  pub reward_id : ℕ
  pub source_level : ℕ

pub record XpDb : Type 0 where
  pub ledger : List LedgerEntry
  pub accounts : List XpAccount
  pub rewards : List Reward
  pub unlocks : List RewardUnlock

pub record GrantXpResult : Type 0 where
  pub granted : Bool
  pub points_granted : ℕ
  pub profile : ExperienceLevel

abbrev pub find_xp_account : ℕ → XpDb → Option XpAccount
find_xp_account user db = find? (λ a. a.user_id == user) db.accounts

abbrev pub find_reward_unlock : ℕ → ℕ → List RewardUnlock → Option RewardUnlock
find_reward_unlock user reward unlocks =
    find? (λ u. u.user_id == user && u.reward_id == reward) unlocks

abbrev pub same_source : GrantXpInput → LedgerEntry → Bool
same_source i e =
    e.user_id == i.user_id && e.source_type == i.source_type && e.source_ref == i.source_ref

abbrev pub bad_points : Exception
bad_points = http ErrorKind.plain "XP grant points must be a positive integer"

-- `userExperienceRewardUnlock.upsert` with an empty update.
unfoldable pub unlock_one : ℕ → Reward → List RewardUnlock → List RewardUnlock
unlock_one user r unlocks = elim (find_reward_unlock user r.id unlocks) [
  | none ↦ record { user_id = user; reward_id = r.id; source_level = r.minimum_level } ∷ unlocks
  | some old ↦ unlocks
]

unfoldable pub unlock_each : ℕ → List Reward → List RewardUnlock → List RewardUnlock
unlock_each user [] unlocks = unlocks
unlock_each user (r ∷ rs) unlocks = unlock_each user rs (unlock_one user r unlocks)

unfoldable pub unlock_earned_rewards : ℕ → ℕ → XpDb → XpDb
unlock_earned_rewards user level db = record db {
  unlocks =
      unlock_each user (filter (λ r. r.is_active && leb r.minimum_level level) db.rewards)
        db.unlocks;
}

-- `Math.round(40 * level ** 1.8)`, the floating-point curve of `xpRequiredForLevel`, is a parameter;
-- its range check holds for every level that it is called with here.
module _ (curve : ℕ → ℕ) where
  -- The loop of `calculateExperienceLevel` with so many candidates left, and the level so far.
  unfoldable pub climb : ℕ → ℕ → ℕ → ℕ
  climb zero xp level = level
  climb (suc n) xp level =
      let rest = climb n xp (level + 1) in if ltb xp (curve (level + 1)) then level else rest

  unfoldable pub level_of : ℕ → ℕ
  unfolding climb
  level_of xp = climb max_user_level xp 0

  -- The XP of an account is a whole number that is not negative.
  unfoldable pub calculate_experience_level : ℕ → ExperienceLevel
  calculate_experience_level xp =
      let level = level_of xp in
      let current = if level == 0 then 0 else curve level in
      record {
        level = level;
        tier = tier_for_level level;
        total_xp = xp;
        current_level_xp = current;
        next_level_xp = if level == max_user_level then none else some (curve (level + 1));
        xp_into_level = xp - current;
        xp_to_next_level = if level == max_user_level then none else some (curve (level + 1) - xp);
      }

  unfoldable pub profile : ℕ → XpDb → ExperienceLevel
  profile user db =
      calculate_experience_level (elim (find_xp_account user db) [ none ↦ 0 | some a ↦ a.total_xp ])

  -- The upsert of the account and the update of its level.
  unfoldable pub credit : ℕ → ℕ → XpDb → XpDb
  credit user points db = elim (find_xp_account user db) [
    | none ↦ record db {
      accounts =
          record { user_id = user; total_xp = points; current_level = level_of points }
          ∷ db.accounts;
    }
    | some old ↦ record db {
      accounts =
          update_where (λ a. a.user_id == user)
            (λ a. record a {
              total_xp = a.total_xp + points;
              current_level = level_of (old.total_xp + points);
            })
            db.accounts;
    }
  ]

  grant_points : GrantXpInput → ℕ → Action XpDb GrantXpResult
  unfolding credit profile
  grant_points i points db =
      if any? (same_source i) db.ledger
      then (pure (record { granted = false; points_granted = 0; profile = profile i.user_id db })
          db)
      else (let entry : LedgerEntry = record {
        user_id = i.user_id;
        source_type = i.source_type;
        source_ref = i.source_ref;
        points = points;
      } in
          let credited = credit i.user_id points (record db { ledger = entry ∷ db.ledger }) in
          let after = profile i.user_id credited in
          pure (record { granted = true; points_granted = points; profile = after })
            (unlock_earned_rewards i.user_id after.level credited))

  -- The grant of a source that the ledger has is answered without one.
  unfoldable pub grant : GrantXpInput → Action XpDb GrantXpResult
  unfolding grant_points
  grant i db = elim i.points [
    | negsuc n ↦ throw bad_points db
    | pos zero ↦ throw bad_points db
    | pos (suc n) ↦ grant_points i (suc n) db
  ]
