-- ===== src/Experience/Rewards.antt =====
-- The rewards that a grant unlocks (src/experience/experience-ledger.service.ts: unlockEarnedRewards).
use smartpig_backend.Common.{
  ℕ, ◌≤◌, ◌≡◌, inl, inr, true, ◌&&◌, some, List, [], ◌∷◌, leb, ◌==◌, arith, Option-cases, find?,
  filter, is_some, ok, ==_iff, find?-filter,
}
use smartpig_backend.Experience.{
  GrantXpInput, XpDb, Reward, RewardUnlock, GrantXpResult, find_reward_unlock, unlock_one,
  unlock_each, unlock_earned_rewards, credit, grant,
}

find_reward_unlock-unlock_one :
    (user reward : ℕ) (r : Reward) (unlocks : List RewardUnlock) {old : RewardUnlock}
    → find_reward_unlock user reward unlocks ≡ some old
    → find_reward_unlock user reward (unlock_one user r unlocks) ≡ some old
unfolding unlock_one
find_reward_unlock-unlock_one user reward r unlocks h = ground arith

find_reward_unlock-unlock_each :
    (user reward : ℕ) (rs : List Reward) (unlocks : List RewardUnlock) {old : RewardUnlock}
    → find_reward_unlock user reward unlocks ≡ some old
    → find_reward_unlock user reward (unlock_each user rs unlocks) ≡ some old
unfolding unlock_each
find_reward_unlock-unlock_each user reward [] unlocks h = h
find_reward_unlock-unlock_each user reward (r ∷ rs) unlocks h =
    find_reward_unlock-unlock_each user reward rs (unlock_one user r unlocks)
      (find_reward_unlock-unlock_one user reward r unlocks h)

-- The user has the reward.
abbrev pub HasReward : ℕ → Reward → List RewardUnlock → Type 0
HasReward user r unlocks = is_some (find_reward_unlock user r.id unlocks) ≡ true

unlock_one-HasReward :
    (user : ℕ) (r : Reward) (unlocks : List RewardUnlock)
    → HasReward user r (unlock_one user r unlocks)
unfolding unlock_one
unlock_one-HasReward user r unlocks = ground (arith, ==_iff user user, ==_iff r.id r.id)

HasReward-unlock_each :
    (user : ℕ) (reward : Reward) (rs : List Reward) (unlocks : List RewardUnlock)
    → HasReward user reward unlocks
    → HasReward user reward (unlock_each user rs unlocks)
HasReward-unlock_each user reward rs unlocks h =
    elim (Option-cases (find_reward_unlock user reward.id unlocks)) [
      | inl missing ↦ ground (arith, missing)
      | inr (old, found) ↦
          ground (arith, find_reward_unlock-unlock_each user reward.id rs unlocks found)
    ]

unlock_each-HasReward :
    (user id : ℕ) (rs : List Reward) (unlocks : List RewardUnlock) {reward : Reward}
    → find? (λ r. r.id == id) rs ≡ some reward
    → HasReward user reward (unlock_each user rs unlocks)
unfolding unlock_each
unlock_each-HasReward user id [] unlocks h = ground arith
unlock_each-HasReward user id (r ∷ rs) unlocks {reward} h = ground (
  arith,
  unlock_each-HasReward user id rs (unlock_one user r unlocks) {reward = reward},
  HasReward-unlock_each user r rs (unlock_one user r unlocks) (unlock_one-HasReward user r unlocks),
)

unlock_earned_rewards-HasReward :
    (user id level : ℕ) (db : XpDb) {reward : Reward}
    → find? (λ r. r.id == id) db.rewards ≡ some reward
    → reward.is_active ≡ true
    → reward.minimum_level ≤ level
    → HasReward user reward (unlock_earned_rewards user level db).unlocks
unfolding unlock_earned_rewards
unlock_earned_rewards-HasReward user id level db {reward} h active low =
    unlock_each-HasReward user id
      (filter (λ r. r.is_active && leb r.minimum_level level) db.rewards) db.unlocks
      (find?-filter (λ r. r.id == id) (λ r. r.is_active && leb r.minimum_level level) db.rewards h
        (ground arith))

module _ (curve : ℕ → ℕ) where
  credit-rewards : (u points : ℕ) (db : XpDb) → (credit curve u points db).rewards ≡ db.rewards
  unfolding credit
  credit-rewards u points db = ground arith

  -- After a grant that granted, the user has every active reward whose minimum level is at most the
  -- level of the answer.
  pub grant-HasReward :
      (i : GrantXpInput) (id : ℕ) (db : XpDb) {r : GrantXpResult} {reward : Reward}
      → (grant curve i db).0 ≡ ok r
      → r.granted ≡ true
      → find? (λ r. r.id == id) db.rewards ≡ some reward
      → reward.is_active ≡ true
      → reward.minimum_level ≤ r.profile.level
      → HasReward i.user_id reward (grant curve i db).1.unlocks
  unfolding grant
  grant-HasReward i id db {r} {reward} h granted found active low = grind (
    arith,
    credit-rewards,
    λ (x : XpDb) (e : find? (λ r. r.id == id) x.rewards ≡ some reward).
        unlock_earned_rewards-HasReward i.user_id id r.profile.level x e active low,
  )
