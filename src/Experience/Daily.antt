-- ===== src/Experience/Daily.antt =====
-- The daily reward (src/experience/experience.service.ts: claimDailyReward). The calendar of Sao Paulo
-- (Intl.DateTimeFormat) is a parameter.
use smartpig_backend.Common.{
  ℕ, ℤ, ◌≡◌, not, arith, http, ErrorKind, Exception, Action, pure, gets, throw_if, atomic, Returns,
  Fails, ==_iff, ◌>>=◌, ◌>>◌,
}
use smartpig_backend.Experience.{
  XpDb, GrantXpInput, ExperienceTier, profile, grant, unlock_earned_rewards,
}

abbrev already_claimed : Exception
already_claimed = http ErrorKind.conflict "DAILY_REWARD_ALREADY_CLAIMED"

-- `ExperienceXpSourceType.DAILY_ACTIVITY`
abbrev pub daily_source : ℕ
daily_source = 2

pub record DailyReward : Type 0 where
  pub xp_awarded : ℕ
  pub total_xp : ℕ
  pub level_before : ℕ
  pub level_after : ℕ
  pub tier_after : ExperienceTier
  pub next_available_at : ℕ

module _ (curve : ℕ → ℕ) (date_key next_midnight : ℕ → ℕ) where
  -- The reference of a claim is its date in Sao Paulo.
  abbrev pub daily_grant : ℕ → ℕ → ℤ → GrantXpInput
  daily_grant now user points = record {
    user_id = user;
    source_type = daily_source;
    source_ref = date_key now;
    points = points;
  }

  -- `claimDailyReward`, with `EXPERIENCE_DAILY_REWARD_XP` as the points.
  unfoldable pub claim_daily_reward : ℕ → ℕ → ℤ → Action XpDb DailyReward
  claim_daily_reward now user points = atomic (do
    before ← gets (profile curve user)
    r ← grant curve (daily_grant now user points)
    throw_if (not r.granted) already_claimed
    pure (record {
      xp_awarded = r.points_granted;
      total_xp = r.profile.total_xp;
      level_before = before.level;
      level_after = r.profile.level;
      tier_after = r.profile.tier;
      next_available_at = next_midnight now;
    }))

  -- After a claim that was answered, every later claim of the user on the same date throws and writes
  -- nothing, however many points a day is worth by then.
  pub daily_reward_once :
      (now later user : ℕ) (points later_points : ℤ) (db : XpDb)
      → Returns (claim_daily_reward now user points db).0 (λ r. Unit)
      → date_key later ≡ date_key now
      → let after = (claim_daily_reward now user points db).1 in
        Fails (claim_daily_reward later user later_points after).0
        × ((claim_daily_reward later user later_points after).1 ≡ after)
  unfolding claim_daily_reward grant unlock_earned_rewards
  daily_reward_once now later user points later_points db h same = ground (
    arith,
    ==_iff user user,
    ==_iff daily_source daily_source,
    ==_iff (date_key now) (date_key now),
  )
