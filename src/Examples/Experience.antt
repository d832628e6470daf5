-- ===== src/Examples/Experience.antt =====
-- The laws of the XP ledger and the daily reward, on a small curve and a small ledger.
use smartpig_backend.Common.{
  ℕ, ◌*◌, ◌≡◌, refl, pos, true, [], ◌∷◌, ok, Returns, Fails, ltb, if◌then◌else◌,
}
use smartpig_backend.Experience.{
  GrantXpInput, GrantXpResult, Reward, XpDb, climb, level_of, calculate_experience_level, profile,
  credit, grant,
}
use smartpig_backend.Experience.Ledger.{IsBalanced, grant-IsBalanced}
use smartpig_backend.Experience.Daily.{claim_daily_reward, daily_reward_once}

-- Forty points for each level.
abbrev curve : ℕ → ℕ
curve level = 40 * level

abbrev reward : Reward
reward = record { id = 7; minimum_level = 1; is_active = true }

abbrev xp_db : XpDb
xp_db = record {
  ledger = record { user_id = 1; source_type = 0; source_ref = 5; points = 30 } ∷ [];
  accounts = record { user_id = 1; total_xp = 30; current_level = 0 } ∷ [];
  rewards = reward ∷ [];
  unlocks = [];
}

abbrev lesson : GrantXpInput
lesson = record { user_id = 1; source_type = 0; source_ref = 6; points = pos 20 }

balanced : IsBalanced curve 1 xp_db
unfolding level_of climb
balanced = (refl, refl)

grant-IsBalanced_example : IsBalanced curve 1 (grant curve lesson xp_db).1
grant-IsBalanced_example = grant-IsBalanced curve lesson 1 xp_db balanced balanced

-- A day of ten, from the epoch.
abbrev day_of : ℕ → ℕ
day_of now = if ltb now 10 then 0 else 1

abbrev midnight_after : ℕ → ℕ
midnight_after now = if ltb now 10 then 10 else 20

claimed : Returns (claim_daily_reward curve day_of midnight_after 3 1 (pos 3) xp_db).0 (λ r. Unit)
unfolding claim_daily_reward grant
claimed = tt

daily_reward_once_example :
    let after = (claim_daily_reward curve day_of midnight_after 3 1 (pos 3) xp_db).1 in
    Fails (claim_daily_reward curve day_of midnight_after 8 1 (pos 4) after).0
    × ((claim_daily_reward curve day_of midnight_after 8 1 (pos 4) after).1 ≡ after)
daily_reward_once_example =
    daily_reward_once curve day_of midnight_after 3 8 1 (pos 3) (pos 4) xp_db claimed refl

abbrev first_level : GrantXpResult
first_level = record {
  granted = true;
  points_granted = 20;
  profile = calculate_experience_level curve 50;
}

lesson_answer : (grant curve lesson xp_db).0 ≡ ok first_level
unfolding grant credit profile
lesson_answer = refl
