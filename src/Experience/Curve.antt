-- ===== src/Experience/Curve.antt =====
-- What the level of an XP total is (src/experience/experience-level.ts).
use smartpig_backend.Common.{ℕ, zero, suc, ◌+◌, ◌-◌, ◌≤◌, ◌<◌, ◌↔◌, arith}
use smartpig_backend.Experience.{max_user_level, climb, level_of}

-- The threshold of each level is above that of the level before it.
abbrev pub IsIncreasing : (ℕ → ℕ) → Type 0
IsIncreasing curve = (level : ℕ) → level < max_user_level → curve level < curve (level + 1)

module _ (curve : ℕ → ℕ) where
  -- The loop ends at the first candidate that the total does not reach.
  abbrev Reached : ℕ → ℕ → ℕ → ℕ → Type 0
  Reached n xp start level =
      (start ≤ level)
      × (level ≤ start + n)
      × (start < level → curve level ≤ xp)
      × (level < start + n → xp < curve (level + 1))

  climb-Reached : (n xp start : ℕ) → Reached n xp start (climb curve n xp start)
  unfolding climb
  climb-Reached zero xp start =
      (omega arith, omega arith, λ h. absurd (omega (arith, h)), λ h. absurd (omega (arith, h)))
  climb-Reached (suc n) xp start =
      let (low, high, below, above) = climb-Reached n xp (start + 1) in
      ground (arith, low, high, below, above)

  -- The level of a total is at most fifty; its own threshold is reached, unless it is level zero, and
  -- the next threshold is not, unless it is level fifty.
  pub level_of-Reached : (xp : ℕ) → Reached max_user_level xp 0 (level_of curve xp)
  unfolding level_of
  level_of-Reached xp = climb-Reached max_user_level xp 0

  climb_mono : (n xp more start : ℕ) → xp ≤ more → climb curve n xp start ≤ climb curve n more start
  unfolding climb
  climb_mono zero xp more start h = omega arith
  climb_mono (suc n) xp more start h =
      ground (arith, climb_mono n xp more (start + 1) h, (climb-Reached n more (start + 1)).0)

  -- More XP is never a lower level.
  pub level_of_mono : (xp more : ℕ) → xp ≤ more → level_of curve xp ≤ level_of curve more
  unfolding level_of
  level_of_mono xp more h = climb_mono max_user_level xp more 0 h

  curve_mono :
      IsIncreasing curve
      → (gap low : ℕ) → low + gap ≤ max_user_level
      → curve low ≤ curve (low + gap)
  curve_mono up zero low h = ground arith
  curve_mono up (suc gap) low h =
      let rest = curve_mono up gap low (omega (arith, h)) in
      let step = up (low + gap) (omega (arith, h)) in ground (arith, rest, step)

  -- On an increasing curve, a level from one to fifty is attained exactly by the totals that reach
  -- its threshold.
  pub level_of_iff :
      IsIncreasing curve
      → (level xp : ℕ) → 1 ≤ level
      → level ≤ max_user_level
      → (level ≤ level_of curve xp) ↔ (curve level ≤ xp)
  level_of_iff up level xp low high =
      let (zero_low, at_most, below, above) = level_of-Reached xp in
      let attained = level_of curve xp in
      (
        λ h.
            let gap = attained - level in
            let rise = curve_mono up gap level (omega (arith, h, at_most)) in
            ground (arith, rise, below),
        λ h.
            let gap = level - (attained + 1) in
            let rise = curve_mono up gap (attained + 1) in ground (arith, rise, above),
      )
