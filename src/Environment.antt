-- ===== src/Environment.antt =====
-- What a request reads besides the tables: the configuration (src/config) and the clock.
use smartpig_backend.Common.{ℕ, Bool, List}

-- `ALLOWED_VAULT_IDS` as `readAllowedVaultIds` parses it, and the two rollout switches. `now` is the
-- instant of the request: one request reads the clock several times within a few milliseconds.
pub record Env : Type 0 where
  pub now : ℕ
  pub allowed_vault_ids : List ℕ
  pub enforce_vault_education : Bool
  pub enforce_vault_disclosure : Bool
  -- `CONVERSION_MODE` is `DISABLED`.
  pub conversions_disabled : Bool
