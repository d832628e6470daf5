-- ===== src/Schema/Vaults.antt =====
-- prisma/schema.prisma: users, wallets, the vault catalog, eligibility policies and disclosures.
use smartpig_backend.Common.{ℕ, ℤ, Bool, List, Option, String}

pub data ExperienceMode : Type 0 where
  lite pro : ExperienceMode

pub record User : Type 0 where
  pub id : ℕ
  pub experience_mode : Option ExperienceMode

pub record WalletAccount : Type 0 where
  pub id : ℕ
  pub user_id : ℕ
  pub stellar_address : String
  pub is_active : Bool
  pub is_activated : Bool

pub record Vault : Type 0 where
  pub id : ℕ
  pub defindex_vault_id : String
  pub asset_symbol : String
  pub asset_decimals : ℤ
  pub is_active : Bool
  pub deposits_enabled : Bool
  pub display_order : ℕ

-- `LearningModule`, as the policies read it.
pub record LearningModule : Type 0 where
  pub id : ℕ
  pub key : String
  pub is_published : Bool

-- A row of `VaultEligibilityRequiredModule`, with the key of its module.
pub record RequiredModule : Type 0 where
  pub module_id : ℕ
  pub key : String

pub record Policy : Type 0 where
  pub id : ℕ
  pub vault_id : ℕ
  pub version : ℕ
  pub minimum_level : ℕ
  pub is_active : Bool
  pub published_at : Option ℕ
  pub required_modules : List RequiredModule

-- `UserVaultUnlock`
pub record Unlock : Type 0 where
  pub user_id : ℕ
  pub vault_id : ℕ
  pub policy_id : ℕ
  pub policy_version : ℕ
  pub level_at_unlock : ℕ

-- `ExperienceAccount`
pub record Account : Type 0 where
  pub user_id : ℕ
  pub current_level : ℕ

-- `UserLearningModuleProgress`
pub record ModuleProgress : Type 0 where
  pub user_id : ℕ
  pub module_id : ℕ
  pub completed_at : Option ℕ

-- `VaultDisclosure`; the JSON of the risks is opaque.
pub record Disclosure : Type 0 where
  pub id : ℕ
  pub vault_id : ℕ
  pub version : ℕ
  pub risks : String
  pub published_at : Option ℕ

-- `VaultDisclosureAcknowledgment`
pub record Acknowledgment : Type 0 where
  pub user_id : ℕ
  pub vault_id : ℕ
  pub disclosure_id : ℕ
  pub version : ℕ
  pub acknowledged_at : ℕ

-- An entry of the map `currentCache`.
pub record CachedDisclosure : Type 0 where
  pub vault_id : ℕ
  pub value : Option Disclosure
  pub expires_at : ℕ
