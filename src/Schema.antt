-- ===== src/Schema.antt =====
-- The tables of prisma/schema.prisma that the vault, deposit and withdrawal services read and
-- write, as lists of rows. Identifiers and idempotency keys are only compared, so they are
-- numbers; instants are milliseconds; columns that no modelled operation reads are left out.
pub mod Intents
pub mod Vaults
use smartpig_backend.Common.{ℕ, Bool, List, Option, String, ◌+◌, ◌==◌}
use Vaults.{
  User, WalletAccount, Vault, LearningModule, Policy, Unlock, Account, ModuleProgress, Disclosure,
  Acknowledgment, CachedDisclosure,
}
use Intents.{DepositIntent, WithdrawalIntent, TransactionRecord, AssetConversion, WalletTrustline}

-- The database and the in-memory cache of `DisclosureService`.
pub record Db : Type 0 where
  pub users : List User
  pub wallets : List WalletAccount
  pub vaults : List Vault
  pub modules : List LearningModule
  pub policies : List Policy
  pub unlocks : List Unlock
  pub accounts : List Account
  pub progress : List ModuleProgress
  pub disclosures : List Disclosure
  pub acknowledgments : List Acknowledgment
  pub disclosure_cache : List CachedDisclosure
  pub deposits : List DepositIntent
  pub withdrawals : List WithdrawalIntent
  pub transactions : List TransactionRecord
  pub conversions : List AssetConversion
  pub trustlines : List WalletTrustline
  -- The next fresh identifier, `cuid()`.
  pub next_id : ℕ
