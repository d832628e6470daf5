-- ===== src/VaultRegistry.antt =====
-- Which vault takes a deposit (src/vault-registry/vault-registry.service.ts).
pub mod Depositable
use smartpig_backend.Common.{
  ℕ, Bool, true, false, ◌&&◌, ◌||◌, not, Option, none, some, List, [], ◌∷◌, ◌==◌, find?, includes,
  http, ErrorKind, Exception, Action, pure, gets, or_throw, throw_if, ◌>>=◌, ◌>>◌,
}
use smartpig_backend.Environment.{Env}
use smartpig_backend.Schema.{Db}
use smartpig_backend.Schema.Vaults.{Vault}

abbrev pub vault_not_found : Exception
vault_not_found = http ErrorKind.not_found "Vault not found"

abbrev pub vault_deposits_paused : Exception
vault_deposits_paused = http ErrorKind.conflict "Vault is not accepting deposits right now"

-- `vaultCatalog.findUnique({ where: { id } })`
abbrev pub find_vault : ℕ → Db → Option Vault
find_vault id db = find? (λ v. v.id == id) db.vaults

-- An empty allowlist allows every vault.
abbrev pub is_allowed : List ℕ → ℕ → Bool
is_allowed [] id = true
is_allowed (a ∷ rest) id = includes id (a ∷ rest)

unfoldable pub assert_depositable : Env → ℕ → Action Db Vault
assert_depositable env id = do
  throw_if (not (is_allowed env.allowed_vault_ids id)) vault_not_found
  vault ← or_throw (← gets (find_vault id)) vault_not_found
  throw_if (not vault.is_active) vault_not_found
  throw_if (not vault.deposits_enabled) vault_deposits_paused
  pure vault

unfoldable pub assert_withdrawable : ℕ → Action Db Vault
assert_withdrawable id = do or_throw (← gets (find_vault id)) vault_not_found
