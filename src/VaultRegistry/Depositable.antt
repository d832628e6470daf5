-- ===== src/VaultRegistry/Depositable.antt =====
-- What the vault registry promises the deposit path.
use smartpig_backend.Common.{ℕ, ◌≡◌, ◌↔◌, true, false, some, ok, err, Returns, arith}
use smartpig_backend.Environment.{Env}
use smartpig_backend.Schema.{Db}
use smartpig_backend.Schema.Vaults.{Vault}
use smartpig_backend.VaultRegistry.{
  find_vault, is_allowed, vault_deposits_paused, assert_depositable, assert_withdrawable,
}

-- A vault takes a deposit exactly when the allowlist admits it, it is in the catalog, it is active
-- and its deposits are enabled. The answer is then its catalog row, and no table changes.
pub assert_depositable_iff :
    (env : Env) (id : ℕ) (db : Db) (v : Vault)
    → (assert_depositable env id db ≡ (ok v, db)) ↔ (
        (is_allowed env.allowed_vault_ids id ≡ true)
        × (find_vault id db ≡ some v)
        × (v.is_active ≡ true)
        × (v.deposits_enabled ≡ true))
unfolding assert_depositable
assert_depositable_iff env id db v = (λ h. ground arith, λ h. ground arith)

-- Pausing deposits never stops a withdrawal: where a deposit is refused as paused, the same vault
-- resolves for a withdrawal, whatever the allowlist says, and its row has deposits disabled.
pub paused-withdrawable :
    (env : Env) (id : ℕ) (db : Db)
    → assert_depositable env id db ≡ (err vault_deposits_paused, db)
    → Returns (assert_withdrawable id db).0 (λ v. v.deposits_enabled ≡ false)
unfolding assert_depositable assert_withdrawable
paused-withdrawable env id db h = ground arith
