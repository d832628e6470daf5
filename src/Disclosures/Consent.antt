-- ===== src/Disclosures/Consent.antt =====
-- What the disclosure service and its guard promise.
use smartpig_backend.Common.{
  ℕ, ◌+◌, ◌<◌, ◌≡◌, refl, true, false, not, Option, none, List, [], ◌∷◌, String, ok, Returns, arith,
  is_some, filter, ==_iff, ◌==◌,
}
use smartpig_backend.Environment.{Env}
use smartpig_backend.Schema.{Db}
use smartpig_backend.Schema.Vaults.{Disclosure, CachedDisclosure}
use smartpig_backend.VaultEligibility.{is_usdc}
use smartpig_backend.Disclosures.{
  find_published, find_cached, find_current, find_acknowledgment, has_acknowledged_current,
  acknowledge, invalidate, assert_acknowledged, current_version_cache_ttl_ms, get_current_or_throw,
}

-- Looking up a key that was just removed finds nothing.
find_cached-filter :
    (vault : ℕ) (cache : List CachedDisclosure)
    → find_cached vault (filter (λ o. not (o.vault_id == vault)) cache) ≡ none
find_cached-filter vault [] = refl
find_cached-filter vault (c ∷ cs) = ground (arith, find_cached-filter vault cs)

-- Publishing takes effect at once: after `invalidate`, the current disclosure of the vault is the
-- published one with the highest version, whatever the cache held.
pub find_current-invalidate :
    (now vault : ℕ) (db : Db)
    → (find_current now vault (invalidate vault db)).0 ≡ ok (find_published vault db)
unfolding find_current invalidate
find_current-invalidate now vault db = rw (find_cached-filter vault db.disclosure_cache)

-- The cache holds for a minute: a read less than a minute after one that missed the cache gives the
-- published disclosure as it was then, even if the disclosures changed in between.
pub find_current_stable :
    (now later vault : ℕ) (db : Db) (disclosures : List Disclosure)
    → find_cached vault db.disclosure_cache ≡ none
    → later < now + current_version_cache_ttl_ms
    → (find_current later vault
        (record (find_current now vault db).1 { disclosures = disclosures })).0
      ≡ ok (find_published vault db)
unfolding find_current
find_current_stable now later vault db disclosures miss within = ground (arith, ==_iff vault vault)

-- Acknowledging the current version satisfies the deposit guard: after `acknowledge` returned, the
-- guard lets the same user deposit into the same vault at the same instant, whatever the asset is
-- and whether or not the guard is enforced.
pub acknowledge-assert_acknowledged :
    (env : Env) (user vault : ℕ) (symbol : String) (expected : Option ℕ) (db : Db)
    → Returns (acknowledge env.now user vault expected db).0 (λ row. Unit)
    → (assert_acknowledged env user vault symbol (acknowledge env.now user vault expected db).1).0
      ≡ ok tt
unfolding acknowledge assert_acknowledged has_acknowledged_current get_current_or_throw find_current
acknowledge-assert_acknowledged env user vault symbol expected db h =
    ground (arith, ==_iff user user, ==_iff vault vault)

-- While it is enforced, the guard lets a deposit into another asset than USDC through only if the
-- user acknowledged the version of the disclosure that the service takes as current.
guard_sound :
    (env : Env) (user vault : ℕ) (symbol : String) (db : Db)
    → env.enforce_vault_disclosure ≡ true
    → is_usdc symbol ≡ false
    → (assert_acknowledged env user vault symbol db).0 ≡ ok tt
    → Returns
        (get_current_or_throw env.now vault db).0
        (λ d. is_some (find_acknowledgment user vault d.version db) ≡ true)
unfolding assert_acknowledged has_acknowledged_current get_current_or_throw find_current
guard_sound env user vault symbol db on other h = ground arith
