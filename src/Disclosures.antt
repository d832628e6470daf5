-- ===== src/Disclosures.antt =====
-- Risk disclosures and their acknowledgment (src/vault-registry/disclosure.service.ts), and the
-- guard on the deposit path (src/vault-registry/disclosure.guard.service.ts). The service keeps the
-- current disclosure of each vault in memory for a minute.
pub mod Consent
use smartpig_backend.Common.{
  ℕ, ◌+◌, Bool, true, false, ◌&&◌, not, Option, none, some, List, [], ◌∷◌, String, ◌==◌, ltb,
  if◌then◌else◌, find?, find_latest, filter, is_some, http, ErrorKind, Exception, Action, pure,
  throw, gets, modify, or_throw, throw_if, ◌>>=◌, ◌>>◌,
}
use smartpig_backend.Environment.{Env}
use smartpig_backend.Schema.{Db}
use smartpig_backend.Schema.Vaults.{Disclosure, Acknowledgment, CachedDisclosure}
use smartpig_backend.VaultEligibility.{is_usdc}

-- `CURRENT_VERSION_CACHE_TTL_MS`
abbrev pub current_version_cache_ttl_ms : ℕ
current_version_cache_ttl_ms = 60000

abbrev pub disclosure_missing : Exception
disclosure_missing = http ErrorKind.conflict "VAULT_DISCLOSURE_MISSING"

abbrev pub version_stale : Exception
version_stale = http ErrorKind.conflict "DISCLOSURE_VERSION_STALE"

abbrev pub not_acknowledged : Exception
not_acknowledged = http ErrorKind.conflict "DISCLOSURE_NOT_ACKNOWLEDGED"

-- The published disclosure with the highest version.
abbrev pub find_published : ℕ → Db → Option Disclosure
find_published vault db =
    find_latest (λ d. d.vault_id == vault && is_some d.published_at) (λ d. d.version) db.disclosures

abbrev pub find_cached : ℕ → List CachedDisclosure → Option CachedDisclosure
find_cached vault cache = find? (λ c. c.vault_id == vault) cache

-- `currentCache.set`
unfoldable pub cache_put : CachedDisclosure → Db → Db
cache_put c db = record db {
  disclosure_cache = c ∷ filter (λ o. not (o.vault_id == c.vault_id)) db.disclosure_cache;
}

read_through : ℕ → ℕ → Action Db (Option Disclosure)
unfolding cache_put
read_through now vault = do
  value ← gets (find_published vault)
  modify (
      cache_put (record {
        vault_id = vault;
        value = value;
        expires_at = now + current_version_cache_ttl_ms;
      }))
  pure value

from_cache : ℕ → ℕ → Option CachedDisclosure → Action Db (Option Disclosure)
unfolding read_through
from_cache now vault none = read_through now vault
from_cache now vault (some c) =
    if ltb now c.expires_at then pure c.value else read_through now vault

unfoldable pub find_current : ℕ → ℕ → Action Db (Option Disclosure)
unfolding from_cache
find_current now vault = do
  cached ← gets (λ db. find_cached vault db.disclosure_cache)
  from_cache now vault cached

unfoldable pub get_current_or_throw : ℕ → ℕ → Action Db Disclosure
get_current_or_throw now vault = do or_throw (← find_current now vault) disclosure_missing

abbrev pub find_acknowledgment : ℕ → ℕ → ℕ → Db → Option Acknowledgment
find_acknowledgment user vault version db =
    find? (λ a. a.user_id == user && a.vault_id == vault && a.version == version) db.acknowledgments

acknowledged_version : ℕ → ℕ → Option Disclosure → Db → Bool × Option Disclosure
acknowledged_version user vault none db = (false, none)
acknowledged_version user vault (some d) db =
    (is_some (find_acknowledgment user vault d.version db), some d)

unfoldable pub has_acknowledged_current : ℕ → ℕ → ℕ → Action Db (Bool × Option Disclosure)
unfolding acknowledged_version
has_acknowledged_current now user vault = do
  current ← find_current now vault
  gets (acknowledged_version user vault current)

-- `expectedVersion !== undefined && expectedVersion !== current.version`
abbrev pub is_stale : Option ℕ → ℕ → Bool
is_stale none version = false
is_stale (some expected) version = not (expected == version)

-- `vaultDisclosureAcknowledgment.upsert` with an empty update.
upsert_acknowledgment : Acknowledgment → Db → Db
upsert_acknowledgment a db = elim (find_acknowledgment a.user_id a.vault_id a.version db) [
  | none ↦ record db { acknowledgments = a ∷ db.acknowledgments }
  | some old ↦ db
]

-- The answer is the row; the JSON `context` is left out.
unfoldable pub acknowledge : ℕ → ℕ → ℕ → Option ℕ → Action Db (Option Acknowledgment)
unfolding upsert_acknowledgment
acknowledge now user vault expected = do
  current ← get_current_or_throw now vault
  throw_if (is_stale expected current.version) version_stale
  modify (
      upsert_acknowledgment (record {
        user_id = user;
        vault_id = vault;
        disclosure_id = current.id;
        version = current.version;
        acknowledged_at = now;
      }))
  gets (find_acknowledgment user vault current.version)

-- Called after publishing.
unfoldable pub invalidate : ℕ → Db → Db
invalidate vault db = record db {
  disclosure_cache = filter (λ o. not (o.vault_id == vault)) db.disclosure_cache;
}

refuse_unacknowledged : Bool × Option Disclosure → Action Db (Unit {0})
refuse_unacknowledged (acknowledged, none) = throw disclosure_missing
refuse_unacknowledged (acknowledged, some d) = throw_if (not acknowledged) not_acknowledged

-- `DisclosureGuardService.assertAcknowledged`
unfoldable pub assert_acknowledged : Env → ℕ → ℕ → String → Action Db (Unit {0})
unfolding refuse_unacknowledged
assert_acknowledged env user vault symbol =
    if not env.enforce_vault_disclosure
    then pure tt
    else if is_usdc symbol
    then pure tt
    else (do answer ← has_acknowledged_current env.now user vault; refuse_unacknowledged answer)
